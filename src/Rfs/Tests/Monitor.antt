-- ===== src/Rfs/Tests/Monitor.antt =====
-- A read-write lock that counts its readers, and the theorems on the locks of the inodes applied to two threads.
use tpso_yanero_los_grosos.Base.{
  ℕ, zero, suc, ◌+◌, ◌-◌, ◌≡◌, refl, ◌≢◌, true, false, [], ◌∷◌, Option, none, some, arith,
}
use tpso_yanero_los_grosos.Rfs.Locks.{
  RwLock, Nodo, Hilo, Sistema, colgado, Step, entra, toma, Reach, here, next, vacio, tomar,
  monitor_unlock,
}
use tpso_yanero_los_grosos.Rfs.Locks.Lookup.{nodo_de}
use tpso_yanero_los_grosos.Rfs.Locks.Threads.{cuantos, leyendo, escribiendo}
use tpso_yanero_los_grosos.Rfs.Locks.Invariant.{IsKept, Reach-IsKept}
use tpso_yanero_los_grosos.Rfs.Locks.Safety.{writer-alone, tomar-live, waiting-goes_on}

data Cerrojo : Type 0 where
  leen : ℕ → Cerrojo
  escrito : Cerrojo

abbrev rd : Cerrojo → Option Cerrojo
rd (leen n) = some (leen (n + 1))
rd escrito = none

abbrev wr : Cerrojo → Option Cerrojo
wr (leen zero) = some escrito
wr (leen (suc n)) = none
wr escrito = none

abbrev un : Cerrojo → Cerrojo
un (leen n) = leen (n - 1)
un escrito = leen 0

abbrev que_leen : Cerrojo → ℕ
que_leen (leen n) = n
que_leen escrito = 0

abbrev que_escriben : Cerrojo → ℕ
que_escriben (leen n) = 0
que_escriben escrito = 1

rd-some :
    (l m : Cerrojo)
    → rd l ≡ some m
    → (que_escriben l ≡ 0) × (que_leen m ≡ que_leen l + 1) × (que_escriben m ≡ 0)
rd-some (leen n) (leen k) e = (refl, cc, refl)
rd-some (leen n) escrito e = cc
rd-some escrito m e = cc

wr-some :
    (l m : Cerrojo)
    → wr l ≡ some m
    → (que_leen l ≡ 0) × (que_escriben l ≡ 0) × (que_leen m ≡ 0) × (que_escriben m ≡ 1)
wr-some (leen zero) (leen k) e = cc
wr-some (leen zero) escrito e = (refl, refl, refl, refl)
wr-some (leen (suc n)) m e = cc
wr-some escrito m e = cc

un-reader :
    (l : Cerrojo)
    → que_escriben l ≡ 0
    → (que_leen (un l) ≡ que_leen l - 1) × (que_escriben (un l) ≡ 0)
un-reader (leen n) e = (refl, refl)
un-reader escrito e = absurd (omega (arith, e))

un-writer :
    (l : Cerrojo) → que_escriben l ≡ 1 → (que_leen (un l) ≡ que_leen l) × (que_escriben (un l) ≡ 0)
un-writer (leen n) e = absurd (omega (arith, e))
un-writer escrito e = (refl, refl)

rd-free : (l : Cerrojo) → que_leen l ≡ 0 → que_escriben l ≡ 0 → (m : Cerrojo) × (rd l ≡ some m)
rd-free (leen n) r w = (leen (n + 1), refl)
rd-free escrito r w = absurd (omega (arith, w))

wr-free : (l : Cerrojo) → que_leen l ≡ 0 → que_escriben l ≡ 0 → (m : Cerrojo) × (wr l ≡ some m)
wr-free (leen zero) r w = (escrito, refl)
wr-free (leen (suc n)) r w = absurd (omega (arith, r))
wr-free escrito r w = absurd (omega (arith, w))

abbrev cerrojo : RwLock Cerrojo
cerrojo = record {
  init = leen 0;
  rdlock = rd;
  wrlock = wr;
  unlock = un;
  lectores = que_leen;
  escritores = que_escriben;
  init-free = (refl, refl);
  rdlock-some = rd-some;
  wrlock-some = wr-some;
  unlock-reader = un-reader;
  unlock-writer = un-writer;
  rdlock-free = rd-free;
  wrlock-free = wr-free;
}

-- A thread that writes the inode 7, and one that is waiting to read it.
abbrev escritor : Hilo
escritor = record { nro = 7; escribe = true; nodo = 100; dentro = false }

abbrev lector : Hilo
lector = record { nro = 7; escribe = false; nodo = 100; dentro = false }

abbrev nodo : ℕ → Cerrojo → Nodo Cerrojo
nodo cant mt = record { dir = 100; nro_inodo = 7; cant_hilos = cant; mt_inodo = mt }

abbrev uno_espera : Sistema Cerrojo
uno_espera = record { lista = nodo 1 (leen 0) ∷ []; hilos = escritor ∷ [] }

abbrev uno_dentro : Sistema Cerrojo
uno_dentro = record { lista = nodo 1 escrito ∷ []; hilos = record escritor { dentro = true } ∷ [] }

abbrev dos : Sistema Cerrojo
dos = record {
  lista = nodo 2 escrito ∷ [];
  hilos = lector ∷ record escritor { dentro = true } ∷ [];
}

hasta_espera : Reach cerrojo vacio uno_espera
hasta_espera = next here (entra 7 100 true tt (omega arith) refl)

hasta_dentro : Reach cerrojo vacio uno_dentro
hasta_dentro = next hasta_espera (toma [] [] escritor (nodo 1 escrito ∷ []) refl refl refl refl)

hasta_dos : Reach cerrojo vacio dos
hasta_dos = next hasta_dentro (entra 7 200 false ((λ e. omega (arith, e)), tt) (omega arith) refl)

Reach-IsKept_example : IsKept cerrojo dos
Reach-IsKept_example = Reach-IsKept cerrojo dos hasta_dos

writer-alone_example :
    (cuantos (leyendo 7) (lector ∷ []) ≡ 0) × (cuantos (escribiendo 7) (lector ∷ []) ≡ 0)
writer-alone_example =
    writer-alone cerrojo dos (lector ∷ []) [] (record escritor { dentro = true }) hasta_dos refl
      refl refl

tomar-live_example :
    ((n : Nodo Cerrojo) × (nodo_de 7 dos.lista ≡ some n) × (n.dir ≡ 100))
    × (tomar cerrojo 5 100 dos.lista ≢ colgado)
tomar-live_example =
    tomar-live cerrojo dos [] (record escritor { dentro = true } ∷ []) lector hasta_dos refl

waiting-goes_on_example :
    (t : Sistema Cerrojo) × Step cerrojo uno_espera t
    × (t.hilos ≡ record escritor { dentro = true } ∷ [])
waiting-goes_on_example =
    waiting-goes_on cerrojo uno_espera [] [] escritor hasta_espera refl refl refl refl

-- The last thread frees the node; the one before does not.
salidas :
    (monitor_unlock cerrojo 7 uno_dentro.lista ≡ [])
    × (monitor_unlock cerrojo 7 dos.lista ≡ nodo 1 (leen 0) ∷ [])
salidas = (refl, refl)
