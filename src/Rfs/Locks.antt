-- ===== src/Rfs/Locks.antt =====
-- rfs/sincro.c: the list of the inodes in use and their read-write locks. A node has an address,
-- which the threads keep between the release of the list's mutex and their turn at the node's lock;
-- what a function does under that mutex is one step. The lock of POSIX threads is an interface.
pub mod Lookup
pub mod Turns
pub mod Threads
pub mod Counts
pub mod Invariant
pub mod Safety
use tpso_yanero_los_grosos.Base.{
  ℕ, suc, ◌+◌, ◌-◌, ◌^◌, ◌<◌, ◌≡◌, ◌≢◌, Bool, true, false, List, [], ◌∷◌, ◌++◌, Option, none, some,
  ◌==◌, if◌then◌else◌, length,
}
use tpso_yanero_los_grosos.Rfs.Disk.{incremento, decremento}

-- `pthread_rwlock_t`: who holds it, and what the calls are documented to do. A call that would block
-- gives `none`.
pub record RwLock (L : Type 0) : Type 0 where
  pub init : L
  pub rdlock : L → Option L
  pub wrlock : L → Option L
  pub unlock : L → L
  pub lectores : L → ℕ
  pub escritores : L → ℕ
  pub init-free : (lectores init ≡ 0) × (escritores init ≡ 0)
  pub rdlock-some :
      (l m : L)
      → rdlock l ≡ some m
      → (escritores l ≡ 0) × (lectores m ≡ lectores l + 1) × (escritores m ≡ 0)
  pub wrlock-some :
      (l m : L)
      → wrlock l ≡ some m
      → (lectores l ≡ 0) × (escritores l ≡ 0) × (lectores m ≡ 0) × (escritores m ≡ 1)
  pub unlock-reader :
      (l : L)
      → escritores l ≡ 0
      → (lectores (unlock l) ≡ lectores l - 1) × (escritores (unlock l) ≡ 0)
  pub unlock-writer :
      (l : L) → escritores l ≡ 1 → (lectores (unlock l) ≡ lectores l) × (escritores (unlock l) ≡ 0)
  pub rdlock-free : (l : L) → lectores l ≡ 0 → escritores l ≡ 0 → (m : L) × (rdlock l ≡ some m)
  pub wrlock-free : (l : L) → lectores l ≡ 0 → escritores l ≡ 0 → (m : L) × (wrlock l ≡ some m)

-- `t_nodoInodo`, with its address.
pub record Nodo (L : Type 0) : Type 0 where
  pub dir : ℕ
  pub nro_inodo : ℕ
  pub cant_hilos : ℕ
  pub mt_inodo : L

-- What a thread finds at the lock of its node: the node was freed, the lock is held, or it goes on.
pub data Turno (L : Type 0) : Type 0 where
  colgado : Turno L
  espera : Turno L
  sigue : List (Nodo L) → Turno L

abbrev pub tras : {L : Type 0} → Nodo L → Turno L → Turno L
tras n colgado = colgado
tras n espera = espera
tras n (sigue ns) = sigue (n ∷ ns)

abbrev pub con_lock : {L : Type 0} → Nodo L → List (Nodo L) → Option L → Turno L
con_lock n ns none = espera
con_lock n ns (some m) = sigue (record n { mt_inodo = m } ∷ ns)

module _ {L : Type 0} (rwlock : RwLock L) where
  abbrev pub nodo_nuevo : ℕ → ℕ → Nodo L
  nodo_nuevo nro nuevo = record {
    dir = nuevo;
    nro_inodo = nro;
    cant_hilos = 1;
    mt_inodo = rwlock.init;
  }

  -- `Sincro_monitorLock` under the mutex: the list, and the address of the thread's node. A new node
  -- is allocated at `nuevo`.
  abbrev pub registrar : ℕ → ℕ → List (Nodo L) → List (Nodo L) × ℕ
  registrar nro nuevo [] = (nodo_nuevo nro nuevo ∷ [], nuevo)
  registrar nro nuevo (n ∷ ns) =
      let rest = registrar nro nuevo ns in
      if n.nro_inodo == nro
      then (record n { cant_hilos = incremento 32 n.cant_hilos } ∷ ns, n.dir)
      else (n ∷ rest.0, rest.1)

  -- The call at the end of `Sincro_monitorLock`: 5 is TIPOREAD and 6 is TIPOWRITE.
  abbrev pub lock_de : ℕ → L → Option L
  lock_de operacion l =
      if operacion == 5
      then rwlock.rdlock l
      else (if operacion == 6 then rwlock.wrlock l else some l)

  abbrev pub tomar : ℕ → ℕ → List (Nodo L) → Turno L
  tomar operacion dir [] = colgado
  tomar operacion dir (n ∷ ns) =
      let rest = tomar operacion dir ns in
      if n.dir == dir then con_lock n ns (lock_de operacion n.mt_inodo) else tras n rest

  -- `Sincro_monitorUnlock`: the last thread frees the node.
  abbrev pub monitor_unlock : ℕ → List (Nodo L) → List (Nodo L)
  monitor_unlock nro [] = []
  monitor_unlock nro (n ∷ ns) =
      let rest = monitor_unlock nro ns in
      let cant = decremento 32 n.cant_hilos in
      if n.nro_inodo == nro
      then (if cant == 0
          then ns
          else record n { cant_hilos = cant; mt_inodo = rwlock.unlock n.mt_inodo } ∷ ns)
      else n ∷ rest

-- A thread between its `Sincro_monitorLock` and its `Sincro_monitorUnlock`, before or after its turn.
pub record Hilo : Type 0 where
  pub nro : ℕ
  pub escribe : Bool
  pub nodo : ℕ
  pub dentro : Bool

abbrev pub operacion_de : Hilo → ℕ
operacion_de h = if h.escribe then 6 else 5

pub record Sistema (L : Type 0) : Type 0 where
  pub lista : List (Nodo L)
  pub hilos : List Hilo

abbrev pub vacio : {L : Type 0} → Sistema L
vacio = record { lista = []; hilos = [] }

-- No node of the list is at the address.
abbrev pub IsFresh : {L : Type 0} → ℕ → List (Nodo L) → Type 0
IsFresh dir [] = Unit
IsFresh dir (n ∷ ns) = (n.dir ≢ dir) × IsFresh dir ns

module _ {L : Type 0} (rwlock : RwLock L) where
  -- A thread registers, with fewer than 2^32 threads and fresh memory; it gets its turn at the lock;
  -- it leaves.
  pub data Step (s t : Sistema L) : Type 0 where
    entra :
        (nro nuevo : ℕ) (escribe : Bool)
        → IsFresh nuevo s.lista
        → length s.hilos + 1 < 2 ^ 32
        → t ≡ record {
          lista = (registrar rwlock nro nuevo s.lista).0;
          hilos =
              record {
                nro = nro;
                escribe = escribe;
                nodo = (registrar rwlock nro nuevo s.lista).1;
                dentro = false;
              }
              ∷ s.hilos;
        }
        → Step s t
    toma :
        (hs₁ hs₂ : List Hilo) (h : Hilo) (l : List (Nodo L))
        → s.hilos ≡ hs₁ ++ h ∷ hs₂
        → h.dentro ≡ false
        → tomar rwlock (operacion_de h) h.nodo s.lista ≡ sigue l
        → t ≡ record { lista = l; hilos = hs₁ ++ record h { dentro = true } ∷ hs₂ }
        → Step s t
    sale :
        (hs₁ hs₂ : List Hilo) (h : Hilo)
        → s.hilos ≡ hs₁ ++ h ∷ hs₂
        → h.dentro ≡ true
        → t ≡ record { lista = monitor_unlock rwlock h.nro s.lista; hilos = hs₁ ++ hs₂ }
        → Step s t

  pub data Reach (s : Sistema L) : Sistema L → Type 0 where
    here : Reach s s
    next : {t u : Sistema L} → Reach s t → Step t u → Reach s u
