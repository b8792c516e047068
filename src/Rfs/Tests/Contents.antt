-- ===== src/Rfs/Tests/Contents.antt =====
-- A cache of blocks that is a function, and the theorems on the bytes of files and on the handlers
-- applied to a small disk.
use tpso_yanero_los_grosos.Base.{
  some-inj, Bool-cases, ℕ, ◌+◌, ◌*◌, ◌%◌, ◌≤◌, ◌≡◌, refl, ap, ◌∙◌, sym, ◌≢◌, ◌⊎◌, true, false, List,
  [], ◌∷◌, ◌++◌, Option, none, some, inl, inr, arith, replicate, if◌then◌else◌, ◌==◌, take, drop,
  leb,
}
use tpso_yanero_los_grosos.Rfs.Disk.{Volumen, leer, comienzo_bloque, block_size}
use tpso_yanero_los_grosos.Rfs.Inode.{leer_bloque, leer_inodo, lugar_inodo}
use tpso_yanero_los_grosos.Nipc.Bytes.{read_le, slice}
use tpso_yanero_los_grosos.Rfs.Dir.{buscar_path, caminar, listar, entradas_loop, listar_loop}
use tpso_yanero_los_grosos.Rfs.Files.{
  Cache, en_disco, leer_archivo, escribir_archivo, escribir_bytes,
}
use tpso_yanero_los_grosos.Rfs.Files.Reading.{contenido, IsCoherent, leer_archivo_lem}
use tpso_yanero_los_grosos.Rfs.Files.Writing.{escribir_archivo-inside}
use tpso_yanero_los_grosos.Rfs.Files.Termination.{escribir_bytes-returns}
use tpso_yanero_los_grosos.Rfs.Paths.{separar_path, separado}
use tpso_yanero_los_grosos.Rfs.Requests.{leido, procesar_read}
use tpso_yanero_los_grosos.Rfs.Requests.Reading.{procesar_read_lem}
use tpso_yanero_los_grosos.Rfs.Tests.Bits.{en_bytes}
use tpso_yanero_los_grosos.Rfs.Tests.Directory.{raiz, con_raiz, raiz_leida, raiz_bloque}

abbrev Bloques : Type 0
Bloques = ℕ → Option (List ℕ)

abbrev poner : Bloques → ℕ → List ℕ → Bloques
poner c k datos j = if j == k then some datos else c j

poner_same :
    (c : Bloques) (k : ℕ) (datos otros : List ℕ) → poner c k datos k ≡ some otros → otros ≡ datos
poner_same c k datos otros e =
    let own : (k == k) ≡ true = ground arith in sym (some-inj (rw own at e))

poner_other :
    (c : Bloques) (k j : ℕ) (datos otros : List ℕ)
    → k ≢ j
    → poner c k datos j ≡ some otros
    → c j ≡ some otros
poner_other c k j datos otros ne e =
    let other : (j == k) ≡ false = ground (arith, ne) in rw other at e

abbrev bloques : Cache Bloques
bloques = record {
  bajar = λ c k. c k;
  subir = poner;
  bajar-subir = poner_same;
  bajar-subir_ne = poner_other;
}

-- The cache has the first block of the file.
abbrev con_uno : Bloques
con_uno = poner (λ k. none) 10 (en_disco con_raiz 10)

con_uno-IsCoherent : IsCoherent bloques con_uno con_raiz
con_uno-IsCoherent bloque datos e = elim (Bool-cases (bloque == 10)) [
  | inl t ↦
      let same : bloque ≡ 10 = ground (arith, t) in
      sym (some-inj (rw t at e)) ∙ ap (en_disco con_raiz) (sym same)
  | inr f ↦ absurd (nothing (rw f at e))
]
  where
    nothing : none ≡ some datos → ⊥
    nothing e = cc

contenido_uno :
    (v : Volumen) (file : List ℕ) (bloque : ℕ)
    → leer_bloque v.disk 0 file (block_size v.sb) ≡ some bloque
    → contenido 1 0 v file ≡ some (en_disco v bloque ++ [])
contenido_uno v file bloque e = rw e

leer_archivo_lem_example :
    (c' : Bloques) × (leer_archivo bloques con_uno con_raiz raiz 3 20 ≡ (
      if leb (3 % 1024 + 20) (1 * 1024)
      then some (take 20 (drop (3 % 1024) (en_disco con_raiz 10 ++ [])), c')
      else none))
    × IsCoherent bloques c' con_raiz
leer_archivo_lem_example =
    leer_archivo_lem bloques con_uno con_raiz raiz (en_disco con_raiz 10 ++ []) 3 20
      con_uno-IsCoherent (contenido_uno con_raiz raiz 10 raiz_bloque)

tam_raiz : read_le 4 4 raiz ≡ some 1024
unfolding read_le slice
tam_raiz = refl

escribir_archivo-inside_example :
    (c' : Bloques) × (v' : Volumen) × (escribir_archivo bloques en_bytes con_uno con_raiz raiz 5 2
        (7 ∷ 8 ∷ [])
      ≡ some (2, c', v', raiz))
    × (leer 2 (comienzo_bloque con_raiz.sb 10 + 5 % 1024) v'.disk ≡ 7 ∷ 8 ∷ [])
    × ((n a : ℕ)
        → (a + n ≤ comienzo_bloque con_raiz.sb 10 + 5 % 1024)
          ⊎ (comienzo_bloque con_raiz.sb 10 + 5 % 1024 + 2 ≤ a)
        → leer n a v'.disk ≡ leer n a con_raiz.disk)
    × ((datos : List ℕ)
        → c' 10 ≡ some datos
        → datos ≡ leer 1024 (comienzo_bloque con_raiz.sb 10 + 5 % 1024) v'.disk)
escribir_archivo-inside_example =
    escribir_archivo-inside bloques en_bytes con_uno con_raiz raiz 5 1024 10 (7 ∷ 8 ∷ []) tam_raiz
      (omega arith) (omega arith) raiz_bloque (omega arith) (omega arith)

escribir_bytes-returns_example :
    (c' : Bloques) × (v' : Volumen) × (escribir_bytes bloques con_uno con_raiz raiz 1000 30
        (replicate 30 9)
      ≡ some (30, c', v', raiz))
escribir_bytes-returns_example =
    escribir_bytes-returns bloques con_uno con_raiz raiz 1000 30 (replicate 30 9) refl

buscar_raiz : buscar_path con_raiz (47 ∷ []) ≡ some 2
unfolding buscar_path caminar
buscar_raiz = refl

buscar_b : buscar_path con_raiz (47 ∷ 98 ∷ []) ≡ some 0
unfolding buscar_path caminar listar listar_loop entradas_loop leer_inodo lugar_inodo leer_bloque
    read_le slice
buscar_b = refl

separar_b : separar_path (47 ∷ 98 ∷ []) ≡ some (separado (47 ∷ []) (98 ∷ []))
unfolding separar_path
separar_b = refl

procesar_read_lem_example :
    (c' : Bloques) × (procesar_read bloques con_uno con_raiz (47 ∷ []) 1000 50
      ≡ some (leido (take 24 (drop (1000 % 1024) (en_disco con_raiz 10 ++ []))), c'))
    × IsCoherent bloques c' con_raiz
procesar_read_lem_example =
    procesar_read_lem bloques con_uno con_raiz (47 ∷ []) raiz (en_disco con_raiz 10 ++ []) 2 1000 50
      1024 24 buscar_raiz (λ e. omega (arith, e)) raiz_leida tam_raiz (omega arith) (omega arith)
      (omega arith) refl con_uno-IsCoherent (contenido_uno con_raiz raiz 10 raiz_bloque)
      (omega arith)
