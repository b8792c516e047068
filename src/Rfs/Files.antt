-- ===== src/Rfs/Files.antt =====
-- `Dir_leerArchivo` and `Dir_escribirArchivo` of rfs/Dir.c: the bytes of a file, through its blocks
-- and the cache of blocks, which libmemcached keeps. `none` is a fault, or a read of memory that was
-- not written.
pub mod Reading
pub mod Writing
pub mod Termination
use tpso_yanero_los_grosos.Base.{
  ℕ, zero, suc, ◌+◌, ◌-◌, ◌*◌, ◌/◌, ◌%◌, ◌^◌, ◌≡◌, ◌≢◌, List, [], ◌∷◌, ◌++◌, Option, none, some,
  ◌>>=◌, ltb, ◌==◌, if◌then◌else◌, length, take, drop,
}
use tpso_yanero_los_grosos.Nipc.Bytes.{slice}
use tpso_yanero_los_grosos.Rfs.Disk.{Volumen, leer, escribir, block_size, comienzo_bloque}
use tpso_yanero_los_grosos.Rfs.Bitmap.{Bitarray}
use tpso_yanero_los_grosos.Rfs.Groups.{menos_uno}
use tpso_yanero_los_grosos.Rfs.Inode.{leer_bloque}
use tpso_yanero_los_grosos.Rfs.Inode.Blocks.{i_size, cant_bloques, error}
use tpso_yanero_los_grosos.Rfs.Inode.Assignment.{truncar_arriba}
use tpso_yanero_los_grosos.Rfs.Dir.{lugar_en_bloque}
use tpso_yanero_los_grosos.Rfs.Dir.Creation.{escribir_en_bloque}

-- The cache of blocks by their numbers: `cache_bajar_infoServer` and `cache_subir_infoServer` call the
-- library, whose get gives what was set last under a key, or nothing.
pub record Cache (C : Type 0) : Type 0 where
  pub bajar : C → ℕ → Option (List ℕ)
  pub subir : C → ℕ → List ℕ → C
  pub bajar-subir :
      (c : C) (k : ℕ) (datos otros : List ℕ)
      → bajar (subir c k datos) k ≡ some otros
      → otros ≡ datos
  pub bajar-subir_ne :
      (c : C) (k j : ℕ) (datos otros : List ℕ)
      → k ≢ j
      → bajar (subir c k datos) j ≡ some otros
      → bajar c j ≡ some otros

-- A block on the disk.
abbrev pub en_disco : Volumen → ℕ → List ℕ
en_disco v bloque = leer (block_size v.sb) (comienzo_bloque v.sb bloque) v.disk

module _ {C : Type 0} (cache : Cache C) where
  -- A block from the cache, or from the disk and into the cache.
  abbrev pub traer : C → Volumen → ℕ → Option (List ℕ) → List ℕ × C
  traer c v bloque none = (en_disco v bloque, cache.subir c bloque (en_disco v bloque))
  traer c v bloque (some datos) = (take (block_size v.sb) datos, c)

  -- The loop of `Dir_leerArchivo` over `n` blocks from `k` on.
  unfoldable pub leer_loop : ℕ → ℕ → C → Volumen → List ℕ → Option (List ℕ × C)
  leer_loop zero k c v inodo = some ([], c)
  leer_loop (suc n) k c v inodo = do
    bloque ← leer_bloque v.disk k inodo (block_size v.sb)
    let traido = traer c v bloque (cache.bajar c bloque)
    (rest, c') ← leer_loop n (k + 1) (traido.1) v inodo
    some (traido.0 ++ rest, c')

  -- `Dir_leerArchivo`.
  unfoldable pub leer_archivo : C → Volumen → List ℕ → ℕ → ℕ → Option (List ℕ × C)
  leer_archivo c v inodo offset size = do
    (buff_temp, c') ← leer_loop (cant_bloques v size) (offset / block_size v.sb) c v inodo
    buffer ← slice (offset % block_size v.sb) size buff_temp
    some (buffer, c')

  -- What each write does: the bytes go to the disk, and as many as a block has are read back from
  -- the same place for the cache.
  abbrev pub escribir_y_subir : C → Volumen → ℕ → ℕ → List ℕ → C × Volumen
  escribir_y_subir c v bloque offset datos =
      let v' = escribir_en_bloque v bloque offset datos in
      (
        cache.subir c bloque (leer (block_size v.sb) (lugar_en_bloque v.sb bloque offset) v'.disk),
        v',
      )

  -- The blocks behind the first one, in at most `n` rounds; `k` is the block before, and `cant` is
  -- `cantEscrita`, which counts in 32 bits.
  unfoldable pub escribir_loop :
      ℕ → ℕ → C → Volumen → List ℕ → ℕ → List ℕ → ℕ → Option (ℕ × C × Volumen)
  escribir_loop zero k c v inodo size buf cant = none
  escribir_loop (suc n) k c v inodo size buf cant = do
    bloque ← leer_bloque v.disk (k + 1) inodo (block_size v.sb)
    let entero = escribir_y_subir c v bloque 0 (take (block_size v.sb) buf)
    let resto = escribir_y_subir c v bloque 0 (take size buf)
    let rest =
        escribir_loop n (k + 1) entero.0 entero.1 inodo (size - block_size v.sb)
          (drop (block_size v.sb) buf) ((cant + block_size v.sb) % 2 ^ 32)
    if ltb (block_size v.sb) size then rest else some ((cant + size) % 2 ^ 32, resto.0, resto.1)

  -- The bytes of `Dir_escribirArchivo` once the file is large enough: `cantEscrita`, an
  -- `int32_t`, counts them.
  unfoldable pub escribir_bytes :
      C → Volumen → List ℕ → ℕ → ℕ → List ℕ → Option (ℕ × C × Volumen × List ℕ)
  escribir_bytes c v inodo offset size buf = do
    let bs = block_size v.sb
    let primeros = bs - offset % bs
    bloque ← leer_bloque v.disk (offset / bs) inodo bs
    let corto = escribir_y_subir c v bloque (offset % bs) (take size buf)
    let largo = escribir_y_subir c v bloque (offset % bs) (take primeros buf)
    let resto = (do
      (cant, c', v') ←
          escribir_loop (size + 1) (offset / bs) largo.0 largo.1 inodo (size - primeros)
            (drop primeros buf) (primeros % 2 ^ 32)
      some (cant, c', v', inodo))
    if ltb size primeros then some (size % 2 ^ 32, corto.0, corto.1, inodo) else resto

  -- `Dir_escribirArchivo`: the count of bytes, or -1 where the file cannot grow.
  unfoldable pub escribir_archivo :
      Bitarray → C → Volumen → List ℕ → ℕ → ℕ → List ℕ → Option (ℕ × C × Volumen × List ℕ)
  escribir_archivo bits c v inodo offset size buf = do
    tam ← i_size inodo
    let fin = (offset + size) % 2 ^ 32
    (r, v₁, inodo₁) ← (if ltb tam fin then truncar_arriba bits fin v inodo else some (0, v, inodo))
    let escribir = escribir_bytes c v₁ inodo₁ offset size buf
    if r == error then some (menos_uno, c, v₁, inodo₁) else escribir
