-- ===== src/Rfs/Inode/Release.antt =====
-- rfs/Inode.c: the blocks that a file gives back, and the cut of its size. `none` is a fault of the
-- groups.
use tpso_yanero_los_grosos.Base.{
  ℕ, zero, suc, ◌+◌, ◌-◌, ◌*◌, ◌/◌, ◌%◌, ◌^◌, Bool, List, Option, some, ◌>>=◌, ltb, ◌==◌,
  if◌then◌else◌,
}
use tpso_yanero_los_grosos.Rfs.Disk.{Volumen, block_size}
use tpso_yanero_los_grosos.Rfs.Bitmap.{Bitarray}
use tpso_yanero_los_grosos.Rfs.Groups.{liberar_bloque_en_bitmap}
use tpso_yanero_los_grosos.Rfs.Inode.{i_block, buscar_bloque}
use tpso_yanero_los_grosos.Rfs.Inode.Blocks.{
  i_size, con_i_size, con_i_block, escribir_cero, cant_bloques,
}

module _ (bits : Bitarray) where
  -- What `Inode_liberarBloque` does to the blocks of pointers when their first pointer goes: to the
  -- block of one level, of two and of three.
  soltar_raiz : ℕ → Bool → ℕ → Volumen → List ℕ → Option (Volumen × List ℕ)
  soltar_raiz k b bloque₁ v inodo =
      let soltar = (do
        v' ← liberar_bloque_en_bitmap bits v bloque₁
        some (v', con_i_block k 0 inodo)) in
      if b then soltar else some (v, inodo)

  soltar_doble : ℕ → ℕ → ℕ → ℕ → ℕ → Volumen → List ℕ → Option (Volumen × List ℕ)
  unfolding soltar_raiz
  soltar_doble k pos pos₂ bloque₁ bloque₂ v inodo =
      let soltar = (do
        v' ← liberar_bloque_en_bitmap bits (escribir_cero v bloque₁ pos) bloque₂
        soltar_raiz k (pos == 0) bloque₁ v' inodo) in
      if pos₂ == 0 then soltar else some (v, inodo)

  soltar_triple : ℕ → ℕ → ℕ → ℕ → ℕ → ℕ → Volumen → List ℕ → Option (Volumen × List ℕ)
  unfolding soltar_doble
  soltar_triple pos pos₂ pos₃ bloque₁ bloque₂ bloque₃ v inodo =
      let soltar = (do
        v' ← liberar_bloque_en_bitmap bits (escribir_cero v bloque₂ pos₂) bloque₃
        soltar_doble 14 pos pos₂ bloque₁ bloque₂ v' inodo) in
      if pos₃ == 0 then soltar else some (v, inodo)

  -- `Inode_liberarBloque`, level by level.
  liberar_directo : ℕ → Volumen → List ℕ → Option (Volumen × List ℕ)
  liberar_directo nro v inodo = do
    bloque₁ ← i_block inodo nro
    v' ← liberar_bloque_en_bitmap bits v bloque₁
    some (v', con_i_block nro 0 inodo)

  liberar_simple : ℕ → Volumen → List ℕ → Option (Volumen × List ℕ)
  unfolding soltar_raiz
  liberar_simple pos v inodo = do
    bloque₁ ← i_block inodo 12
    let bloque₂ = buscar_bloque v.disk bloque₁ pos (block_size v.sb)
    (v₁, inodo₁) ← soltar_raiz 12 (pos == 0) bloque₁ v inodo
    v₂ ← liberar_bloque_en_bitmap bits (escribir_cero v₁ bloque₁ pos) bloque₂
    some (v₂, inodo₁)

  liberar_doble : ℕ → ℕ → Volumen → List ℕ → Option (Volumen × List ℕ)
  unfolding soltar_doble
  liberar_doble pos pos₂ v inodo = do
    bloque₁ ← i_block inodo 13
    let bloque₂ = buscar_bloque v.disk bloque₁ pos (block_size v.sb)
    let bloque₃ = buscar_bloque v.disk bloque₂ pos₂ (block_size v.sb)
    (v₁, inodo₁) ← soltar_doble 13 pos pos₂ bloque₁ bloque₂ v inodo
    v₂ ← liberar_bloque_en_bitmap bits (escribir_cero v₁ bloque₂ pos₂) bloque₃
    some (v₂, inodo₁)

  liberar_triple : ℕ → ℕ → ℕ → Volumen → List ℕ → Option (Volumen × List ℕ)
  unfolding soltar_triple
  liberar_triple pos pos₂ pos₃ v inodo = do
    bloque₁ ← i_block inodo 14
    let bloque₂ = buscar_bloque v.disk bloque₁ pos (block_size v.sb)
    let bloque₃ = buscar_bloque v.disk bloque₂ pos₂ (block_size v.sb)
    let bloque₄ = buscar_bloque v.disk bloque₃ pos₃ (block_size v.sb)
    (v₁, inodo₁) ← soltar_triple pos pos₂ pos₃ bloque₁ bloque₂ bloque₃ v inodo
    v₂ ← liberar_bloque_en_bitmap bits (escribir_cero v₁ bloque₃ pos₃) bloque₄
    some (v₂, inodo₁)

  -- Which level a block of the file is on, with its places in the blocks of pointers.
  liberar_bloque : ℕ → Volumen → List ℕ → Option (Volumen × List ℕ)
  unfolding liberar_directo liberar_simple liberar_doble liberar_triple
  liberar_bloque nro v inodo =
      let c = block_size v.sb / 4 in
      let n₁ = nro - 12 in
      let n₂ = n₁ - c in
      let n₃ = n₂ - (c * c) % 2 ^ 32 in
      if ltb nro 12
      then liberar_directo nro v inodo
      else (if ltb n₁ c
          then liberar_simple n₁ v inodo
          else (if ltb n₂ ((c * c) % 2 ^ 32)
              then liberar_doble (n₂ / c) (n₂ % c) v inodo
              else (if ltb n₃ ((c * c * c) % 2 ^ 32)
                  then liberar_triple ((n₃ / c) / c) ((n₃ / c) % c) (n₃ % c) v inodo
                  else some (v, inodo))))

  -- The loop of `Inode_truncarAbajo`, which frees the blocks `nuevo + k` with `k` below `n`, from the
  -- last one on.
  liberar_loop : ℕ → ℕ → Volumen → List ℕ → Option (Volumen × List ℕ)
  unfolding liberar_bloque
  liberar_loop zero nuevo v inodo = some (v, inodo)
  liberar_loop (suc n) nuevo v inodo = do
    (v', inodo') ← liberar_bloque (nuevo + n) v inodo
    liberar_loop n nuevo v' inodo'

  -- `Inode_truncarAbajo`.
  unfoldable pub truncar_abajo : ℕ → Volumen → List ℕ → Option (Volumen × List ℕ)
  unfolding liberar_loop
  truncar_abajo nuevo_tam v inodo = do
    tam ← i_size inodo
    let nuevo = cant_bloques v nuevo_tam
    (v', inodo') ← liberar_loop (cant_bloques v tam - nuevo) nuevo v inodo
    some (v', con_i_size nuevo_tam inodo')
