-- ===== src/Rfs/Inode/Assignment.antt =====
-- rfs/Inode.c: the blocks that a file is given, and the growth of its size. `none` is a fault of the
-- groups.
use tpso_yanero_los_grosos.Base.{
  ℕ, zero, suc, ◌+◌, ◌-◌, ◌*◌, ◌/◌, ◌%◌, ◌^◌, List, Option, some, ◌>>=◌, ltb, ◌==◌, if◌then◌else◌,
}
use tpso_yanero_los_grosos.Rfs.Disk.{Volumen, block_size}
use tpso_yanero_los_grosos.Rfs.Bitmap.{Bitarray}
use tpso_yanero_los_grosos.Rfs.Groups.{pedir_bloque_libre}
use tpso_yanero_los_grosos.Rfs.Inode.{i_block, buscar_bloque}
use tpso_yanero_los_grosos.Rfs.Inode.Blocks.{
  i_size, con_i_size, con_i_block, escribir_ptro, inicializar_bloq_de_ptros, es_cero, cant_bloques,
  error,
}
use tpso_yanero_los_grosos.Rfs.Inode.Release.{truncar_abajo}

module _ (bits : Bitarray) where
  -- `Inode_asignarBloque`, level by level: 0, or -1 where there are too few free blocks.
  unfoldable pub asignar_directo : ℕ → Volumen → List ℕ → Option (ℕ × Volumen × List ℕ)
  asignar_directo nro v inodo =
      let asignar = (do
        (bloque₁, v₁) ← pedir_bloque_libre bits v
        some (0, v₁, con_i_block nro bloque₁ inodo)) in
      if ltb v.sb.s_free_blocks_count 1 then some (error, v, inodo) else asignar

  unfoldable pub simple_nuevo : ℕ → Volumen → List ℕ → Option (ℕ × Volumen × List ℕ)
  simple_nuevo pos v inodo =
      let asignar = (do
        (bloque₁, v₁) ← pedir_bloque_libre bits v
        (bloque₂, v₂) ← pedir_bloque_libre bits v₁
        let v₃ = inicializar_bloq_de_ptros v₂ bloque₁
        some (0, escribir_ptro v₃ bloque₁ pos bloque₂, con_i_block 12 bloque₁ inodo)) in
      if ltb v.sb.s_free_blocks_count 2 then some (error, v, inodo) else asignar

  -- A block of data under a block of pointers that is there.
  unfoldable pub dato : ℕ → ℕ → Volumen → List ℕ → Option (ℕ × Volumen × List ℕ)
  dato bloque pos v inodo =
      let asignar = (do
        (bloque', v₁) ← pedir_bloque_libre bits v
        some (0, escribir_ptro v₁ bloque pos bloque', inodo)) in
      if ltb v.sb.s_free_blocks_count 1 then some (error, v, inodo) else asignar

  -- A block of pointers and a block of data, under one that is there.
  puntero_y_dato : ℕ → ℕ → ℕ → Volumen → List ℕ → Option (ℕ × Volumen × List ℕ)
  puntero_y_dato bloque pos pos' v inodo =
      let asignar = (do
        (bloque', v₁) ← pedir_bloque_libre bits v
        (bloque'', v₂) ← pedir_bloque_libre bits v₁
        let v₃ = inicializar_bloq_de_ptros v₂ bloque'
        let v₄ = escribir_ptro v₃ bloque pos bloque'
        some (0, escribir_ptro v₄ bloque' pos' bloque'', inodo)) in
      if ltb v.sb.s_free_blocks_count 2 then some (error, v, inodo) else asignar

  unfoldable pub asignar_simple : ℕ → Volumen → List ℕ → Option (ℕ × Volumen × List ℕ)
  unfolding simple_nuevo dato
  asignar_simple pos v inodo = do
    bloque₁ ← i_block inodo 12
    if bloque₁ == 0 then simple_nuevo pos v inodo else dato bloque₁ pos v inodo

  doble_nuevo : ℕ → ℕ → Volumen → List ℕ → Option (ℕ × Volumen × List ℕ)
  doble_nuevo pos pos₂ v inodo =
      let asignar = (do
        (bloque₁, v₁) ← pedir_bloque_libre bits v
        (bloque₂, v₂) ← pedir_bloque_libre bits v₁
        (bloque₃, v₃) ← pedir_bloque_libre bits v₂
        let v₄ = inicializar_bloq_de_ptros (inicializar_bloq_de_ptros v₃ bloque₁) bloque₂
        let v₅ = escribir_ptro v₄ bloque₁ pos bloque₂
        some (0, escribir_ptro v₅ bloque₂ pos₂ bloque₃, con_i_block 13 bloque₁ inodo)) in
      if ltb v.sb.s_free_blocks_count 3 then some (error, v, inodo) else asignar

  -- Under a block of pointers of two levels that is there.
  bajo_doble : ℕ → ℕ → ℕ → Volumen → List ℕ → Option (ℕ × Volumen × List ℕ)
  unfolding puntero_y_dato dato
  bajo_doble bloque pos pos' v inodo =
      if es_cero v bloque pos == 0
      then puntero_y_dato bloque pos pos' v inodo
      else dato (buscar_bloque v.disk bloque pos (block_size v.sb)) pos' v inodo

  asignar_doble : ℕ → ℕ → Volumen → List ℕ → Option (ℕ × Volumen × List ℕ)
  unfolding doble_nuevo bajo_doble
  asignar_doble pos pos₂ v inodo = do
    bloque₁ ← i_block inodo 13
    if bloque₁ == 0 then doble_nuevo pos pos₂ v inodo else bajo_doble bloque₁ pos pos₂ v inodo

  triple_nuevo : ℕ → ℕ → ℕ → Volumen → List ℕ → Option (ℕ × Volumen × List ℕ)
  triple_nuevo pos pos₂ pos₃ v inodo =
      let asignar = (do
        (bloque₁, v₁) ← pedir_bloque_libre bits v
        (bloque₂, v₂) ← pedir_bloque_libre bits v₁
        (bloque₃, v₃) ← pedir_bloque_libre bits v₂
        (bloque₄, v₄) ← pedir_bloque_libre bits v₃
        let v₅ = inicializar_bloq_de_ptros (inicializar_bloq_de_ptros v₄ bloque₁) bloque₂
        let v₆ = inicializar_bloq_de_ptros v₅ bloque₃
        let v₇ = escribir_ptro (escribir_ptro v₆ bloque₁ pos bloque₂) bloque₂ pos₂ bloque₃
        some (0, escribir_ptro v₇ bloque₃ pos₃ bloque₄, con_i_block 14 bloque₁ inodo)) in
      if ltb v.sb.s_free_blocks_count 4 then some (error, v, inodo) else asignar

  -- Two blocks of pointers and a block of data, under one that is there.
  punteros_y_dato : ℕ → ℕ → ℕ → ℕ → Volumen → List ℕ → Option (ℕ × Volumen × List ℕ)
  punteros_y_dato bloque₁ pos pos₂ pos₃ v inodo =
      let asignar = (do
        (bloque₂, v₁) ← pedir_bloque_libre bits v
        (bloque₃, v₂) ← pedir_bloque_libre bits v₁
        (bloque₄, v₃) ← pedir_bloque_libre bits v₂
        let v₄ = inicializar_bloq_de_ptros (inicializar_bloq_de_ptros v₃ bloque₂) bloque₃
        let v₅ = escribir_ptro (escribir_ptro v₄ bloque₁ pos bloque₂) bloque₂ pos₂ bloque₃
        some (0, escribir_ptro v₅ bloque₃ pos₃ bloque₄, inodo)) in
      if ltb v.sb.s_free_blocks_count 3 then some (error, v, inodo) else asignar

  asignar_triple : ℕ → ℕ → ℕ → Volumen → List ℕ → Option (ℕ × Volumen × List ℕ)
  unfolding triple_nuevo punteros_y_dato bajo_doble
  asignar_triple pos pos₂ pos₃ v inodo = do
    bloque₁ ← i_block inodo 14
    let bloque₂ = buscar_bloque v.disk bloque₁ pos (block_size v.sb)
    if bloque₁ == 0
        then triple_nuevo pos pos₂ pos₃ v inodo
        else (if es_cero v bloque₁ pos == 0
            then punteros_y_dato bloque₁ pos pos₂ pos₃ v inodo
            else bajo_doble bloque₂ pos₂ pos₃ v inodo)

  unfoldable pub asignar_bloque : ℕ → Volumen → List ℕ → Option (ℕ × Volumen × List ℕ)
  unfolding asignar_directo asignar_simple asignar_doble asignar_triple
  asignar_bloque nro v inodo =
      let c = block_size v.sb / 4 in
      let n₁ = nro - 12 in
      let n₂ = n₁ - c in
      let n₃ = n₂ - (c * c) % 2 ^ 32 in
      if ltb nro 12
      then asignar_directo nro v inodo
      else (if ltb n₁ c
          then asignar_simple n₁ v inodo
          else (if ltb n₂ ((c * c) % 2 ^ 32)
              then asignar_doble (n₂ / c) (n₂ % c) v inodo
              else (if ltb n₃ ((c * c * c) % 2 ^ 32)
                  then asignar_triple ((n₃ / c) / c) ((n₃ / c) % c) (n₃ % c) v inodo
                  else some (0, v, inodo))))

  -- The loop of `Inode_truncarArriba` over `n` blocks from `i` on: the result, the last `i`, the
  -- volume and the inode.
  asignar_loop : ℕ → ℕ → Volumen → List ℕ → Option (ℕ × ℕ × Volumen × List ℕ)
  asignar_loop zero i v inodo = some (0, i, v, inodo)
  asignar_loop (suc n) i v inodo = do
    (r, v', inodo') ← asignar_bloque i v inodo
    let rest = asignar_loop n (i + 1) v' inodo'
    if r == 0 then rest else some (r, i + 1, v', inodo')

  -- `Inode_truncarArriba`: without enough blocks the file goes back to its size.
  unfoldable pub truncar_arriba : ℕ → Volumen → List ℕ → Option (ℕ × Volumen × List ℕ)
  unfolding asignar_loop
  truncar_arriba nuevo_tam v inodo = do
    tam ← i_size inodo
    let cant = cant_bloques v tam
    (r, i, v', inodo') ← asignar_loop (cant_bloques v nuevo_tam - cant) cant v inodo
    let volver = (do
      anterior ← i_size inodo'
      (v'', inodo'') ←
          truncar_abajo bits anterior v' (con_i_size (((i - 1) * block_size v.sb) % 2 ^ 32) inodo')
      some (error, v'', inodo''))
    if r == error then volver else some (0, v', con_i_size nuevo_tam inodo')
