-- ===== src/Rfs/Groups.antt =====
-- rfs/Grupos.c, and the search for a free inode of rfs/Inode.c: the bitmaps of blocks and inodes and
-- the counts of what is free. `none` is a fault: a group that the table does not have, a bit outside
-- its bitmap, a division by 0. Each function that locks a mutex is one step.
pub mod Marking
pub mod Allocation
pub mod Release
pub mod Full
pub mod Sizes
use tpso_yanero_los_grosos.Base.{
  ℕ, zero, suc, ◌+◌, ◌-◌, ◌*◌, ◌/◌, ◌%◌, ◌^◌, List, Option, none, some, ◌>>=◌, ltb, ◌==◌,
  if◌then◌else◌, length, get_elem?, set,
}
use tpso_yanero_los_grosos.Rfs.Disk.{
  Superblock, GroupDescriptor, Volumen, leer, escribir, resta, incremento, decremento, div?,
  comienzo_bloque,
}
use tpso_yanero_los_grosos.Rfs.Bitmap.{
  Bitarray, buscar_posicion_libre, con_bit_puesto, con_bit_limpio,
}

-- The number of groups.
abbrev pub cant_grupos : Superblock → Option ℕ
cant_grupos sb = do
  q ← div? (resta 32 sb.s_blocks_count sb.s_first_data_block) sb.s_blocks_per_group
  some ((1 + q) % 2 ^ 32)

-- How many bytes a bitmap of `n` bits takes; the test for one more looks at the bytes.
abbrev pub bytes_de_bitmap : ℕ → ℕ
bytes_de_bitmap n = if ltb 0 ((n / 8) % 8) then n / 8 + 1 else n / 8

-- The size of a group's bitmap of blocks: the last group has what is left.
abbrev pub tam_block_bitmap : Superblock → ℕ → Option ℕ
tam_block_bitmap sb nro_grupo = do
  cant ← cant_grupos sb
  some (
      bytes_de_bitmap (
        if nro_grupo == resta 32 cant 1
        then resta 32 sb.s_blocks_count ((resta 32 cant 1 * sb.s_blocks_per_group) % 2 ^ 32)
        else sb.s_blocks_per_group))

-- `Grupos_leerBlockBitmap`.
unfoldable pub leer_block_bitmap : Volumen → ℕ → Option (List ℕ)
leer_block_bitmap v nro_grupo = do
  tam ← tam_block_bitmap v.sb nro_grupo
  d ← get_elem? v.bgdt nro_grupo
  some (leer tam (comienzo_bloque v.sb d.bg_block_bitmap) v.disk)

-- `Grupos_escribirBlockBitmap`.
unfoldable pub escribir_block_bitmap : Volumen → ℕ → List ℕ → Option Volumen
escribir_block_bitmap v nro_grupo bs = do
  d ← get_elem? v.bgdt nro_grupo
  some (record v { disk = escribir bs (comienzo_bloque v.sb d.bg_block_bitmap) v.disk })

-- `Grupos_leerInodeBitmap`.
unfoldable pub leer_inode_bitmap : Volumen → ℕ → Option (List ℕ)
leer_inode_bitmap v nro_grupo = do
  d ← get_elem? v.bgdt nro_grupo
  some (
      leer (bytes_de_bitmap v.sb.s_inodes_per_group) (comienzo_bloque v.sb d.bg_inode_bitmap)
        v.disk)

-- `Grupos_escribirInodeBitmap`.
unfoldable pub escribir_inode_bitmap : Volumen → ℕ → List ℕ → Option Volumen
escribir_inode_bitmap v nro_grupo bs = do
  d ← get_elem? v.bgdt nro_grupo
  some (record v { disk = escribir bs (comienzo_bloque v.sb d.bg_inode_bitmap) v.disk })

-- The count of free blocks, in the superblock and in the group; a group's count has 16 bits.
contar_bloques : (ℕ → ℕ → ℕ) → Volumen → ℕ → Option Volumen
contar_bloques f v nro_grupo = do
  d ← get_elem? v.bgdt nro_grupo
  some (record v {
    sb = record (v.sb) { s_free_blocks_count = f 32 v.sb.s_free_blocks_count };
    bgdt = set v.bgdt nro_grupo (record d { bg_free_blocks_count = f 16 d.bg_free_blocks_count });
  })

contar_inodos : (ℕ → ℕ → ℕ) → Volumen → ℕ → Option Volumen
contar_inodos f v nro_grupo = do
  d ← get_elem? v.bgdt nro_grupo
  some (record v {
    sb = record (v.sb) { s_free_inodes_count = f 32 v.sb.s_free_inodes_count };
    bgdt = set v.bgdt nro_grupo (record d { bg_free_inodes_count = f 16 d.bg_free_inodes_count });
  })

-- -1 as an `int32_t`.
abbrev pub menos_uno : ℕ
menos_uno = 2 ^ 32 - 1

module _ (bits : Bitarray) where
  -- `Grupos_liberarBloqueEnBitmap`.
  unfoldable pub liberar_bloque_en_bitmap : Volumen → ℕ → Option Volumen
  unfolding contar_bloques
  liberar_bloque_en_bitmap v nro_bloque = do
    let nro = resta 32 nro_bloque v.sb.s_first_data_block
    nro_grupo ← div? nro v.sb.s_blocks_per_group
    bs ← leer_block_bitmap v nro_grupo
    bs' ← con_bit_limpio bits bs (nro - nro_grupo * v.sb.s_blocks_per_group)
    v' ← escribir_block_bitmap v nro_grupo bs'
    contar_bloques incremento v' nro_grupo

  -- `Grupos_utilizarBloqueEnBitmap`.
  unfoldable pub utilizar_bloque_en_bitmap : Volumen → ℕ → Option Volumen
  unfolding contar_bloques
  utilizar_bloque_en_bitmap v nro_bloque = do
    let nro = resta 32 nro_bloque v.sb.s_first_data_block
    nro_grupo ← div? nro v.sb.s_blocks_per_group
    bs ← leer_block_bitmap v nro_grupo
    bs' ← con_bit_puesto bits bs (nro - nro_grupo * v.sb.s_blocks_per_group)
    v' ← escribir_block_bitmap v nro_grupo bs'
    contar_bloques decremento v' nro_grupo

  -- `Grupos_liberarInodoEnBitmap`: inodes are numbered from 1.
  unfoldable pub liberar_inodo_en_bitmap : Volumen → ℕ → Option Volumen
  unfolding contar_inodos
  liberar_inodo_en_bitmap v nro_inodo = do
    let nro = decremento 32 nro_inodo
    nro_grupo ← div? nro v.sb.s_inodes_per_group
    bs ← leer_inode_bitmap v nro_grupo
    bs' ← con_bit_limpio bits bs (nro - nro_grupo * v.sb.s_inodes_per_group)
    v' ← escribir_inode_bitmap v nro_grupo bs'
    contar_inodos incremento v' nro_grupo

  -- `Grupos_utilizarInodoEnBitmap`.
  unfoldable pub utilizar_inodo_en_bitmap : Volumen → ℕ → Option Volumen
  unfolding contar_inodos
  utilizar_inodo_en_bitmap v nro_inodo = do
    let nro = decremento 32 nro_inodo
    nro_grupo ← div? nro v.sb.s_inodes_per_group
    bs ← leer_inode_bitmap v nro_grupo
    bs' ← con_bit_puesto bits bs (nro - nro_grupo * v.sb.s_inodes_per_group)
    v' ← escribir_inode_bitmap v nro_grupo bs'
    contar_inodos decremento v' nro_grupo

  -- `Grupos_buscarBloqueLibrePorGrupo`.
  unfoldable pub buscar_bloque_libre_por_grupo : Volumen → ℕ → Option ℕ
  buscar_bloque_libre_por_grupo v nro_grupo = do
    bs ← leer_block_bitmap v nro_grupo
    buscar_posicion_libre bits bs

  -- The loop of `Grupos_buscarBloqueLibre`, on the number of groups from `nro_grupo` on.
  bloques_loop : ℕ → ℕ → Volumen → Option ℕ
  unfolding buscar_bloque_libre_por_grupo
  bloques_loop zero nro_grupo v = some menos_uno
  bloques_loop (suc n) nro_grupo v = do
    d ← get_elem? v.bgdt nro_grupo
    let rest = bloques_loop n (nro_grupo + 1) v
    let here = (do
      bloque ← buscar_bloque_libre_por_grupo v nro_grupo
      some ((nro_grupo * v.sb.s_blocks_per_group + bloque + v.sb.s_first_data_block) % 2 ^ 32))
    if d.bg_free_blocks_count == 0 then rest else here

  -- `Grupos_buscarBloqueLibre`.
  unfoldable pub buscar_bloque_libre : Volumen → Option ℕ
  unfolding bloques_loop
  buscar_bloque_libre v = do cant ← cant_grupos v.sb; bloques_loop cant 0 v

  -- `Grupos_pedirBloqueLibre`: what the search answers is marked, also where that is -1.
  unfoldable pub pedir_bloque_libre : Volumen → Option (ℕ × Volumen)
  pedir_bloque_libre v = do
    bloque ← buscar_bloque_libre v
    v' ← utilizar_bloque_en_bitmap v bloque
    some (bloque, v')

  -- `Inode_buscarLibrePorGrupo`.
  unfoldable pub buscar_inodo_libre_por_grupo : Volumen → ℕ → Option ℕ
  buscar_inodo_libre_por_grupo v nro_grupo = do
    bs ← leer_inode_bitmap v nro_grupo
    buscar_posicion_libre bits bs

  -- The loop of `Inode_buscarLibre`.
  inodos_loop : ℕ → ℕ → Volumen → Option ℕ
  unfolding buscar_inodo_libre_por_grupo
  inodos_loop zero nro_grupo v = some menos_uno
  inodos_loop (suc n) nro_grupo v = do
    d ← get_elem? v.bgdt nro_grupo
    let rest = inodos_loop n (nro_grupo + 1) v
    let here = (do
      inodo ← buscar_inodo_libre_por_grupo v nro_grupo
      some ((nro_grupo * v.sb.s_inodes_per_group + 1 + inodo) % 2 ^ 32))
    if d.bg_free_inodes_count == 0 then rest else here

  -- `Inode_buscarLibre`.
  unfoldable pub buscar_inodo_libre : Volumen → Option ℕ
  unfolding inodos_loop
  buscar_inodo_libre v = do cant ← cant_grupos v.sb; inodos_loop cant 0 v

  -- `Inode_pedirInodoLibre`.
  unfoldable pub pedir_inodo_libre : Volumen → Option (ℕ × Volumen)
  pedir_inodo_libre v = do
    inodo ← buscar_inodo_libre v
    v' ← utilizar_inodo_en_bitmap v inodo
    some (inodo, v')
