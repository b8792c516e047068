-- ===== src/Rfs/Inode.antt =====
-- rfs/Inode.c: the inodes in their tables, and the block of the disk that a block of a file is. An
-- inode is the 128 bytes of `Inode`, which has no padding.
pub mod Route
pub mod Table
pub mod Total
pub mod Blocks
pub mod Release
pub mod Assignment
pub mod Growth
pub mod Grants
use tpso_yanero_los_grosos.Base.{
  ℕ, ◌+◌, ◌-◌, ◌*◌, ◌/◌, ◌%◌, ◌^◌, List, ◌++◌, Option, none, some, ◌>>=◌, ltb, ◌==◌, if◌then◌else◌,
  length, get_elem?, take, drop,
}
use tpso_yanero_los_grosos.Nipc.Bytes.{le_bytes, of_le, read_le}
use tpso_yanero_los_grosos.Rfs.Disk.{
  Superblock, GroupDescriptor, Volumen, leer, escribir, decremento, div?, comienzo_bloque,
  block_size,
}
use tpso_yanero_los_grosos.Rfs.Bitmap.{Bitarray}
use tpso_yanero_los_grosos.Rfs.Groups.{menos_uno, pedir_inodo_libre}

-- `i_block[k]`, at the byte 40 of the inode.
abbrev pub i_block : List ℕ → ℕ → Option ℕ
i_block inodo k = if ltb k 15 then read_le (40 + 4 * k) 4 inodo else none

-- `buscarBloque`: the pointer at the place `pos` of a block of pointers.
abbrev pub buscar_bloque : (ℕ → ℕ) → ℕ → ℕ → ℕ → ℕ
buscar_bloque disk bloque pos tam_bloque =
    of_le (leer 4 ((bloque * tam_bloque + pos * 4) % 2 ^ 32) disk)

-- `Inode_leerBloque`, level by level.
leer_triple : (ℕ → ℕ) → ℕ → List ℕ → ℕ → Option ℕ
leer_triple disk nro inodo tam_bloque =
    let c = tam_bloque / 4 in
    if ltb nro ((c * c * c) % 2 ^ 32)
    then (do
      bloque ← i_block inodo 14
      let bloque₁ = buscar_bloque disk bloque ((nro / c) / c) tam_bloque
      let bloque₂ = buscar_bloque disk bloque₁ ((nro / c) % c) tam_bloque
      some (buscar_bloque disk bloque₂ (nro % c) tam_bloque))
    else some 0

leer_doble : (ℕ → ℕ) → ℕ → List ℕ → ℕ → Option ℕ
unfolding leer_triple
leer_doble disk nro inodo tam_bloque =
    let c = tam_bloque / 4 in
    if ltb nro ((c * c) % 2 ^ 32)
    then (do
      bloque ← i_block inodo 13
      some (
          buscar_bloque disk (buscar_bloque disk bloque (nro / c) tam_bloque) (nro % c) tam_bloque))
    else leer_triple disk (nro - (c * c) % 2 ^ 32) inodo tam_bloque

leer_simple : (ℕ → ℕ) → ℕ → List ℕ → ℕ → Option ℕ
unfolding leer_doble
leer_simple disk nro inodo tam_bloque =
    let c = tam_bloque / 4 in
    if ltb nro c
    then (do bloque ← i_block inodo 12; some (buscar_bloque disk bloque nro tam_bloque))
    else leer_doble disk (nro - c) inodo tam_bloque

unfoldable pub leer_bloque : (ℕ → ℕ) → ℕ → List ℕ → ℕ → Option ℕ
unfolding leer_simple
leer_bloque disk nro inodo tam_bloque =
    if ltb nro 12 then i_block inodo nro else leer_simple disk (nro - 12) inodo tam_bloque

-- Where an inode stands: `uint32_t` arithmetic, on numbers from 1.
unfoldable pub lugar_inodo : Volumen → ℕ → Option ℕ
lugar_inodo v nro_inodo = do
  grupo ← div? (decremento 32 nro_inodo) v.sb.s_inodes_per_group
  d ← get_elem? v.bgdt grupo
  some (
      (comienzo_bloque v.sb d.bg_inode_table
        + ((decremento 32 nro_inodo % v.sb.s_inodes_per_group) * 128) % 2 ^ 32)
      % 2 ^ 32)

-- `Inode_leerInodo`.
unfoldable pub leer_inodo : Volumen → ℕ → Option (List ℕ)
leer_inodo v nro_inodo = do lugar ← lugar_inodo v nro_inodo; some (leer 128 lugar v.disk)

-- `Inode_escribirInodo`.
unfoldable pub escribir_inodo : Volumen → ℕ → List ℕ → Option Volumen
escribir_inodo v nro_inodo inodo = do
  lugar ← lugar_inodo v nro_inodo
  some (record v { disk = escribir inodo lugar v.disk })

-- A field of two bytes at `off`.
abbrev pub con_campo : ℕ → ℕ → List ℕ → List ℕ
con_campo off x inodo = take off inodo ++ (le_bytes 2 x ++ drop (off + 2) inodo)

-- `Inode_asignarInodo`: `i_mode` stands at the byte 0 and `i_links_count` at 26.
unfoldable pub asignar_inodo : Bitarray → Volumen → ℕ → ℕ → Option (ℕ × Volumen)
asignar_inodo bits v mode links = do
  (nro_inodo, v₁) ← pedir_inodo_libre bits v
  let guardar = (do
    inodo ← leer_inodo v₁ nro_inodo
    v₂ ← escribir_inodo v₁ nro_inodo (con_campo 0 mode (con_campo 26 links inodo))
    some (nro_inodo, v₂))
  if nro_inodo == menos_uno then some (menos_uno, v₁) else guardar
