-- ===== src/Rfs/Inode/Blocks.antt =====
-- rfs/Inode.c: the fields of an inode that change with its size, and the blocks of pointers.

use tpso_yanero_los_grosos.Base.{
  ℕ, ◌+◌, ◌-◌, ◌*◌, ◌/◌, ◌%◌, ◌^◌, List, ◌++◌, Option, ltb, if◌then◌else◌, take, drop, replicate,
}
use tpso_yanero_los_grosos.Nipc.Bytes.{le_bytes, read_le}
use tpso_yanero_los_grosos.Rfs.Disk.{Volumen, escribir, block_size, comienzo_bloque}
use tpso_yanero_los_grosos.Rfs.Inode.{buscar_bloque}

-- A field of four bytes; `i_size` stands at the byte 4.
abbrev pub con_campo32 : ℕ → ℕ → List ℕ → List ℕ
con_campo32 off x inodo = take off inodo ++ (le_bytes 4 x ++ drop (off + 4) inodo)

abbrev pub i_size : List ℕ → Option ℕ
i_size inodo = read_le 4 4 inodo

abbrev pub con_i_size : ℕ → List ℕ → List ℕ
con_i_size x inodo = con_campo32 4 x inodo

abbrev pub con_i_block : ℕ → ℕ → List ℕ → List ℕ
con_i_block k x inodo = con_campo32 (40 + 4 * k) x inodo

-- `escribirPtroBloq`.
abbrev pub escribir_ptro : Volumen → ℕ → ℕ → ℕ → Volumen
escribir_ptro v bloque pos bloq_abs = record v {
  disk = escribir (le_bytes 4 bloq_abs) ((bloque * block_size v.sb + pos * 4) % 2 ^ 32) v.disk;
}

-- `escribirCero`.
abbrev pub escribir_cero : Volumen → ℕ → ℕ → Volumen
escribir_cero v bloque pos = escribir_ptro v bloque pos 0

-- `inicializarBloqdePtros`.
abbrev pub inicializar_bloq_de_ptros : Volumen → ℕ → Volumen
inicializar_bloq_de_ptros v bloque = record v {
  disk = escribir (replicate (block_size v.sb) 0) (comienzo_bloque v.sb bloque) v.disk;
}

-- `esCero`, which reads what `buscarBloque` reads.
abbrev pub es_cero : Volumen → ℕ → ℕ → ℕ
es_cero v bloque pos = buscar_bloque v.disk bloque pos (block_size v.sb)

-- The number of blocks of a file of `n` bytes.
abbrev pub cant_bloques : Volumen → ℕ → ℕ
cant_bloques v n =
    if ltb 0 (n % block_size v.sb) then n / block_size v.sb + 1 else n / block_size v.sb

-- -1 as an `int8_t`.
abbrev pub error : ℕ
error = 2 ^ 8 - 1
