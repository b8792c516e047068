-- ===== src/Rfs/Tests.antt =====
-- A bit array on bytes, a small disk, and the theorems on the server applied to them.
mod Bits
mod Monitor
mod Directory
mod Contents
use tpso_yanero_los_grosos.Base.{
  ℕ, zero, suc, ◌+◌, ◌*◌, ◌<◌, ◌≤◌, ◌≡◌, ◌≢◌, refl, Bool, true, false, List, [], ◌∷◌, Option, none,
  some, arith, length, get_elem?, replicate, ◌>>=◌, ◌==◌, if◌then◌else◌,
}
use tpso_yanero_los_grosos.Rfs.Disk.{Superblock, GroupDescriptor, Volumen}
use tpso_yanero_los_grosos.Rfs.Bitmap.{
  Bitarray, buscar_posicion_libre, buscar_posicion_libre_lem, IsFirstFree,
}
use tpso_yanero_los_grosos.Rfs.Groups.{
  pedir_bloque_libre, liberar_bloque_en_bitmap, leer_block_bitmap,
}
use tpso_yanero_los_grosos.Rfs.Groups.Allocation.{
  HasFreeBlock, HasCounts, Gives, pedir_bloque_libre_lem,
}
use tpso_yanero_los_grosos.Rfs.Groups.Release.{liberar-pedir}
use tpso_yanero_los_grosos.Rfs.Groups.Full.{IsFull, pedir_bloque_libre-full}
use tpso_yanero_los_grosos.Rfs.Inode.{i_block, leer_bloque, leer_inodo, escribir_inodo}
use tpso_yanero_los_grosos.Rfs.Inode.Route.{IsRoute, follow, leer_bloque_lem}
use tpso_yanero_los_grosos.Rfs.Inode.Table.{InGroup, leer_inodo-escribir_inodo}
use tpso_yanero_los_grosos.Rfs.Tests.Bits.{en_bytes}

-- 16 blocks in one group, whose bitmap stands in the block 3; the first byte has bits 0 and 1.
abbrev pub volumen : Volumen
volumen = record {
  disk = λ a. if a == 3072 then 3 else 0;
  sb = record {
    s_blocks_count = 16;
    s_free_blocks_count = 14;
    s_free_inodes_count = 8;
    s_first_data_block = 1;
    s_log_block_size = 0;
    s_blocks_per_group = 16;
    s_inodes_per_group = 16;
  };
  bgdt =
      record {
        bg_block_bitmap = 3;
        bg_inode_bitmap = 4;
        bg_inode_table = 5;
        bg_free_blocks_count = 14;
        bg_free_inodes_count = 8;
        bg_used_dirs_count = 1;
      }
      ∷ [];
}

abbrev pub mapa : List ℕ
mapa = 3 ∷ 0 ∷ 0 ∷ []

pub leer_mapa : leer_block_bitmap volumen 0 ≡ some mapa
unfolding leer_block_bitmap
leer_mapa = refl

abbrev pub con_libres : HasFreeBlock en_bytes volumen
con_libres = record {
  cant = 1;
  groups = refl;
  g = 0;
  in_table = omega arith;
  d = record {
    bg_block_bitmap = 3;
    bg_inode_bitmap = 4;
    bg_inode_table = 5;
    bg_free_blocks_count = 14;
    bg_free_inodes_count = 8;
    bg_used_dirs_count = 1;
  };
  there = refl;
  counted = omega arith;
  before = λ j e lt. absurd (omega arith);
  bs = mapa;
  bitmap = leer_mapa;
  k = 2;
  inside = omega arith;
  clear = refl;
  in_group = omega arith;
  small = omega arith;
}

buscar_mapa :
    (buscar_posicion_libre en_bytes mapa ≡ some 2)
    × (buscar_posicion_libre en_bytes (255 ∷ []) ≡ none)
unfolding buscar_posicion_libre
buscar_mapa = (refl, refl)

buscar_posicion_libre_lem_example :
    ((k : ℕ) → buscar_posicion_libre en_bytes mapa ≡ some k → IsFirstFree en_bytes mapa k)
    × (buscar_posicion_libre en_bytes mapa ≡ none
        → (j : ℕ) → j < 24
        → en_bytes.test_bit mapa j ≡ true)
buscar_posicion_libre_lem_example = buscar_posicion_libre_lem en_bytes mapa

pedir_bloque_libre_lem_example :
    (bloque : ℕ) × (v' : Volumen) × (pedir_bloque_libre en_bytes volumen ≡ some (bloque, v'))
    × Gives en_bytes volumen con_libres bloque v'
pedir_bloque_libre_lem_example = pedir_bloque_libre_lem en_bytes volumen con_libres

liberar-pedir_example :
    (v' : Volumen) × (bs' : List ℕ) × ((do
      (bloque, w) ← pedir_bloque_libre en_bytes volumen
      liberar_bloque_en_bitmap en_bytes w bloque)
      ≡ some v')
    × (leer_block_bitmap v' 0 ≡ some bs')
    × ((j : ℕ) → j < 24 → en_bytes.test_bit bs' j ≡ en_bytes.test_bit mapa j)
    × HasCounts v' 0 14 14
liberar-pedir_example =
    liberar-pedir en_bytes volumen con_libres (omega arith) (omega arith) (omega arith)

abbrev lleno : Volumen
lleno = record volumen {
  sb = record (volumen.sb) { s_free_blocks_count = 0 };
  bgdt =
      record {
        bg_block_bitmap = 3;
        bg_inode_bitmap = 4;
        bg_inode_table = 5;
        bg_free_blocks_count = 0;
        bg_free_inodes_count = 8;
        bg_used_dirs_count = 1;
      }
      ∷ [];
}

lleno-IsFull : IsFull lleno
lleno-IsFull = record { groups = refl; per_group = omega arith; nothing = only }
  where
    only :
        (j : ℕ) (d : GroupDescriptor) → get_elem? lleno.bgdt j ≡ some d → d.bg_free_blocks_count ≡ 0
    only zero d e = ground arith
    only (suc j) d e = cc

pedir_bloque_libre-full_example : pedir_bloque_libre en_bytes lleno ≡ none
pedir_bloque_libre-full_example = pedir_bloque_libre-full en_bytes lleno lleno-IsFull (omega arith)

abbrev pub inodo : List ℕ
inodo = replicate 128 7

abbrev grupo : GroupDescriptor
grupo = record {
  bg_block_bitmap = 3;
  bg_inode_bitmap = 4;
  bg_inode_table = 5;
  bg_free_blocks_count = 14;
  bg_free_inodes_count = 8;
  bg_used_dirs_count = 1;
}

leer_bloque_lem_example :
    (k : ℕ) × (ps : List ℕ) × IsRoute 256 70000 k ps
    × (leer_bloque volumen.disk 70000 inodo 1024
        ≡ (do bloque ← i_block inodo k; some (follow volumen.disk 1024 bloque ps)))
leer_bloque_lem_example =
    leer_bloque_lem volumen.disk inodo 1024 256 70000 refl (omega arith) (omega arith) (omega arith)
      (omega arith)

dos-InGroup : InGroup volumen 0 grupo 2
dos-InGroup = record {
  there = refl;
  some_inodes = omega arith;
  table = omega arith;
  positive = omega arith;
  small = omega arith;
  group = refl;
}

leer_inodo-escribir_inodo_example :
    (v' : Volumen) × (escribir_inodo volumen 2 inodo ≡ some v')
    × (leer_inodo v' 2 ≡ some inodo)
    × ((m : ℕ) → InGroup volumen 0 grupo m → 2 ≢ m → leer_inodo v' m ≡ leer_inodo volumen m)
leer_inodo-escribir_inodo_example =
    leer_inodo-escribir_inodo volumen 0 grupo 2 inodo dos-InGroup refl
