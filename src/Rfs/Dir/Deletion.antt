-- ===== src/Rfs/Dir/Deletion.antt =====
-- `Dir_borrarEntrada` of rfs/Dir.c.
use tpso_yanero_los_grosos.Base.{
  ℕ, zero, suc, ◌+◌, ◌%◌, ◌^◌, List, Option, none, some, ◌>>=◌, ltb, ◌==◌, if◌then◌else◌,
}
use tpso_yanero_los_grosos.Nipc.Bytes.{read_le}
use tpso_yanero_los_grosos.Rfs.Disk.{Volumen, block_size}
use tpso_yanero_los_grosos.Rfs.Inode.{leer_bloque, leer_inodo}
use tpso_yanero_los_grosos.Rfs.Inode.Blocks.{i_size, cant_bloques, error}
use tpso_yanero_los_grosos.Rfs.Dir.{Dir, cabecera, leer_cabecera, lugar_en_bloque}
use tpso_yanero_los_grosos.Rfs.Dir.Creation.{escribir_en_bloque}

-- The walk behind the first entry of a block, in at most `n` rounds: `entrada` stands at `ant`,
-- before the offset. It gives the place of a header and what is written there.
unfoldable pub borrar_loop : ℕ → Volumen → ℕ → ℕ → ℕ → Dir → ℕ → Option (Option (ℕ × Dir))
borrar_loop zero v bloque nro_inodo_borrar ant entrada offset =
    if ltb offset (block_size v.sb) then none else some none
borrar_loop (suc n) v bloque nro_inodo_borrar ant entrada offset =
    let d = leer_cabecera v.disk (lugar_en_bloque v.sb bloque offset) in
    let rest = borrar_loop n v bloque nro_inodo_borrar offset d ((offset + d.d_rec_len) % 2 ^ 32) in
    let unida = record entrada { d_rec_len = (entrada.d_rec_len + d.d_rec_len) % 2 ^ 16 } in
    if ltb offset (block_size v.sb)
    then (if d.d_inode == nro_inodo_borrar then some (some (ant, unida)) else rest)
    else some none

-- A block: its first entry is kept with the inode 0.
unfoldable pub borrar_en_bloque : Volumen → ℕ → ℕ → Option (Option (ℕ × Dir))
unfolding borrar_loop
borrar_en_bloque v bloque nro_inodo_borrar =
    let d = leer_cabecera v.disk (lugar_en_bloque v.sb bloque 0) in
    let rest = borrar_loop (block_size v.sb) v bloque nro_inodo_borrar 0 d d.d_rec_len in
    if d.d_inode == nro_inodo_borrar then some (some (0, record d { d_inode = 0 })) else rest

-- What is found is written.
abbrev pub con_cabecera : Volumen → ℕ → Option (ℕ × Dir) → Option Volumen → Option Volumen
con_cabecera v bloque none rest = rest
con_cabecera v bloque (some (ant, d)) rest = some (escribir_en_bloque v bloque ant (cabecera d))

-- The loop over the blocks, on the number of blocks from `i` on.
unfoldable pub borrar_en_bloques : ℕ → ℕ → ℕ → Volumen → List ℕ → Option Volumen
borrar_en_bloques zero i nro_inodo_borrar v inodo = some v
borrar_en_bloques (suc n) i nro_inodo_borrar v inodo = do
  bloque ← leer_bloque v.disk i inodo (block_size v.sb)
  r ← borrar_en_bloque v bloque nro_inodo_borrar
  con_cabecera v bloque r (borrar_en_bloques n (i + 1) nro_inodo_borrar v inodo)

-- `Dir_borrarEntrada`: -1 where the directory was removed.
unfoldable pub borrar_entrada : Volumen → ℕ → ℕ → Option (ℕ × Volumen)
borrar_entrada v nro_inodo_dir nro_inodo_borrar = do
  inodo ← leer_inodo v nro_inodo_dir
  i_mode ← read_le 0 2 inodo
  tam ← i_size inodo
  let borrar = (do
    v' ← borrar_en_bloques (cant_bloques v tam) 0 nro_inodo_borrar v inodo
    some (0, v'))
  if i_mode == 0 then some (error, v) else borrar
