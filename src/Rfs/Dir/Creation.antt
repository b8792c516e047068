-- ===== src/Rfs/Dir/Creation.antt =====
-- `Dir_crearNuevaEntrada` of rfs/Dir.c.
use tpso_yanero_los_grosos.Base.{
  ℕ, zero, suc, ◌+◌, ◌*◌, ◌/◌, ◌%◌, ◌^◌, List, Option, none, some, ◌>>=◌, ltb, leb, ◌==◌,
  if◌then◌else◌, length,
}
use tpso_yanero_los_grosos.Nipc.Bytes.{read_le}
use tpso_yanero_los_grosos.Rfs.Disk.{Volumen, escribir, resta, block_size}
use tpso_yanero_los_grosos.Rfs.Bitmap.{Bitarray}
use tpso_yanero_los_grosos.Rfs.Inode.{leer_bloque, leer_inodo, escribir_inodo}
use tpso_yanero_los_grosos.Rfs.Inode.Blocks.{i_size, cant_bloques, error}
use tpso_yanero_los_grosos.Rfs.Inode.Assignment.{truncar_arriba}
use tpso_yanero_los_grosos.Rfs.Dir.{Dir, cabecera, serializar_dir, leer_cabecera, lugar_en_bloque}

-- The bytes of an entry whose name has `n`, in a multiple of 4.
abbrev pub tam_entrada : ℕ → ℕ
tam_entrada n = if (8 + n) % 4 == 0 then 8 + n else ((8 + n) / 4 + 1) * 4

-- The new entry, without its length.
abbrev pub nueva_entrada : List ℕ → ℕ → Dir
nueva_entrada nombre nro_inodo = record {
  d_inode = nro_inodo;
  d_rec_len = 0;
  d_name_len = length nombre % 2 ^ 8;
  d_filetype = 0;
  d_name = nombre;
}

-- The search for an entry of a block with place behind it, in at most `n` rounds.
unfoldable pub lugar_loop : ℕ → ℕ → Volumen → ℕ → ℕ → Option (Option (ℕ × Dir))
lugar_loop zero tam_nueva v bloque offset = if ltb offset (block_size v.sb) then none else some none
lugar_loop (suc n) tam_nueva v bloque offset =
    let d = leer_cabecera v.disk (lugar_en_bloque v.sb bloque offset) in
    let rest = lugar_loop n tam_nueva v bloque ((offset + d.d_rec_len) % 2 ^ 32) in
    if ltb offset (block_size v.sb)
    then (if leb tam_nueva (resta 32 d.d_rec_len (tam_entrada d.d_name_len))
        then some (some (offset, d))
        else rest)
    else some none

abbrev pub o_si_no :
    Option (ℕ × ℕ × Dir) → Option (Option (ℕ × ℕ × Dir)) → Option (Option (ℕ × ℕ × Dir))
o_si_no none rest = rest
o_si_no (some r) rest = some (some r)

abbrev pub en_el_bloque : ℕ → Option (ℕ × Dir) → Option (ℕ × ℕ × Dir)
en_el_bloque bloque none = none
en_el_bloque bloque (some (offset, d)) = some (bloque, offset, d)

-- The search over the blocks, on the number of blocks from `i` on.
unfoldable pub buscar_lugar : ℕ → ℕ → ℕ → Volumen → List ℕ → Option (Option (ℕ × ℕ × Dir))
unfolding lugar_loop
buscar_lugar zero i tam_nueva v inodo = some none
buscar_lugar (suc n) i tam_nueva v inodo = do
  bloque ← leer_bloque v.disk i inodo (block_size v.sb)
  r ← lugar_loop (block_size v.sb) tam_nueva v bloque 0
  o_si_no (en_el_bloque bloque r) (buscar_lugar n (i + 1) tam_nueva v inodo)

-- A write in a block.
abbrev pub escribir_en_bloque : Volumen → ℕ → ℕ → List ℕ → Volumen
escribir_en_bloque v bloque offset bs = record v {
  disk = escribir bs (lugar_en_bloque v.sb bloque offset) v.disk;
}

-- The entry `d` at `offset` gives the place behind it to the new one.
abbrev pub partir_entrada : Volumen → ℕ → ℕ → Dir → Dir → Volumen
partir_entrada v bloque offset d nueva =
    let tam = tam_entrada d.d_name_len in
    let v₁ = escribir_en_bloque v bloque offset (cabecera (record d { d_rec_len = tam })) in
    escribir_en_bloque v₁ bloque ((offset + tam) % 2 ^ 32)
      (serializar_dir (record nueva { d_rec_len = resta 16 d.d_rec_len tam }))

module _ (bits : Bitarray) where
  -- Without a place, the directory grows by a block, which the new entry takes.
  unfoldable pub agrandar_dir : Volumen → ℕ → List ℕ → Dir → Option (ℕ × Volumen)
  agrandar_dir v nro_inodo_dir inodo nueva = do
    tam ← i_size inodo
    (r, v₁, inodo₁) ← truncar_arriba bits ((tam + block_size v.sb) % 2 ^ 32) v inodo
    v₂ ← escribir_inodo v₁ nro_inodo_dir inodo₁
    bloque ← leer_bloque v₂.disk (cant_bloques v tam) inodo₁ (block_size v.sb)
    let entrada = record nueva { d_rec_len = block_size v.sb % 2 ^ 16 }
    some (0, escribir_en_bloque v₂ bloque 0 (serializar_dir entrada))

  abbrev pub con_lugar : Option (ℕ × ℕ × Dir) → Volumen → ℕ → List ℕ → Dir → Option (ℕ × Volumen)
  con_lugar none v nro_inodo_dir inodo nueva = agrandar_dir v nro_inodo_dir inodo nueva
  con_lugar (some (bloque, offset, d)) v nro_inodo_dir inodo nueva =
      some (0, partir_entrada v bloque offset d nueva)

  -- `Dir_crearNuevaEntrada`: -1 where the directory was removed.
  unfoldable pub crear_nueva_entrada : Volumen → List ℕ → ℕ → ℕ → Option (ℕ × Volumen)
  crear_nueva_entrada v nombre nro_inodo_dir nro_inodo_creado = do
    let nueva = nueva_entrada nombre nro_inodo_creado
    inodo ← leer_inodo v nro_inodo_dir
    i_mode ← read_le 0 2 inodo
    tam ← i_size inodo
    let crear = (do
      r ← buscar_lugar (cant_bloques v tam) 0 (tam_entrada nueva.d_name_len) v inodo
      con_lugar r v nro_inodo_dir inodo nueva)
    if i_mode == 0 then some (error, v) else crear
