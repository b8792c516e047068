-- ===== src/Rfs/Files/Writing.antt =====
-- `Dir_escribirArchivo` where the bytes lie in one block of the file and the file does not grow.
use tpso_yanero_los_grosos.Base.{
  ℕ, ◌+◌, ◌-◌, ◌/◌, ◌%◌, ◌^◌, ◌<◌, ◌≤◌, ◌≡◌, ap, sym, ◌∙◌, subst, ◌⊎◌, true, false, List, some,
  arith, ltb, length, take-length,
}
use tpso_yanero_los_grosos.Rfs.Disk.{
  Volumen, leer, leer-escribir, leer-escribir_ne, block_size, comienzo_bloque,
}
use tpso_yanero_los_grosos.Rfs.Bitmap.{Bitarray}
use tpso_yanero_los_grosos.Rfs.Inode.{leer_bloque}
use tpso_yanero_los_grosos.Rfs.Inode.Blocks.{i_size}
use tpso_yanero_los_grosos.Rfs.Dir.{lugar_en_bloque}
use tpso_yanero_los_grosos.Rfs.Dir.Layout.{lugar_en_bloque_lem}
use tpso_yanero_los_grosos.Rfs.Files.{Cache, escribir_y_subir, escribir_bytes, escribir_archivo}

module _ {C : Type 0} (cache : Cache C) where
  escribir_short :
      (c : C) (v : Volumen) (inodo : List ℕ) (offset bloque : ℕ) (buf : List ℕ)
      → leer_bloque v.disk (offset / block_size v.sb) inodo (block_size v.sb) ≡ some bloque
      → length buf < block_size v.sb - offset % block_size v.sb
      → length buf < 2 ^ 32
      → escribir_bytes cache c v inodo offset (length buf) buf
        ≡ some (
          length buf,
          (escribir_y_subir cache c v bloque (offset % block_size v.sb) buf).0,
          (escribir_y_subir cache c v bloque (offset % block_size v.sb) buf).1,
          inodo,
        )
  unfolding escribir_bytes
  escribir_short c v inodo offset bloque buf e lt small =
      let test : ltb (length buf) (block_size v.sb - offset % block_size v.sb) ≡ true =
        ground (arith, lt) in
      let count : length buf % 2 ^ 32 ≡ length buf = omega (arith, small) in
      rw (e, test, count, take-length buf)

  escribir_inside :
      (bits : Bitarray) (c : C) (v : Volumen) (inodo : List ℕ) (offset tam : ℕ) (buf : List ℕ)
      → i_size inodo ≡ some tam
      → offset + length buf ≤ tam
      → tam < 2 ^ 32
      → escribir_archivo cache bits c v inodo offset (length buf) buf
        ≡ escribir_bytes cache c v inodo offset (length buf) buf
  unfolding escribir_archivo
  escribir_inside bits c v inodo offset tam buf e le small =
      let same : (offset + length buf) % 2 ^ 32 ≡ offset + length buf = omega (arith, le, small) in
      let test : ltb tam (offset + length buf) ≡ false = ground (arith, le) in rw (e, same, test)

  -- Where the file has the bytes, they end before their block does and the block ends below 2^32,
  -- Dir_escribirArchivo answers their number and leaves the inode: the bytes stand on the disk at
  -- their place in the block, and every byte elsewhere is as before. What the cache has then under
  -- the number of the block are the bytes of the disk from the place of the writing on, as many as a
  -- block has.
  pub escribir_archivo-inside :
      (bits : Bitarray) (c : C) (v : Volumen) (inodo : List ℕ) (offset tam bloque : ℕ)
      (buf : List ℕ)
      → i_size inodo ≡ some tam
      → offset + length buf ≤ tam
      → tam < 2 ^ 32
      → leer_bloque v.disk (offset / block_size v.sb) inodo (block_size v.sb) ≡ some bloque
      → length buf < block_size v.sb - offset % block_size v.sb
      → comienzo_bloque v.sb bloque + block_size v.sb < 2 ^ 32
      → (c' : C) × (v' : Volumen) × (escribir_archivo cache bits c v inodo offset (length buf) buf
          ≡ some (length buf, c', v', inodo))
        × (leer (length buf) (comienzo_bloque v.sb bloque + offset % block_size v.sb) v'.disk ≡ buf)
        × ((n a : ℕ)
            → (a + n ≤ comienzo_bloque v.sb bloque + offset % block_size v.sb)
              ⊎ (comienzo_bloque v.sb bloque + offset % block_size v.sb + length buf ≤ a)
            → leer n a v'.disk ≡ leer n a v.disk)
        × ((datos : List ℕ)
            → cache.bajar c' bloque ≡ some datos
            → datos
              ≡ leer
                  (block_size v.sb)
                  (comienzo_bloque v.sb bloque + offset % block_size v.sb)
                  v'.disk)
  escribir_archivo-inside bits c v inodo offset tam bloque buf e le small found lt fits =
      let off = offset % block_size v.sb in
      let w = escribir_y_subir cache c v bloque off buf in
      let place : lugar_en_bloque v.sb bloque off ≡ comienzo_bloque v.sb bloque + off =
        lugar_en_bloque_lem v.sb bloque off (omega (arith, lt)) fits in
      (
        w.0,
        w.1,
        escribir_inside bits c v inodo offset tam buf e le small
            ∙ escribir_short c v inodo offset bloque buf found lt (omega (arith, le, small)),
        subst (λ x. leer (length buf) x w.1.disk ≡ buf) place
            (leer-escribir buf (lugar_en_bloque v.sb bloque off) v.disk),
        λ n a out.
            leer-escribir_ne n a (lugar_en_bloque v.sb bloque off) buf v.disk
              (subst (λ x. (a + n ≤ x) ⊎ (x + length buf ≤ a)) (sym place) out),
        λ datos had.
            cache.bajar-subir c bloque
              (leer (block_size v.sb) (lugar_en_bloque v.sb bloque off) w.1.disk) datos had
            ∙ ap (λ x. leer (block_size v.sb) x w.1.disk) place,
      )
