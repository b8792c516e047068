-- ===== src/Rfs/Files/Termination.antt =====
-- The loop of `Dir_escribirArchivo` ends: each round takes a block from the bytes that are left.
use tpso_yanero_los_grosos.Base.{
  ℕ, zero, suc, ◌+◌, ◌-◌, ◌/◌, ◌%◌, ◌^◌, ◌<◌, ◌≡◌, refl, List, some, inl, inr, arith, Bool-cases,
  ltb, length, take, drop,
}
use tpso_yanero_los_grosos.Rfs.Disk.{Volumen, block_size, block_size_pos}
use tpso_yanero_los_grosos.Rfs.Inode.Total.{leer_bloque-total}
use tpso_yanero_los_grosos.Rfs.Files.{Cache, escribir_y_subir, escribir_loop, escribir_bytes}

module _ {C : Type 0} (cache : Cache C) where
  escribir_loop-total :
      (n k : ℕ) (c : C) (v : Volumen) (inodo : List ℕ) (size : ℕ) (buf : List ℕ) (cant : ℕ)
      → length inodo ≡ 128
      → size < n
      → (c' : C) × (v' : Volumen) × (escribir_loop cache n k c v inodo size buf cant
          ≡ some ((cant + size) % 2 ^ 32, c', v'))
  unfolding escribir_loop
  escribir_loop-total zero k c v inodo size buf cant whole lt = absurd (omega (arith, lt))
  escribir_loop-total (suc n) k c v inodo size buf cant whole lt =
      let (bloque, e) = leer_bloque-total v.disk inodo (block_size v.sb) whole (k + 1) in
      let w = escribir_y_subir cache c v bloque 0 (take (block_size v.sb) buf) in
      let pos : 0 < block_size v.sb = block_size_pos v.sb in
      elim (Bool-cases (ltb (block_size v.sb) size)) [
        | inl t ↦
            let more : block_size v.sb < size = ground (arith, t) in
            let (c', v', r) =
              escribir_loop-total n (k + 1) w.0 w.1 inodo (size - block_size v.sb)
                (drop (block_size v.sb) buf) ((cant + block_size v.sb) % 2 ^ 32) whole
                (omega (arith, lt, more, pos)) in
            let count : ((cant + block_size v.sb) % 2 ^ 32 + (size - block_size v.sb)) % 2 ^ 32
                ≡ (cant + size) % 2 ^ 32 =
              omega (arith, more) in
            (c', v', rw (e, t, r) (rw count refl))
        | inr f ↦ rw (e, f) (_, _, refl)
      ]

  -- Whatever the offset and the number of bytes, and however many blocks they take, the writing of
  -- Dir_escribirArchivo into a file that is large enough, with an inode of 128 bytes, ends and
  -- answers in its count of 32 bits, added up block by block, the number of all the bytes.
  pub escribir_bytes-returns :
      (c : C) (v : Volumen) (inodo : List ℕ) (offset size : ℕ) (buf : List ℕ)
      → length inodo ≡ 128
      → (c' : C) × (v' : Volumen) × (escribir_bytes cache c v inodo offset size buf
          ≡ some (size % 2 ^ 32, c', v', inodo))
  unfolding escribir_bytes
  escribir_bytes-returns c v inodo offset size buf whole =
      let bs = block_size v.sb in
      let primeros = bs - offset % bs in
      let (bloque, e) = leer_bloque-total v.disk inodo bs whole (offset / bs) in
      let w = escribir_y_subir cache c v bloque (offset % bs) (take primeros buf) in
      let (c', v', r) =
        escribir_loop-total (size + 1) (offset / bs) w.0 w.1 inodo (size - primeros)
          (drop primeros buf) (primeros % 2 ^ 32) whole (omega arith) in
      elim (Bool-cases (ltb size primeros)) [
        | inl t ↦ rw (e, t) (_, _, refl)
        | inr f ↦
            let count : (primeros % 2 ^ 32 + (size - primeros)) % 2 ^ 32 ≡ size % 2 ^ 32 =
              ground (arith, f) in
            (c', v', rw (e, f, r) (rw count refl))
      ]
