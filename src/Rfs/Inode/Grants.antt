-- ===== src/Rfs/Inode/Grants.antt =====
-- `Inode_asignarBloque` where one free block is enough: it gives the block, or there is none left.
use tpso_yanero_los_grosos.Base.{
  ℕ, ◌-◌, ◌/◌, ◌<◌, ◌≤◌, ◌≡◌, ap, ◌∙◌, ◌⊎◌, true, false, List, some, inl, inr, arith, Bool-cases,
  ltb, ◌==◌, length,
}
use tpso_yanero_los_grosos.Rfs.Disk.{Volumen, block_size}
use tpso_yanero_los_grosos.Rfs.Bitmap.{Bitarray}
use tpso_yanero_los_grosos.Rfs.Groups.{pedir_bloque_libre}
use tpso_yanero_los_grosos.Rfs.Groups.Allocation.{HasFreeBlock, pedir_bloque_libre_lem}
use tpso_yanero_los_grosos.Rfs.Inode.{i_block, leer_bloque}
use tpso_yanero_los_grosos.Rfs.Inode.Blocks.{con_i_block, escribir_ptro, error}
use tpso_yanero_los_grosos.Rfs.Inode.Assignment.{
  asignar_directo, dato, asignar_simple, asignar_bloque,
}
use tpso_yanero_los_grosos.Rfs.Inode.Growth.{leer_direct, i_block-con_i_block, pointed, same_place}
use tpso_yanero_los_grosos.Rfs.Groups.Sizes.{pedir_bloque_libre-SameSize, pedir_bloque_libre-small}

-- The block is one of the first 12, or in the block of pointers that the file has already.
abbrev pub TakesOne : ℕ → Volumen → List ℕ → Type 0
TakesOne n v inodo =
    (n < 12)
    ⊎ ((12 ≤ n)
        × (n - 12 < block_size v.sb / 4)
        × (raiz : ℕ) × (i_block inodo 12 ≡ some raiz)
        × ((raiz == 0) ≡ false))

module _ (bits : Bitarray) (n : ℕ) (v : Volumen) (inodo : List ℕ) where
  directo_at : n < 12 → asignar_bloque bits n v inodo ≡ asignar_directo bits n v inodo
  unfolding asignar_bloque
  directo_at lt = let test : ltb n 12 ≡ true = ground (arith, lt) in rw test

  dato_at :
      (raiz : ℕ)
      → 12 ≤ n
      → n - 12 < block_size v.sb / 4
      → i_block inodo 12 ≡ some raiz
      → (raiz == 0) ≡ false
      → asignar_bloque bits n v inodo ≡ dato bits raiz (n - 12) v inodo
  unfolding asignar_bloque asignar_simple
  dato_at raiz le lt e f =
      let test : ltb n 12 ≡ false = ground (arith, le) in
      let test' : ltb (n - 12) (block_size v.sb / 4) ≡ true = ground (arith, lt) in
      rw (test, test', e, f)

  given :
      (bloque : ℕ) (w : Volumen)
      → length inodo ≡ 128
      → TakesOne n v inodo
      → ltb v.sb.s_free_blocks_count 1 ≡ false
      → pedir_bloque_libre bits v ≡ some (bloque, w)
      → (v' : Volumen) × (inodo' : List ℕ) × (asignar_bloque bits n v inodo ≡ some (0, v', inodo'))
        × (leer_bloque v'.disk n inodo' (block_size v'.sb) ≡ some bloque)
  unfolding asignar_directo dato
  given bloque w whole takes enough e =
      let small = pedir_bloque_libre-small bits v w bloque e in
      let size = pedir_bloque_libre-SameSize bits v w bloque e in
      elim takes [
        | inl lt ↦ (
          w,
          con_i_block n bloque inodo,
          directo_at lt ∙ rw (enough, e),
          leer_direct w.disk n (block_size w.sb) (con_i_block n bloque inodo) (ground (arith, lt))
              ∙ i_block-con_i_block inodo n bloque whole (omega (arith, lt))
              ∙ ap some (omega (arith, small)),
        )
        | inr (le, lt, raiz, there, f) ↦ (
          escribir_ptro w raiz (n - 12) bloque,
          inodo,
          dato_at raiz le lt there f ∙ rw (enough, e),
          pointed n raiz bloque w inodo le (same_place v w (n - 12) size lt) small there,
        )
      ]

  refused :
      TakesOne n v inodo
      → ltb v.sb.s_free_blocks_count 1 ≡ true
      → asignar_bloque bits n v inodo ≡ some (error, v, inodo)
  unfolding asignar_directo dato
  refused takes few = elim takes [
    | inl lt ↦ directo_at lt ∙ rw few
    | inr (le, lt, raiz, there, f) ↦ dato_at raiz le lt there f ∙ rw few
  ]

  -- A block of the first 12 of a file, or of the block of pointers that it has already, with an inode
  -- of 128 bytes, on a disk where the first group that counts a free block has one: where the
  -- superblock counts no free block, Inode_asignarBloque answers -1 and changes neither the volume nor
  -- the inode; otherwise it answers 0, and Inode_leerBloque then finds there the block that
  -- Grupos_pedirBloqueLibre gives on the volume as it was.
  pub leer_bloque-asignar_bloque :
      length inodo ≡ 128
      → TakesOne n v inodo
      → HasFreeBlock bits v
      → ((v.sb.s_free_blocks_count ≡ 0) × (asignar_bloque bits n v inodo ≡ some (error, v, inodo)))
        ⊎ ((v' : Volumen) × (inodo' : List ℕ) × (bloque : ℕ) × (w : Volumen) × (asignar_bloque bits
                n v inodo
              ≡ some (0, v', inodo'))
            × (pedir_bloque_libre bits v ≡ some (bloque, w))
            × (leer_bloque v'.disk n inodo' (block_size v'.sb) ≡ some bloque))
  leer_bloque-asignar_bloque whole takes free =
      let (bloque, w, e, _) = pedir_bloque_libre_lem bits v free in
      elim (Bool-cases (ltb v.sb.s_free_blocks_count 1)) [
        | inl few ↦ inl (ground (arith, few), refused takes few)
        | inr enough ↦
            let (v', inodo', e', found) = given bloque w whole takes enough e in
            inr (v', inodo', bloque, w, e', e, found)
      ]
