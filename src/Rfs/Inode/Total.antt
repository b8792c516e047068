-- ===== src/Rfs/Inode/Total.antt =====
-- `Inode_leerBloque` of an inode of 128 bytes gives a number, whatever the block and the disk.
use tpso_yanero_los_grosos.Base.{
  ℕ, ◌+◌, ◌-◌, ◌*◌, ◌/◌, ◌%◌, ◌^◌, ◌<◌, ◌≤◌, ◌≡◌, refl, List, some, true, inl, inr, arith,
  Bool-cases, ltb, leb, length,
}
use tpso_yanero_los_grosos.Nipc.Bytes.{read_le, slice}
use tpso_yanero_los_grosos.Rfs.Inode.{i_block, leer_triple, leer_doble, leer_simple, leer_bloque}

module _ (disk : ℕ → ℕ) (inodo : List ℕ) (tam_bloque : ℕ) (whole : length inodo ≡ 128) where
  read_le-total : (off n : ℕ) → off + n ≤ 128 → (x : ℕ) × (read_le off n inodo ≡ some x)
  unfolding read_le slice
  read_le-total off n le =
      let test : leb (off + n) (length inodo) ≡ true = ground (arith, le, whole) in
      rw test (_, refl)

  i_block-total : (k : ℕ) → k < 15 → (x : ℕ) × (i_block inodo k ≡ some x)
  i_block-total k lt =
      let test : ltb k 15 ≡ true = ground (arith, lt) in
      let (x, e) = read_le-total (40 + 4 * k) 4 (omega (arith, lt)) in (x, rw (test, e))

  leer_triple-total : (nro : ℕ) → (x : ℕ) × (leer_triple disk nro inodo tam_bloque ≡ some x)
  unfolding leer_triple
  leer_triple-total nro =
      let c = tam_bloque / 4 in
      let (x, e) = i_block-total 14 (omega arith) in
      elim (Bool-cases (ltb nro ((c * c * c) % 2 ^ 32))) [
        | inl t ↦ rw (t, e) (_, refl)
        | inr f ↦ (0, rw f)
      ]

  leer_doble-total : (nro : ℕ) → (x : ℕ) × (leer_doble disk nro inodo tam_bloque ≡ some x)
  unfolding leer_doble
  leer_doble-total nro =
      let c = tam_bloque / 4 in
      let (x, e) = i_block-total 13 (omega arith) in
      let (y, e') = leer_triple-total (nro - (c * c) % 2 ^ 32) in
      elim (Bool-cases (ltb nro ((c * c) % 2 ^ 32))) [
        | inl t ↦ rw (t, e) (_, refl)
        | inr f ↦ (y, rw (f, e'))
      ]

  leer_simple-total : (nro : ℕ) → (x : ℕ) × (leer_simple disk nro inodo tam_bloque ≡ some x)
  unfolding leer_simple
  leer_simple-total nro =
      let c = tam_bloque / 4 in
      let (x, e) = i_block-total 12 (omega arith) in
      let (y, e') = leer_doble-total (nro - c) in
      elim (Bool-cases (ltb nro c)) [ inl t ↦ rw (t, e) (_, refl) | inr f ↦ (y, rw (f, e')) ]

  pub leer_bloque-total : (nro : ℕ) → (x : ℕ) × (leer_bloque disk nro inodo tam_bloque ≡ some x)
  unfolding leer_bloque
  leer_bloque-total nro = elim (Bool-cases (ltb nro 12)) [
    | inl t ↦ let (x, e) = i_block-total nro (ground (arith, t)) in (x, rw (t, e))
    | inr f ↦ let (y, e') = leer_simple-total (nro - 12) in (y, rw (f, e'))
  ]
