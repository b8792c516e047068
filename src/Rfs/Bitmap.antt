-- ===== src/Rfs/Bitmap.antt =====
-- Bitmaps. The operations on one bit are those of the library commons, an interface here;
-- `bitarray_buscarPosicionLibre` of commons/bitarray.c is the program's own.
use tpso_yanero_los_grosos.Base.{
  ℕ, zero, suc, ◌+◌, ◌*◌, ◌<◌, ◌≤◌, ◌≡◌, ◌≢◌, ◌⊎◌, Bool, true, false, List, Option, none, some, inl,
  inr, arith, Bool-cases, ltb, if◌then◌else◌, length,
}

-- `bitarray_test_bit`, `bitarray_set_bit` and `bitarray_clean_bit`, with what they are documented to
-- do inside the array.
pub record Bitarray : Type 0 where
  pub test_bit : List ℕ → ℕ → Bool
  pub set_bit : List ℕ → ℕ → List ℕ
  pub clean_bit : List ℕ → ℕ → List ℕ
  pub length-set_bit : (bs : List ℕ) (i : ℕ) → length (set_bit bs i) ≡ length bs
  pub length-clean_bit : (bs : List ℕ) (i : ℕ) → length (clean_bit bs i) ≡ length bs
  pub test-set : (bs : List ℕ) (i : ℕ) → i < 8 * length bs → test_bit (set_bit bs i) i ≡ true
  pub test-clean : (bs : List ℕ) (i : ℕ) → i < 8 * length bs → test_bit (clean_bit bs i) i ≡ false
  pub test-set_ne :
      (bs : List ℕ) (i j : ℕ)
      → i < 8 * length bs
      → j < 8 * length bs
      → i ≢ j
      → test_bit (set_bit bs i) j ≡ test_bit bs j
  pub test-clean_ne :
      (bs : List ℕ) (i j : ℕ)
      → i < 8 * length bs
      → j < 8 * length bs
      → i ≢ j
      → test_bit (clean_bit bs i) j ≡ test_bit bs j

lt_or_eq : (a b : ℕ) → a ≤ b → (a < b) ⊎ (a ≡ b)
lt_or_eq a b h = elim (Bool-cases (ltb a b)) [
  | inl t ↦ inl (ground arith)
  | inr f ↦ inr (ground arith)
]

module _ (bits : Bitarray) where
  -- The loop of `bitarray_buscarPosicionLibre`, on the number of bits from `pos` on.
  posicion_loop : ℕ → ℕ → List ℕ → Option ℕ
  posicion_loop zero pos bs = none
  posicion_loop (suc n) pos bs =
      if bits.test_bit bs pos then posicion_loop n (pos + 1) bs else some pos

  -- `bitarray_buscarPosicionLibre`. In a full bitmap the test of the loop reads the bit behind the array
  -- before it compares the position with the size, so `none`, a fault, stands where -1 is meant.
  unfoldable pub buscar_posicion_libre : List ℕ → Option ℕ
  unfolding posicion_loop
  buscar_posicion_libre bs = posicion_loop (8 * length bs) 0 bs

  -- A change of one bit, a fault out of the array.
  abbrev pub con_bit_puesto : List ℕ → ℕ → Option (List ℕ)
  con_bit_puesto bs i = if ltb i (8 * length bs) then some (bits.set_bit bs i) else none

  abbrev pub con_bit_limpio : List ℕ → ℕ → Option (List ℕ)
  con_bit_limpio bs i = if ltb i (8 * length bs) then some (bits.clean_bit bs i) else none

  -- The first clear bit.
  pub record IsFirstFree (bs : List ℕ) (k : ℕ) : Type 0 where
    pub inside : k < 8 * length bs
    pub free : bits.test_bit bs k ≡ false
    pub first : (j : ℕ) → j < k → bits.test_bit bs j ≡ true

  posicion_loop-some :
      (n pos : ℕ) (bs : List ℕ) (k : ℕ)
      → pos + n ≡ 8 * length bs
      → ((j : ℕ) → j < pos → bits.test_bit bs j ≡ true)
      → posicion_loop n pos bs ≡ some k
      → IsFirstFree bs k
  unfolding posicion_loop
  posicion_loop-some zero pos bs k e h found = cc
  posicion_loop-some (suc n) pos bs k e h found = elim (Bool-cases (bits.test_bit bs pos)) [
    | inl t ↦
        posicion_loop-some n (pos + 1) bs k (omega arith)
          (λ j lt. elim (lt_or_eq j pos (omega arith)) [ inl l ↦ h j l | inr q ↦ rw q t ])
          (ground arith)
    | inr f ↦
        let same : pos ≡ k = ground arith in
        rw (← same) (record { inside = omega arith; free = f; first = h })
  ]

  posicion_loop-none :
      (n pos : ℕ) (bs : List ℕ)
      → posicion_loop n pos bs ≡ none
      → (j : ℕ) → pos ≤ j
      → j < pos + n
      → bits.test_bit bs j ≡ true
  unfolding posicion_loop
  posicion_loop-none zero pos bs h j le lt = absurd (omega arith)
  posicion_loop-none (suc n) pos bs h j le lt = elim (Bool-cases (bits.test_bit bs pos)) [
    | inl t ↦ elim (lt_or_eq pos j (omega arith)) [
      | inl l ↦ posicion_loop-none n (pos + 1) bs (ground arith) j (omega arith) (omega arith)
      | inr q ↦ rw (← q) t
    ]
    | inr f ↦ absurd (ground arith)
  ]

  -- The search gives the first clear bit of the array; where it reads past the end of the array, which
  -- is where -1 is meant, every bit is set.
  pub buscar_posicion_libre_lem :
      (bs : List ℕ)
      → ((k : ℕ) → buscar_posicion_libre bs ≡ some k → IsFirstFree bs k)
        × (buscar_posicion_libre bs ≡ none
            → (j : ℕ) → j < 8 * length bs
            → bits.test_bit bs j ≡ true)
  unfolding buscar_posicion_libre
  buscar_posicion_libre_lem bs = (
    (λ k h.
        posicion_loop-some (8 * length bs) 0 bs k (omega arith) (λ j lt. absurd (omega arith)) h),
    λ h j lt. posicion_loop-none (8 * length bs) 0 bs h j (omega arith) (omega arith),
  )
