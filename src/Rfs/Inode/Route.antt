-- ===== src/Rfs/Inode/Route.antt =====
-- `Inode_leerBloque` against the layout of an ext2 file: twelve blocks, then trees of pointers of
-- one, two and three levels.
use native.Mathlib.Nat.{div-lt_iff_lt-mul, mod-lt, div-add-mod'}
use tpso_yanero_los_grosos.Base.{
  ℕ, ◌+◌, ◌-◌, ◌*◌, ◌/◌, ◌%◌, ◌^◌, ◌<◌, ◌≤◌, ◌≡◌, refl, ap, ◌∙◌, subst, List, [], ◌∷◌, Option, none,
  some, inl, inr, arith, true, false, Bool-cases, ◌>>=◌, ltb,
}
use tpso_yanero_los_grosos.Rfs.Inode.{
  i_block, buscar_bloque, leer_triple, leer_doble, leer_simple, leer_bloque,
}

-- The block `n` of a file is found at the place `k` of `i_block`, following these places in blocks
-- of `c` pointers.
pub data IsRoute (c : ℕ) : ℕ → ℕ → List ℕ → Type 0 where
  direct : (n : ℕ) → n < 12 → IsRoute c n n []
  simple : (p : ℕ) → p < c → IsRoute c (12 + p) 12 (p ∷ [])
  double : (p q : ℕ) → p < c → q < c → IsRoute c (12 + c + (p * c + q)) 13 (p ∷ q ∷ [])
  triple :
      (p q r : ℕ)
      → p < c
      → q < c
      → r < c
      → IsRoute c (12 + c + c * c + ((p * c + q) * c + r)) 14 (p ∷ q ∷ r ∷ [])

-- The block at the end of a route.
abbrev pub follow : (ℕ → ℕ) → ℕ → ℕ → List ℕ → ℕ
follow disk tam_bloque bloque [] = bloque
follow disk tam_bloque bloque (p ∷ ps) =
    follow disk tam_bloque (buscar_bloque disk bloque p tam_bloque) ps

bind_some : (m : Option ℕ) → m ≡ (do x ← m; some x)
bind_some none = refl
bind_some (some x) = refl

module _ (disk : ℕ → ℕ) (inodo : List ℕ) (tam_bloque : ℕ) where
  -- What a level answers for the block `n` of the file.
  abbrev Follows : ℕ → Option ℕ → Type 0
  Follows n r =
      (k : ℕ) × (ps : List ℕ) × IsRoute (tam_bloque / 4) n k ps
      × (r ≡ (do bloque ← i_block inodo k; some (follow disk tam_bloque bloque ps)))

  leer_triple_lem :
      (n : ℕ)
      → 0 < tam_bloque / 4
      → n < tam_bloque / 4 * (tam_bloque / 4) * (tam_bloque / 4)
      → tam_bloque / 4 * (tam_bloque / 4) * (tam_bloque / 4) < 2 ^ 32
      → Follows
          (12 + tam_bloque / 4 + tam_bloque / 4 * (tam_bloque / 4) + n)
          (leer_triple disk n inodo tam_bloque)
  unfolding leer_triple
  leer_triple_lem n pos lt small =
      let c = tam_bloque / 4 in
      let test : ltb n ((c * c * c) % 2 ^ 32) ≡ true = ground (arith, lt, small) in
      let number : 12 + c + c * c + ((n / c / c * c + (n / c) % c) * c + n % c)
          ≡ 12 + c + c * c + n =
        ap (λ x. 12 + c + c * c + (x * c + n % c)) (div-add-mod' (n / c) c)
        ∙ ap (λ x. 12 + c + c * c + x) (div-add-mod' n c) in
      let top : n / c / c < c = (div-lt_iff_lt-mul pos).1 ((div-lt_iff_lt-mul pos).1 lt) in
      subst (λ m. Follows m (leer_triple disk n inodo tam_bloque)) number
        (
          14,
          n / c / c ∷ (n / c) % c ∷ n % c ∷ [],
          triple (n / c / c) ((n / c) % c) (n % c) top (mod-lt (n / c) pos) (mod-lt n pos),
          rw test,
        )

  doble_to_triple :
      (n : ℕ)
      → ltb n ((tam_bloque / 4 * (tam_bloque / 4)) % 2 ^ 32) ≡ false
      → (tam_bloque / 4 * (tam_bloque / 4)) % 2 ^ 32 ≡ tam_bloque / 4 * (tam_bloque / 4)
      → leer_doble disk n inodo tam_bloque
        ≡ leer_triple disk (n - tam_bloque / 4 * (tam_bloque / 4)) inodo tam_bloque
  unfolding leer_doble
  doble_to_triple n test kept =
      let sub = ap (λ x. leer_triple disk (n - x) inodo tam_bloque) kept in rw test sub

  leer_doble_lem :
      (n : ℕ)
      → 0 < tam_bloque / 4
      → n < tam_bloque / 4 * (tam_bloque / 4) + tam_bloque / 4 * (tam_bloque / 4) * (tam_bloque / 4)
      → tam_bloque / 4 * (tam_bloque / 4) < 2 ^ 32
      → tam_bloque / 4 * (tam_bloque / 4) * (tam_bloque / 4) < 2 ^ 32
      → Follows (12 + tam_bloque / 4 + n) (leer_doble disk n inodo tam_bloque)
  unfolding leer_doble
  leer_doble_lem n pos lt small₂ small₃ =
      let c = tam_bloque / 4 in
      let kept : (c * c) % 2 ^ 32 ≡ c * c = omega (arith, small₂) in
      elim (Bool-cases (ltb n (c * c))) [
        | inl t ↦
            let test : ltb n ((c * c) % 2 ^ 32) ≡ true = rw kept t in
            let inside : n < c * c = ground (arith, t) in
            let top : n / c < c = (div-lt_iff_lt-mul pos).1 inside in
            subst (λ m. Follows m (leer_doble disk n inodo tam_bloque))
              (ap (λ x. 12 + c + x) (div-add-mod' n c))
              (13, n / c ∷ n % c ∷ [], double (n / c) (n % c) top (mod-lt n pos), rw test)
        | inr f ↦
            let test : ltb n ((c * c) % 2 ^ 32) ≡ false = rw kept f in
            let outside : c * c ≤ n = ground (arith, f) in
            let (k, ps, route, e) =
              leer_triple_lem (n - c * c) pos (omega (arith, lt, outside)) small₃ in
            (
              k,
              ps,
              subst (λ m. IsRoute c m k ps) (omega (arith, outside)) route,
              doble_to_triple n test kept ∙ e,
            )
      ]

  leer_simple_lem :
      (n : ℕ)
      → 0 < tam_bloque / 4
      → n
        < tam_bloque / 4
          + tam_bloque / 4 * (tam_bloque / 4)
          + tam_bloque / 4 * (tam_bloque / 4) * (tam_bloque / 4)
      → tam_bloque / 4 * (tam_bloque / 4) < 2 ^ 32
      → tam_bloque / 4 * (tam_bloque / 4) * (tam_bloque / 4) < 2 ^ 32
      → Follows (12 + n) (leer_simple disk n inodo tam_bloque)
  unfolding leer_simple
  leer_simple_lem n pos lt small₂ small₃ =
      let c = tam_bloque / 4 in
      elim (Bool-cases (ltb n c)) [
        | inl t ↦ (12, n ∷ [], simple n (ground (arith, t)), rw t)
        | inr f ↦
            let outside : c ≤ n = ground (arith, f) in
            let (k, ps, route, e) =
              leer_doble_lem (n - c) pos (omega (arith, lt, outside)) small₂ small₃ in
            (k, ps, subst (λ m. IsRoute c m k ps) (omega (arith, outside)) route, rw f e)
      ]

  -- Every block of a file that ext2 can address, with `c` > 0 pointers in a block and the square and
  -- the cube of `c` below 2^32, is read where the layout says: there is a route to it, and
  -- `Inode_leerBloque` gives the block at its end, through the place of `i_block` where the route
  -- starts.
  pub leer_bloque_lem :
      (c n : ℕ)
      → tam_bloque / 4 ≡ c
      → 0 < c
      → n < 12 + c + c * c + c * c * c
      → c * c < 2 ^ 32
      → c * c * c < 2 ^ 32
      → (k : ℕ) × (ps : List ℕ) × IsRoute c n k ps
        × (leer_bloque disk n inodo tam_bloque
            ≡ (do bloque ← i_block inodo k; some (follow disk tam_bloque bloque ps)))
  unfolding leer_bloque
  leer_bloque_lem c n e pos lt small₂ small₃ = elim (Bool-cases (ltb n 12)) [
    | inl t ↦ (n, [], direct n (ground (arith, t)), rw t (bind_some (i_block inodo n)))
    | inr f ↦
        let outside : 12 ≤ n = ground (arith, f) in
        let (k, ps, route, e') =
          leer_simple_lem (n - 12) (rw e pos) (rw e (omega (arith, lt, outside))) (rw e small₂)
            (rw e small₃) in
        (
          k,
          ps,
          subst (λ m. IsRoute c m k ps) (omega (arith, outside))
              (subst (λ x. IsRoute x (12 + (n - 12)) k ps) e route),
          rw f e',
        )
  ]
