-- ===== src/Cache/Dictionary/Search.antt =====
-- What `micache_search_element` finds.
use tpso_yanero_los_grosos.Base.{
  ℕ, zero, suc, ◌+◌, ◌<◌, ◌≡◌, refl, true, false, List, [], ◌∷◌, Option, none, some, inl, inr,
  arith, Bool-cases, get_elem?,
}
use tpso_yanero_los_grosos.Cache.Table.{Partition, TableInfo}
use tpso_yanero_los_grosos.Cache.Dictionary.{is_hit, search_from, micache_search_element}

-- The element at `i` is used, stored and has the key, and none before it does.
pub record IsFirstHit (key : List ℕ) (nkey : ℕ) (ps : List Partition) (i : ℕ) : Type 0 where
  pub element : Partition
  pub there : get_elem? ps i ≡ some element
  pub hit : is_hit key nkey element ≡ true
  pub first : (j : ℕ) (q : Partition) → j < i → get_elem? ps j ≡ some q → is_hit key nkey q ≡ false

-- No element is used, stored and has the key.
abbrev pub HasNoHit : List ℕ → ℕ → List Partition → Type 0
HasNoHit key nkey ps = (j : ℕ) (q : Partition) → get_elem? ps j ≡ some q → is_hit key nkey q ≡ false

module _ (key : List ℕ) (nkey : ℕ) where
  HasNoHit-cons :
      (p : Partition) (ps : List Partition)
      → is_hit key nkey p ≡ false
      → HasNoHit key nkey ps
      → HasNoHit key nkey (p ∷ ps)
  HasNoHit-cons p ps h rest zero q e = ground arith
  HasNoHit-cons p ps h rest (suc j) q e = rest j q e

  before_suc :
      (p : Partition) (ps : List Partition) (i : ℕ)
      → is_hit key nkey p ≡ false
      → IsFirstHit key nkey ps i
      → IsFirstHit key nkey (p ∷ ps) (suc i)
  before_suc p ps i h f = record { element = f.element; there = f.there; hit = f.hit; first = step }
    where
      step :
          (j : ℕ) (q : Partition)
          → j < suc i
          → get_elem? (p ∷ ps) j ≡ some q
          → is_hit key nkey q ≡ false
      step zero q lt e = ground arith
      step (suc j) q lt e = f.first j q (omega arith) e

  search_from-some :
      (i : ℕ) (ps : List Partition) (k : ℕ)
      → search_from key nkey i ps ≡ some k
      → (d : ℕ) × (k ≡ i + d) × IsFirstHit key nkey ps d
  unfolding search_from
  search_from-some i [] k h = cc
  search_from-some i (p ∷ ps) k h = elim (Bool-cases (is_hit key nkey p)) [
    | inl hit ↦ (
      0,
      ground arith,
      record { element = p; there = refl; hit = hit; first = λ j q lt. elim lt [ ] },
    )
    | inr miss ↦
        let (d, e, f) = search_from-some (i + 1) ps k (ground arith) in
        (suc d, omega arith, before_suc p ps d miss f)
  ]

  search_from-none :
      (i : ℕ) (ps : List Partition) → search_from key nkey i ps ≡ none → HasNoHit key nkey ps
  unfolding search_from
  search_from-none i [] h = λ j q e. cc
  search_from-none i (p ∷ ps) h = elim (Bool-cases (is_hit key nkey p)) [
    | inl hit ↦ ground arith
    | inr miss ↦ HasNoHit-cons p ps miss (search_from-none (i + 1) ps (ground arith))
  ]

-- The search answers with the first element that is used, stored and has the key; where it answers
-- -1 there is none.
pub micache_search_element_lem :
    (t : TableInfo) (key : List ℕ) (nkey : ℕ)
    → ((k : ℕ) → micache_search_element t key nkey ≡ some k → IsFirstHit key nkey t.elements k)
      × (micache_search_element t key nkey ≡ none → HasNoHit key nkey t.elements)
unfolding micache_search_element
micache_search_element_lem t key nkey = (found, search_from-none key nkey 0 t.elements)
  where
    found : (k : ℕ) → search_from key nkey 0 t.elements ≡ some k → IsFirstHit key nkey t.elements k
    found k h =
        let (d, e, f) = search_from-some key nkey 0 t.elements k h in
        let same : k ≡ d = omega arith in (rw same f)

-- An element that hits is found, at its place or before it.
pub micache_search_element-total :
    (t : TableInfo) (key : List ℕ) (nkey i : ℕ) (p : Partition)
    → get_elem? t.elements i ≡ some p
    → is_hit key nkey p ≡ true
    → (k : ℕ) × (micache_search_element t key nkey ≡ some k)
micache_search_element-total t key nkey i p e hit = go (micache_search_element t key nkey) refl
  where
    go :
        (r : Option ℕ)
        → micache_search_element t key nkey ≡ r
        → (k : ℕ) × (micache_search_element t key nkey ≡ some k)
    go (some k) h = (k, h)
    go none h = absurd (cc ((micache_search_element_lem t key nkey).1 h i p e))
