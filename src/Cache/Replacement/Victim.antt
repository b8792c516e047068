-- ===== src/Cache/Replacement/Victim.antt =====
-- Which element `lru` chooses.
use tpso_yanero_los_grosos.Base.{
  ℕ, suc, ◌<◌, ◌≤◌, ◌≡◌, refl, ◌⊎◌, Bool, true, false, ◌&&◌, List, [], ◌∷◌, Option, none, some, inl,
  inr, arith, Bool-cases, get_elem?, ltb, bytes_eq_refl, take,
}
use tpso_yanero_los_grosos.Cache.Table.{Partition, TableInfo}
use tpso_yanero_los_grosos.Cache.Dictionary.Removal.{
  is_match, Removes, amount_after, micache_remove_lem,
}
use tpso_yanero_los_grosos.Cache.Replacement.{Key, lru_loop, lru}

-- An element that may be thrown out.
abbrev pub is_candidate : Partition → Bool
is_candidate p = p.ocupado && p.item.stored

abbrev pub is_older : ℕ → Partition → Bool
is_older time p = is_candidate p && ltb p.ultima_vez_usada time

-- No candidate was used before `time`.
abbrev pub NoneBefore : ℕ → List Partition → Type 0
NoneBefore time [] = Unit {0}
NoneBefore time (p ∷ ps) = (is_candidate p ≡ true → time ≤ p.ultima_vez_usada) × NoneBefore time ps

NoneBefore-mono : (a b : ℕ) (ps : List Partition) → b ≤ a → NoneBefore a ps → NoneBefore b ps
NoneBefore-mono a b [] h n = tt
NoneBefore-mono a b (p ∷ ps) h n = ((λ c. omega (arith, n.0 c)), NoneBefore-mono a b ps h n.1)

-- The key is that of a candidate of the list, used before `now`, and none was used before it.
pub record IsOldest (now : ℕ) (ps : List Partition) (k : Key) : Type 0 where
  pub pos : ℕ
  pub element : Partition
  pub there : get_elem? ps pos ≡ some element
  pub candidate : is_candidate element ≡ true
  pub before : element.ultima_vez_usada < now
  pub same_key : k ≡ record { key = element.item.key; nkey = element.item.nkey }
  pub oldest : NoneBefore element.ultima_vez_usada ps

IsOldest-later :
    (now : ℕ) (p : Partition) (ps : List Partition) (k : Key)
    → is_older now p ≡ false
    → IsOldest now ps k
    → IsOldest now (p ∷ ps) k
IsOldest-later now p ps k h o = record {
  pos = suc o.pos;
  element = o.element;
  there = o.there;
  candidate = o.candidate;
  before = o.before;
  same_key = o.same_key;
  oldest = ((λ c. ground (arith, o.before)), o.oldest);
}

IsOldest-earlier :
    (now : ℕ) (p : Partition) (ps : List Partition) (k : Key)
    → is_older now p ≡ true
    → IsOldest p.ultima_vez_usada ps k
    → IsOldest now (p ∷ ps) k
IsOldest-earlier now p ps k h o = record {
  pos = suc o.pos;
  element = o.element;
  there = o.there;
  candidate = o.candidate;
  before = ground (arith, o.before);
  same_key = o.same_key;
  oldest = ((λ c. omega (arith, o.before)), o.oldest);
}

-- What the loop ends with: the victim that it started with, where nothing is older than the
-- starting time, or the oldest candidate.
lru_loop_lem :
    (now : ℕ) (victim : Option Key) (ps : List Partition)
    → ((lru_loop now victim ps ≡ victim) × NoneBefore now ps)
      ⊎ ((k : Key) × (lru_loop now victim ps ≡ some k) × IsOldest now ps k)
unfolding lru_loop
lru_loop_lem now victim [] = inl (refl, tt)
lru_loop_lem now victim (p ∷ ps) = elim (Bool-cases (is_older now p)) [
  | inr newer ↦ rw newer (pass (lru_loop_lem now victim ps) newer)
  | inl older ↦ rw older (
      take_it older (
        lru_loop_lem p.ultima_vez_usada (some (record { key = p.item.key; nkey = p.item.nkey }))
          ps))
]
  where
    pass :
        ((lru_loop now victim ps ≡ victim) × NoneBefore now ps)
          ⊎ ((k : Key) × (lru_loop now victim ps ≡ some k) × IsOldest now ps k)
        → is_older now p ≡ false
        → ((lru_loop now victim ps ≡ victim) × NoneBefore now (p ∷ ps))
          ⊎ ((k : Key) × (lru_loop now victim ps ≡ some k) × IsOldest now (p ∷ ps) k)
    pass (inl (e, n)) newer = inl (e, ((λ c. ground arith), n))
    pass (inr (k, e, o)) newer = inr (k, e, IsOldest-later now p ps k newer o)

    mine : Key
    mine = record { key = p.item.key; nkey = p.item.nkey }

    take_it :
        is_older now p ≡ true
        → ((lru_loop p.ultima_vez_usada (some mine) ps ≡ some mine)
            × NoneBefore p.ultima_vez_usada ps)
          ⊎ ((k : Key) × (lru_loop p.ultima_vez_usada (some mine) ps ≡ some k)
              × IsOldest p.ultima_vez_usada ps k)
        → ((lru_loop p.ultima_vez_usada (some mine) ps ≡ victim) × NoneBefore now (p ∷ ps))
          ⊎ ((k : Key) × (lru_loop p.ultima_vez_usada (some mine) ps ≡ some k)
              × IsOldest now (p ∷ ps) k)
    take_it older (inr (k, e, o)) = inr (k, e, IsOldest-earlier now p ps k older o)
    take_it older (inl (e, n)) = inr (
      mine,
      e,
      record {
        pos = 0;
        element = p;
        there = refl;
        candidate = ground arith;
        before = ground arith;
        same_key = refl;
        oldest = ((λ c. omega arith), n);
      },
    )

-- The key of an element matches the element.
candidate-is_match :
    (p : Partition) → is_candidate p ≡ true → is_match p.item.key p.item.nkey p ≡ true
candidate-is_match p c = ground (arith, bytes_eq_refl (take p.item.nkey p.item.key))

-- The effect of `lru`: the key of the oldest candidate, and the table after `micache_remove` of
-- that key.
pub record Replaces (now : ℕ) (t : TableInfo) (k : Key) (t' : TableInfo) : Type 0 where
  pub oldest : IsOldest now t.elements k
  pub data_ptr : ℕ
  pub after : TableInfo
  pub removal : Removes k.key k.nkey t after data_ptr
  pub result : t' ≡ record after { elements_amount = amount_after data_ptr t.elements_amount }

lru_of_oldest :
    (t : TableInfo) (now : ℕ) (k : Key)
    → 0 < t.elements_amount
    → lru_loop now none t.elements ≡ some k
    → IsOldest now t.elements k
    → (t' : TableInfo) × (lru t now ≡ some (k, t')) × Replaces now t k t'
unfolding lru
lru_of_oldest t now k h e o =
    let m : is_match k.key k.nkey o.element ≡ true =
      rw (o.same_key) (candidate-is_match o.element o.candidate) in
    let (data_ptr, after, done, removal) =
      micache_remove_lem t k.key k.nkey o.pos o.element h o.there m in
    (
      record after { elements_amount = amount_after data_ptr t.elements_amount },
      rw (e, done),
      record { oldest = o; data_ptr = data_ptr; after = after; removal = removal; result = refl },
    )

-- With elements counted, `lru` faults exactly where no used, stored element is older than the
-- clock, and otherwise removes the key of one that was used before the clock and that no other is
-- older than.
pub lru_lem :
    (t : TableInfo) (now : ℕ)
    → 0 < t.elements_amount
    → (NoneBefore now t.elements × (lru t now ≡ none))
      ⊎ ((k : Key) × (t' : TableInfo) × (lru t now ≡ some (k, t')) × Replaces now t k t')
unfolding lru
lru_lem t now h = go (lru_loop_lem now none t.elements)
  where
    go :
        ((lru_loop now none t.elements ≡ none) × NoneBefore now t.elements)
          ⊎ ((k : Key) × (lru_loop now none t.elements ≡ some k) × IsOldest now t.elements k)
        → (NoneBefore now t.elements × (lru t now ≡ none))
          ⊎ ((k : Key) × (t' : TableInfo) × (lru t now ≡ some (k, t')) × Replaces now t k t')
    go (inl (e, n)) = inl (n, rw e)
    go (inr (k, e, o)) = let (t', done, r) = lru_of_oldest t now k h e o in inr (k, t', done, r)
