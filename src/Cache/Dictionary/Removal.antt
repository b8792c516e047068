-- ===== src/Cache/Dictionary/Removal.antt =====
-- What `micache_remove_element` and `micache_clean` do to the table.
use tpso_yanero_los_grosos.Base.{
  ℕ, zero, suc, ◌+◌, ◌<◌, ◌≡◌, refl, ◌⊎◌, Bool, true, ◌&&◌, List, [], ◌∷◌, Option, none, some, inl,
  inr, arith, Bool-cases, get_elem?, set, sum_by-set, if◌then◌else◌, ◌==◌, ◌-◌,
}
use tpso_yanero_los_grosos.Cache.Table.{Partition, TableInfo}
use tpso_yanero_los_grosos.Cache.Dictionary.{
  same_key, last_match, emptied, freed_bytes, micache_remove_element, micache_remove,
}
use tpso_yanero_los_grosos.Cache.Accounting.{free_of, bytes_of, KeepsAccount}

-- The test of the loop of `micache_remove_element`, which does not look at `stored`.
abbrev pub is_match : List ℕ → ℕ → Partition → Bool
is_match key nkey p = p.ocupado && same_key key nkey p.item

module _ (key : List ℕ) (nkey : ℕ) where
  last_match-some :
      (i : ℕ) (pos : Option ℕ) (ps : List Partition) (k : ℕ)
      → last_match key nkey i pos ps ≡ some k
      → (pos ≡ some k)
        ⊎ ((d : ℕ) × (p : Partition) × (k ≡ i + d)
            × (get_elem? ps d ≡ some p)
            × (is_match key nkey p ≡ true))
  unfolding last_match
  last_match-some i pos [] k h = inl h
  last_match-some i pos (p ∷ ps) k h =
      go (last_match-some (i + 1) (if is_match key nkey p then some i else pos) ps k h)
    where
      go :
          ((if is_match key nkey p then some i else pos) ≡ some k)
            ⊎ ((d : ℕ) × (q : Partition) × (k ≡ i + 1 + d)
                × (get_elem? ps d ≡ some q)
                × (is_match key nkey q ≡ true))
          → (pos ≡ some k)
            ⊎ ((d : ℕ) × (q : Partition) × (k ≡ i + d)
                × (get_elem? (p ∷ ps) d ≡ some q)
                × (is_match key nkey q ≡ true))
      go (inr (d, q, e, g, m)) = inr (suc d, q, omega arith, g, m)
      go (inl e) = elim (Bool-cases (is_match key nkey p)) [
        | inl m ↦ inr (0, p, ground arith, refl, m)
        | inr m ↦ inl (ground arith)
      ]

  last_match-ne_none :
      (i : ℕ) (k : ℕ) (ps : List Partition) → (r : ℕ) × (last_match key nkey i (some k) ps ≡ some r)
  unfolding last_match
  last_match-ne_none i k [] = (k, refl)
  last_match-ne_none i k (p ∷ ps) = elim (Bool-cases (is_match key nkey p)) [
    | inl m ↦ rw m (last_match-ne_none (i + 1) i ps)
    | inr m ↦ rw m (last_match-ne_none (i + 1) k ps)
  ]

  last_match-total :
      (i : ℕ) (pos : Option ℕ) (ps : List Partition) (j : ℕ) (p : Partition)
      → get_elem? ps j ≡ some p
      → is_match key nkey p ≡ true
      → (r : ℕ) × (last_match key nkey i pos ps ≡ some r)
  unfolding last_match
  last_match-total i pos [] j p e m = absurd (cc)
  last_match-total i pos (q ∷ ps) zero p e m =
      let m' : is_match key nkey q ≡ true = ground arith in rw m' (last_match-ne_none (i + 1) i ps)
  last_match-total i pos (q ∷ ps) (suc j) p e m = last_match-total (i + 1) _ ps j p e m

-- What one removal does: some used element with the key is emptied, nothing else of the array
-- changes, and no byte is lost or made up.
pub record Removes (key : List ℕ) (nkey : ℕ) (t t' : TableInfo) (data_ptr : ℕ) : Type 0 where
  pub pos : ℕ
  pub element : Partition
  pub there : get_elem? t.elements pos ≡ some element
  pub matches : is_match key nkey element ≡ true
  pub address : data_ptr ≡ element.item.data_ptr
  pub result : t'.elements ≡ set t.elements pos (emptied t.size_chunk element)
  pub amount : t'.elements_amount ≡ t.elements_amount
  pub account : KeepsAccount t t'

removed : TableInfo → ℕ → Partition → TableInfo
removed t pos p = record t {
  elements = set t.elements pos (emptied t.size_chunk p);
  espacio_libre = t.espacio_libre + freed_bytes t.size_chunk p;
}

removed-KeepsAccount :
    (t : TableInfo) (pos : ℕ) (p : Partition)
    → get_elem? t.elements pos ≡ some p
    → p.ocupado ≡ true
    → KeepsAccount t (removed t pos p)
unfolding removed
removed-KeepsAccount t pos p e used = record {
  same_chunk = refl;
  same_bytes =
      ground (arith, sum_by-set (bytes_of t.size_chunk) t.elements pos p (emptied t.size_chunk p));
  same_gap = ground (arith, sum_by-set free_of t.elements pos p (emptied t.size_chunk p));
}

-- Where a used element has the key, `micache_remove_element` gives a result: it empties one such
-- element, changes no other, returns its data pointer, keeps the bytes of the table, and adds to
-- `espacio_libre` what becomes free.
pub micache_remove_element_lem :
    (t : TableInfo) (key : List ℕ) (nkey i : ℕ) (p : Partition)
    → get_elem? t.elements i ≡ some p
    → is_match key nkey p ≡ true
    → (data_ptr : ℕ) × (t' : TableInfo) × (micache_remove_element t key nkey ≡ some (data_ptr, t'))
      × Removes key nkey t t' data_ptr
unfolding micache_remove_element removed
micache_remove_element_lem t key nkey i p e m =
    let (k, h) = last_match-total key nkey 0 none t.elements i p e m in
    go k h (last_match-some key nkey 0 none t.elements k h)
  where
    go :
        (k : ℕ)
        → last_match key nkey 0 none t.elements ≡ some k
        → (none ≡ some k)
          ⊎ ((d : ℕ) × (q : Partition) × (k ≡ 0 + d)
              × (get_elem? t.elements d ≡ some q)
              × (is_match key nkey q ≡ true))
        → (data_ptr : ℕ) × (t' : TableInfo) × (micache_remove_element t key nkey
            ≡ some (data_ptr, t'))
          × Removes key nkey t t' data_ptr
    go k h (inl bad) = cc
    go k h (inr (d, q, e', g, m')) =
        let same : k ≡ d = omega arith in
        let h' : last_match key nkey 0 none t.elements ≡ some d = rw (← same) h in
        (
          q.item.data_ptr,
          removed t d q,
          rw (h', g),
          record {
            pos = d;
            element = q;
            there = g;
            matches = m';
            address = refl;
            result = refl;
            amount = refl;
            account = removed-KeepsAccount t d q g (ground arith);
          },
        )

-- `elements_amount` after `micache_remove`.
abbrev pub amount_after : ℕ → ℕ → ℕ
amount_after data_ptr amount = if data_ptr == 0 then amount else amount - 1

-- Where a used element has the key and elements are counted, `micache_remove` gives a result: it
-- empties one such element, changes no other, returns its data pointer, keeps the bytes of the table,
-- adds to `espacio_libre` what becomes free, and counts one element less unless the pointer is null.
pub micache_remove_lem :
    (t : TableInfo) (key : List ℕ) (nkey i : ℕ) (p : Partition)
    → 0 < t.elements_amount
    → get_elem? t.elements i ≡ some p
    → is_match key nkey p ≡ true
    → (data_ptr : ℕ) × (t' : TableInfo) × (micache_remove t key nkey
        ≡ some (data_ptr, record t' { elements_amount = amount_after data_ptr t.elements_amount }))
      × Removes key nkey t t' data_ptr
unfolding micache_remove
micache_remove_lem t key nkey i p h e m =
    let (data_ptr, t', done, removes) = micache_remove_element_lem t key nkey i p e m in
    (data_ptr, t', rw done (ground (arith, removes.amount)), removes)
