-- ===== src/Cache/Dictionary/LastPlace.antt =====
-- `micache_create_element` at the last place of the array.
use tpso_yanero_los_grosos.Base.{
  ℕ, zero, suc, ◌+◌, ◌≤◌, ◌≡◌, refl, true, List, [], ◌∷◌, none, some, inl, inr, Bool-cases, arith,
  get_elem?, length, length-set, leb, set,
}
use tpso_yanero_los_grosos.Cache.Table.{Partition, TableInfo, table_max_size}
use tpso_yanero_los_grosos.Cache.Dictionary.{micache_create_element, take_bytes, filled}

get_elem?-past : {A : Type 0} (xs : List A) (i : ℕ) → length xs ≤ i → get_elem? xs i ≡ none
get_elem?-past [] i h = refl
get_elem?-past (x ∷ xs) zero h = absurd (omega arith)
get_elem?-past (x ∷ xs) (suc i) h = get_elem?-past xs i (omega arith)

-- An element made at the last place of the array, in a partition that is large enough, faults: the
-- code looks at the element behind the array.
pub micache_create_element-last :
    (t : TableInfo) (key : List ℕ) (nkey pos size chunk now : ℕ) (p : Partition)
    → pos + 1 ≡ table_max_size t
    → get_elem? t.elements pos ≡ some p
    → size ≤ p.bytes_disponibles
    → micache_create_element t key nkey pos size chunk now ≡ none
unfolding micache_create_element
micache_create_element-last t key nkey pos size chunk now p last e fits =
    elim (Bool-cases (leb nkey 60)) [ inl b ↦ rw (e, b, test, past) | inr b ↦ rw (e, b) refl ]
  where
    test : leb size p.bytes_disponibles ≡ true
    test = ground arith

    past :
        take_bytes
          (record t { elements = set t.elements pos (filled key nkey size now p) })
          p
          pos
          size
          chunk
        ≡ none
    past = rw (
      take_bytes,
      get_elem?-past (set t.elements pos (filled key nkey size now p)) (pos + 1)
          (omega (arith, length-set t.elements pos (filled key nkey size now p))),
    )
