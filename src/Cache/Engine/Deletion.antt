-- ===== src/Cache/Engine/Deletion.antt =====
-- `delete_one` followed by `get_info`.
use tpso_yanero_los_grosos.Base.{
  ℕ, ◌<◌, ◌≡◌, ◌≢◌, refl, List, none, some, inl, inr, arith, true, false, Bool-cases, get_elem?,
  set, get_elem?-set_self, get_elem?-set_ne, lt_of_get_elem?, length, take, bytes_eq_sound,
  bytes_eq_refl, ◌==◌,
}
use tpso_yanero_los_grosos.Cache.Table.{Partition, TableInfo}
use tpso_yanero_los_grosos.Cache.Dictionary.{micache_search_element, is_hit, emptied}
use tpso_yanero_los_grosos.Cache.Dictionary.Search.{
  HasNoHit, micache_search_element_lem, micache_search_element-total,
}
use tpso_yanero_los_grosos.Cache.Dictionary.Removal.{is_match, micache_remove_lem, amount_after}
use tpso_yanero_los_grosos.Cache.Compaction.{fits_bufftemp}
use tpso_yanero_los_grosos.Cache.Engine.Flushing.{no_hit-none}
use tpso_yanero_los_grosos.Cache.Engine.{
  success, key_enoent, Config, item_release, delete_one, get_info,
}

-- Only the element at `i` is used with the key.
abbrev pub IsOnly : List ℕ → ℕ → List Partition → ℕ → Type 0
IsOnly key nkey ps i =
    (j : ℕ) (q : Partition) → get_elem? ps j ≡ some q → is_match key nkey q ≡ true → j ≡ i

-- What `delete_one` writes before it releases the element.
abbrev soltado : Partition → Partition
soltado p = record p { item = record (p.item) { stored = false } }

is_match_trans :
    (key key' : List ℕ) (nkey nkey' : ℕ) (p q : Partition)
    → p.item.key ≡ key'
    → p.item.nkey ≡ nkey'
    → is_match key nkey p ≡ true
    → is_match key' nkey' q ≡ true
    → is_match key nkey q ≡ true
is_match_trans key key' nkey nkey' p q ek en hp hq =
    let n : nkey' ≡ nkey = ground arith in
    let a : take nkey key ≡ take nkey p.item.key = bytes_eq_sound _ _ (ground arith) in
    let b : take nkey' key' ≡ take nkey' q.item.key = bytes_eq_sound _ _ (ground arith) in
    let c : take nkey key ≡ take nkey q.item.key = cc in
    let d : (q.item.nkey == nkey) ≡ true = ground arith in
    let u : q.ocupado ≡ true = ground arith in rw (u, d, c) (bytes_eq_refl (take nkey q.item.key))

module _ (key : List ℕ) (nkey : ℕ) where
  IsOnly-set :
      (ps : List Partition) (i : ℕ) (p : Partition)
      → IsOnly key nkey ps i
      → IsOnly key nkey (set ps i p) i
  IsOnly-set ps i p only j q e m = elim (Bool-cases (i == j)) [
    | inl same ↦ ground arith
    | inr other ↦ only j q (ground (arith, get_elem?-set_ne ps i j p)) m
  ]

  HasNoHit-set :
      (ps : List Partition) (i : ℕ) (p : Partition)
      → p.ocupado ≡ false
      → i < length ps
      → IsOnly key nkey ps i
      → HasNoHit key nkey (set ps i p)
  HasNoHit-set ps i p free lt only j q e = elim (Bool-cases (i == j)) [
    | inl same ↦
        let s : i ≡ j = ground arith in
        let g : get_elem? (set ps i p) j ≡ some p = rw (← s) (get_elem?-set_self ps i p lt) in
        let eq : q ≡ p = cc in rw (eq, free) refl
    | inr other ↦
        let g : get_elem? ps j ≡ some q = ground (arith, get_elem?-set_ne ps i j p) in
        elim (Bool-cases (is_hit key nkey q)) [
          | inl hit ↦ let bad : j ≡ i = only j q g (ground arith) in ground arith
          | inr miss ↦ miss
        ]
  ]

is_match_self : (p : Partition) → p.ocupado ≡ true → is_match p.item.key p.item.nkey p ≡ true
is_match_self p used =
    let n : (p.item.nkey == p.item.nkey) ≡ true = ground arith in
    rw (used, n) (bytes_eq_refl (take p.item.nkey p.item.key))

-- Where one used element alone has a key of less than 100 bytes, is stored, and elements are counted,
-- `delete_one` succeeds; then a get of that key answers that there is no such key and changes nothing,
-- and the other elements are what they were.
pub get_info-after-delete :
    (c : Config) (t : TableInfo) (key : List ℕ) (nkey i now : ℕ) (p : Partition)
    → nkey < 100
    → 0 < t.elements_amount
    → get_elem? t.elements i ≡ some p
    → is_hit key nkey p ≡ true
    → IsOnly key nkey t.elements i
    → (t' : TableInfo) × (delete_one t key nkey ≡ some (success, none, t'))
      × (get_info c t' key nkey now ≡ some (key_enoent, none, t'))
      × ((j : ℕ) → i ≢ j → get_elem? t'.elements j ≡ get_elem? t.elements j)
unfolding delete_one item_release get_info
get_info-after-delete c t key nkey i now p short some_left e hit only =
    let (k, s) = micache_search_element-total t key nkey i p e hit in
    let f = (micache_search_element_lem t key nkey).0 k s in
    let same : k ≡ i = only k f.element f.there (ground (arith, f.hit)) in
    let s' : micache_search_element t key nkey ≡ some i = rw s (rw same refl) in
    let lt : i < length t.elements = lt_of_get_elem? t.elements i p e in
    let ps = set t.elements i (soltado p) in
    let t₁ : TableInfo = record t { elements = ps } in
    let here : get_elem? ps i ≡ some (soltado p) = get_elem?-set_self t.elements i (soltado p) lt in
    let (d, t₂, done, r) =
      micache_remove_lem t₁ p.item.key p.item.nkey i (soltado p) some_left here
        (is_match_self p (ground (arith, hit))) in
    let matches : is_match key nkey r.element ≡ true =
      is_match_trans key p.item.key nkey p.item.nkey p r.element refl refl (ground (arith, hit))
        r.matches in
    let only₁ : IsOnly key nkey ps i = IsOnly-set key nkey t.elements i (soltado p) only in
    let pos : r.pos ≡ i = only₁ r.pos r.element r.there matches in
    let result : t₂.elements ≡ set ps i (emptied t.size_chunk r.element) =
      rw r.result (rw pos refl) in
    let none_left : HasNoHit key nkey t₂.elements = rw result (
      HasNoHit-set key nkey ps i (emptied t.size_chunk r.element) refl
        (lt_of_get_elem? ps i (soltado p) here) only₁) in
    let t' : TableInfo = record t₂ { elements_amount = amount_after d t.elements_amount } in
    let fits : fits_bufftemp nkey ≡ true = ground (arith, short) in
    (
      t',
      rw (delete_one, s', e, here, done) refl,
      rw (fits, no_hit-none t' key nkey none_left) refl,
      λ j ne.
          rw
            (
              result,
              get_elem?-set_ne ps i j (emptied t.size_chunk r.element) ne,
              get_elem?-set_ne t.elements i j (soltado p) ne,
            )
            refl,
    )
