-- ===== src/Cache/Dictionary/Totality.antt =====
-- `micache_create_element` returns, where the partition and its table have the bytes.
use tpso_yanero_los_grosos.Base.{
  ℕ, zero, suc, ◌+◌, ◌-◌, ◌<◌, ◌≤◌, ◌≡◌, refl, ◌∙◌, List, [], ◌∷◌, true, some, inl, inr, arith,
  Bool-cases, sub?, leb, if◌then◌else◌, length, length-set, get_elem?, set, get_elem?_total,
}
use tpso_yanero_los_grosos.Cache.Table.{Partition, TableInfo, table_max_size}
use tpso_yanero_los_grosos.Cache.Dictionary.{
  moved, filled, taken_bytes, abajo_loop, desplazar_abajo, set_inutilizados, give_next,
  set_next_data, create_before_used, create_before_free, take_bytes, micache_create_element,
}
use tpso_yanero_los_grosos.Cache.Returns.{Returns, read_then, table_then, same_size, write-Returns}
use tpso_yanero_los_grosos.Cache.Dictionary.Creation.{HasKeyAt, micache_create_element-HasKeyAt}

-- Every key fits its slot of 60 bytes.
abbrev pub KeysFit : List Partition → Type 0
KeysFit ps = (j : ℕ) (p : Partition) → get_elem? ps j ≡ some p → p.item.nkey ≤ 60

KeysFit-set :
    (ps : List Partition) (i : ℕ) (p : Partition)
    → KeysFit ps
    → p.item.nkey ≤ 60
    → KeysFit (set ps i p)
KeysFit-set [] i p fit le j q e = cc
KeysFit-set (x ∷ ps) zero p fit le zero q e = ground (arith, le)
KeysFit-set (x ∷ ps) zero p fit le (suc j) q e = fit (suc j) q e
KeysFit-set (x ∷ ps) (suc i) p fit le zero q e = fit zero q e
KeysFit-set (x ∷ ps) (suc i) p fit le (suc j) q e =
    KeysFit-set ps i p (λ k r g. fit (suc k) r g) le j q e

abajo_loop-Returns :
    (n u : ℕ) (t : TableInfo)
    → n ≤ u
    → u < length t.elements
    → KeysFit t.elements
    → Returns t (abajo_loop n u t)
unfolding abajo_loop
abajo_loop-Returns zero u t le lt fit = (t, refl, refl)
abajo_loop-Returns (suc n) u t le lt fit =
    let (src, e) = get_elem?_total t.elements (u - 1) (omega arith) in
    let (dst, e') = get_elem?_total t.elements u lt in
    let fits : leb src.item.nkey 60 ≡ true = ground (arith, fit (u - 1) src e) in
    let size = length-set t.elements u (moved src dst) in
    let (t', h, size') =
      abajo_loop-Returns n (u - 1) (record t { elements = set t.elements u (moved src dst) })
        (omega arith) (omega (arith, size))
        (KeysFit-set t.elements u (moved src dst) fit (fit (u - 1) src e)) in
    (t', rw (e, e', fits) h, size' ∙ size)

desplazar_abajo-Returns :
    (t : TableInfo) (pos disponibles : ℕ)
    → 0 < pos
    → pos < length t.elements
    → KeysFit t.elements
    → Returns t (desplazar_abajo t pos disponibles)
unfolding desplazar_abajo
desplazar_abajo-Returns t pos disponibles above lt fit =
    let last = length t.elements - 1 in
    table_then t t _ _ (abajo_loop-Returns (last - pos) last t (omega arith) (omega arith) fit)
      (λ t₁ size. read_then t t₁ pos _ (omega (arith, size)) (λ p e.
        read_then t t₁ (pos - 1) _ (omega (arith, size))
          (λ prev e'. same_size t t₁ _ size (write-Returns t₁ pos _ (omega (arith, size))))))

set_inutilizados-Returns :
    (t : TableInfo) (pos n : ℕ) → pos < length t.elements → Returns t (set_inutilizados t pos n)
unfolding set_inutilizados
set_inutilizados-Returns t pos n lt = read_then t t pos _ lt (λ p e. write-Returns t pos _ lt)

give_next-Returns :
    (t : TableInfo) (pos n : ℕ) → pos < length t.elements → Returns t (give_next t pos n)
unfolding give_next
give_next-Returns t pos n lt = read_then t t pos _ lt (λ p e. write-Returns t pos _ lt)

set_next_data-Returns :
    (t : TableInfo) (pos n : ℕ) → pos < length t.elements → Returns t (set_next_data t pos n)
unfolding set_next_data
set_next_data-Returns t pos n lt = read_then t t pos _ lt (λ p e. write-Returns t pos _ lt)

create_before_used-Returns :
    (t : TableInfo) (pos chunk n : ℕ)
    → pos + 1 < length t.elements
    → KeysFit t.elements
    → Returns t (create_before_used t pos chunk n)
unfolding create_before_used
create_before_used-Returns t pos chunk n lt fit = elim (Bool-cases (leb chunk n)) [
  | inl b ↦ rw b (desplazar_abajo-Returns t (pos + 1) n (omega arith) lt fit)
  | inr b ↦ rw b (set_inutilizados-Returns t pos n (omega arith))
]

create_before_free-Returns :
    (t : TableInfo) (pos chunk n ptr : ℕ)
    → pos + 1 < length t.elements
    → Returns t (create_before_free t pos chunk n ptr)
unfolding create_before_free
create_before_free-Returns t pos chunk n ptr lt =
    table_then t t _ _ (set_next_data-Returns t (pos + 1) ptr lt) (λ t₁ size.
      same_size t t₁ _ size (elim (Bool-cases (leb chunk n)) [
        | inl b ↦ rw b (give_next-Returns t₁ (pos + 1) n (omega (arith, size)))
        | inr b ↦ rw b (set_inutilizados-Returns t₁ pos n (omega (arith, size)))
      ]))

-- What an element takes is there, where its bytes and a smallest partition are.
taken_le : (chunk size bytes : ℕ) → size ≤ bytes → chunk ≤ bytes → taken_bytes chunk size ≤ bytes
taken_le chunk size bytes a b = ground (arith, a, b)

sub?_lem : (a b : ℕ) → b ≤ a → sub? a b ≡ some (a - b)
sub?_lem a b le = ground (arith, le)

take_bytes-Returns :
    (t : TableInfo) (p : Partition) (pos size chunk : ℕ)
    → pos + 1 < length t.elements
    → size ≤ p.bytes_disponibles
    → chunk ≤ p.bytes_disponibles
    → p.bytes_disponibles ≤ t.espacio_libre
    → KeysFit t.elements
    → Returns t (take_bytes t p pos size chunk)
unfolding take_bytes
take_bytes-Returns t p pos size chunk lt fits least space keys =
    let taken : taken_bytes chunk size ≤ p.bytes_disponibles = taken_le chunk size _ fits least in
    read_then t t (pos + 1) _ lt (λ next e.
      rw
        (
          sub?_lem t.espacio_libre (taken_bytes chunk size) (omega (arith, taken, space)),
          sub?_lem p.bytes_disponibles (taken_bytes chunk size) taken,
        )
        (elim (Bool-cases (next.ocupado)) [
          | inl u ↦ rw u (create_before_used-Returns _ pos chunk _ lt keys)
          | inr u ↦ rw u (create_before_free-Returns _ pos chunk _ _ lt)
        ]))

filled-Returns :
    (t : TableInfo) (p : Partition) (pos size chunk : ℕ)
    → pos + 1 < length t.elements
    → chunk ≤ p.bytes_disponibles
    → p.bytes_disponibles ≤ t.espacio_libre
    → KeysFit t.elements
    → Returns t (if leb size p.bytes_disponibles then take_bytes t p pos size chunk else some t)
filled-Returns t p pos size chunk lt least space keys =
    elim (Bool-cases (leb size p.bytes_disponibles)) [
      | inl b ↦ rw b (take_bytes-Returns t p pos size chunk lt (ground (arith, b)) least space keys)
      | inr b ↦ rw b (t, refl, refl)
    ]

create-Returns :
    (t : TableInfo) (key : List ℕ) (nkey pos size chunk now : ℕ) (p : Partition)
    → get_elem? t.elements pos ≡ some p
    → pos + 1 < length t.elements
    → chunk ≤ p.bytes_disponibles
    → p.bytes_disponibles ≤ t.espacio_libre
    → nkey ≤ 60
    → KeysFit t.elements
    → Returns t (micache_create_element t key nkey pos size chunk now)
unfolding micache_create_element
create-Returns t key nkey pos size chunk now p there lt least space short keys =
    let filled_t : TableInfo = record t {
      elements = set t.elements pos (filled key nkey size now p);
    } in
    let size₁ = length-set t.elements pos (filled key nkey size now p) in
    let fits : leb nkey 60 ≡ true = ground (arith, short) in
    let keys' = KeysFit-set t.elements pos (filled key nkey size now p) keys short in
    rw (there, fits)
      (table_then t t _ _
        (same_size t filled_t _ size₁
          (filled-Returns filled_t p pos size chunk (omega (arith, size₁)) least space keys'))
        (λ t₂ size₂. read_then t t₂ pos _ (omega (arith, size₂)) (λ q e.
          table_then t t₂ _ _ (write-Returns t₂ pos _ (omega (arith, size₂))) (λ t₃ size₃.
            (record t₃ { elements_amount = t₃.elements_amount + 1 }, refl, size₃ ∙ size₂)))))

-- At a place before the last, in a partition that is no smaller than the smallest and no larger than
-- `espacio_libre`, in a table whose keys fit their slots of 60 bytes, `micache_create_element` returns
-- with a key of at least `nkey` bytes that fits too: the new table has as many elements, and the one
-- at `pos` is used and has the key it was given.
pub micache_create_element_lem :
    (t : TableInfo) (key : List ℕ) (nkey pos size chunk now : ℕ) (p : Partition)
    → nkey ≤ length key
    → nkey ≤ 60
    → KeysFit t.elements
    → get_elem? t.elements pos ≡ some p
    → pos + 1 < table_max_size t
    → chunk ≤ p.bytes_disponibles
    → p.bytes_disponibles ≤ t.espacio_libre
    → (t' : TableInfo) × (micache_create_element t key nkey pos size chunk now ≡ some t')
      × (table_max_size t' ≡ table_max_size t)
      × HasKeyAt t' pos key nkey
micache_create_element_lem t key nkey pos size chunk now p le short keys there lt least space =
    let (t', h, same) =
      create-Returns t key nkey pos size chunk now p there lt least space short keys in
    (t', h, same, micache_create_element-HasKeyAt t t' key nkey pos size chunk now le h)
