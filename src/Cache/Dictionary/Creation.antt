-- ===== src/Cache/Dictionary/Creation.antt =====
-- What the creation of an element does to the table.
use tpso_yanero_los_grosos.Base.{
  ℕ, zero, suc, ◌+◌, ◌-◌, ◌<◌, ◌≤◌, ◌≡◌, refl, ap, ◌∙◌, ◌≢◌, true, List, [], ◌∷◌, ◌++◌, some, inl,
  inr, arith, Bool-cases, get_elem?, length, take, drop, if◌then◌else◌, leb, bytes_eq_refl,
  get_elem?-set_self, get_elem?-set_ne, lt_of_get_elem?, >>=-eq-some, sub?,
}
use tpso_yanero_los_grosos.Cache.Table.{
  Partition, TableInfo, read, write, table_max_size, cabe_clave,
}
use tpso_yanero_los_grosos.Cache.Dictionary.{
  same_key, filled, taken_bytes, micache_create_element, take_bytes, create_before_used,
  create_before_free, set_inutilizados, give_next, set_next_data, desplazar_abajo, abajo_loop,
  moved,
}

-- The first `n` bytes of a buffer after `memcpy` of `n` bytes.
pub take-copy_key :
    (n : ℕ) (src rest : List ℕ) → n ≤ length src → take n (take n src ++ rest) ≡ take n src
take-copy_key zero src rest h = refl
take-copy_key (suc n) [] rest h = elim h [ ]
take-copy_key (suc n) (x ∷ src) rest h = ap (◌∷◌ x) (take-copy_key n src rest (omega arith))

-- The element at `pos` is used and has the key.
abbrev pub HasKeyAt : TableInfo → ℕ → List ℕ → ℕ → Type 0
HasKeyAt t pos key nkey =
    (p : Partition) × (get_elem? t.elements pos ≡ some p)
    × (p.ocupado ≡ true)
    × (same_key key nkey p.item ≡ true)

-- A write elsewhere, and a write at the place, in the form that the chains of the code have.
pub write_ne :
    (t t' : TableInfo) (i pos : ℕ) (p : Partition)
    → write t i p ≡ some t'
    → i ≢ pos
    → get_elem? t'.elements pos ≡ get_elem? t.elements pos
write_ne t t' i pos p h ne = ground (arith, get_elem?-set_ne t.elements i pos p)

pub write_self :
    (t t' : TableInfo) (pos : ℕ) (p : Partition)
    → write t pos p ≡ some t'
    → get_elem? t'.elements pos ≡ some p
write_self t t' pos p h =
    let (q, e, _) = >>=-eq-some (read t pos) _ h in
    ground (arith, get_elem?-set_self t.elements pos p, lt_of_get_elem? t.elements pos q e)

abajo_loop-below :
    (n u : ℕ) (t t' : TableInfo) (pos : ℕ)
    → abajo_loop n u t ≡ some t'
    → (0 < n → pos + n ≤ u)
    → get_elem? t'.elements pos ≡ get_elem? t.elements pos
unfolding abajo_loop
abajo_loop-below zero u t t' pos h le = ground arith
abajo_loop-below (suc n) u t t' pos h le =
    let (src, _, h₁) = >>=-eq-some (read t (u - 1)) _ h in
    let (dst, _, h₂) = >>=-eq-some (read t u) _ h₁ in
    let (_, _, h₂') = >>=-eq-some (cabe_clave src.item.nkey) _ h₂ in
    let (t₁, w, h₃) = >>=-eq-some (write t u (moved src dst)) _ h₂' in
    abajo_loop-below n (u - 1) t₁ t' pos h₃ (λ more. omega (arith, le (omega arith)))
    ∙ write_ne t t₁ u pos (moved src dst) w (omega (arith, le (omega arith)))

desplazar_abajo-below :
    (t t' : TableInfo) (pos disponibles : ℕ)
    → desplazar_abajo t (pos + 1) disponibles ≡ some t'
    → get_elem? t'.elements pos ≡ get_elem? t.elements pos
unfolding desplazar_abajo
desplazar_abajo-below t t' pos d h =
    let (t₁, h₁, k₁) = >>=-eq-some (abajo_loop (table_max_size t - 1 - (pos + 1)) _ t) _ h in
    let (p, _, k₂) = >>=-eq-some (read t₁ (pos + 1)) _ k₁ in
    let (q, _, k₃) = >>=-eq-some (read t₁ (pos + 1 - 1)) _ k₂ in
    write_ne t₁ t' (pos + 1) pos _ k₃ (omega arith) ∙ below h₁
  where
    below :
        {t₁ : TableInfo}
        → abajo_loop (table_max_size t - 1 - (pos + 1)) (table_max_size t - 1) t ≡ some t₁
        → get_elem? t₁.elements pos ≡ get_elem? t.elements pos
    below {t₁} h₁ = abajo_loop-below _ _ t t₁ pos h₁ (λ more. omega arith)

module _ (pos : ℕ) (key : List ℕ) (nkey : ℕ) where
  HasKeyAt-same :
      (t t' : TableInfo)
      → get_elem? t'.elements pos ≡ get_elem? t.elements pos
      → HasKeyAt t pos key nkey
      → HasKeyAt t' pos key nkey
  HasKeyAt-same t t' e (p, g, u, k) = (p, e ∙ g, u, k)

  set_inutilizados-HasKeyAt :
      (t t' : TableInfo) (d : ℕ)
      → set_inutilizados t pos d ≡ some t'
      → HasKeyAt t pos key nkey
      → HasKeyAt t' pos key nkey
  unfolding set_inutilizados
  set_inutilizados-HasKeyAt t t' d h (p, g, u, k) =
      let (q, e, w) = >>=-eq-some (read t pos) _ h in
      let same : p ≡ q = cc in
      (record q { bytes_inutilizados = d }, write_self t t' pos _ w, rw (← same) u, rw (← same) k)

  set_next_data-HasKeyAt :
      (t t' : TableInfo) (d : ℕ)
      → set_next_data t (pos + 1) d ≡ some t'
      → HasKeyAt t pos key nkey
      → HasKeyAt t' pos key nkey
  unfolding set_next_data
  set_next_data-HasKeyAt t t' d h =
      let (q, e, w) = >>=-eq-some (read t (pos + 1)) _ h in
      HasKeyAt-same t t' (write_ne t t' (pos + 1) pos _ w (omega arith))

  give_next-HasKeyAt :
      (t t' : TableInfo) (d : ℕ)
      → give_next t (pos + 1) d ≡ some t'
      → HasKeyAt t pos key nkey
      → HasKeyAt t' pos key nkey
  unfolding give_next
  give_next-HasKeyAt t t' d h =
      let (q, e, w) = >>=-eq-some (read t (pos + 1)) _ h in
      HasKeyAt-same t t' (write_ne t t' (pos + 1) pos _ w (omega arith))

  create_before_used-HasKeyAt :
      (t t' : TableInfo) (chunk d : ℕ)
      → create_before_used t pos chunk d ≡ some t'
      → HasKeyAt t pos key nkey
      → HasKeyAt t' pos key nkey
  unfolding create_before_used
  create_before_used-HasKeyAt t t' chunk d h k = elim (Bool-cases (leb chunk d)) [
    | inl b ↦ HasKeyAt-same t t' (desplazar_abajo-below t t' pos d (ground arith)) k
    | inr b ↦ set_inutilizados-HasKeyAt t t' d (ground arith) k
  ]

  create_before_free-HasKeyAt :
      (t t' : TableInfo) (chunk d data_ptr : ℕ)
      → create_before_free t pos chunk d data_ptr ≡ some t'
      → HasKeyAt t pos key nkey
      → HasKeyAt t' pos key nkey
  unfolding create_before_free
  create_before_free-HasKeyAt t t' chunk d data_ptr h k =
      let (t₁, h₁, k₁) = >>=-eq-some (set_next_data t (pos + 1) data_ptr) _ h in
      let k' = set_next_data-HasKeyAt t t₁ data_ptr h₁ k in
      elim (Bool-cases (leb chunk d)) [
        | inl b ↦ give_next-HasKeyAt t₁ t' d (ground arith) k'
        | inr b ↦ set_inutilizados-HasKeyAt t₁ t' d (ground arith) k'
      ]

  take_bytes-HasKeyAt :
      (t t' : TableInfo) (p : Partition) (size chunk : ℕ)
      → take_bytes t p pos size chunk ≡ some t'
      → HasKeyAt t pos key nkey
      → HasKeyAt t' pos key nkey
  unfolding take_bytes
  take_bytes-HasKeyAt t t' p size chunk h k =
      let (next, _, k₁) = >>=-eq-some (read t (pos + 1)) _ h in
      let (e, _, k₂) = >>=-eq-some (sub? t.espacio_libre (taken_bytes chunk size)) _ k₁ in
      let (d, _, k₃) = >>=-eq-some (sub? p.bytes_disponibles (taken_bytes chunk size)) _ k₂ in
      let t₁ : TableInfo = record t { espacio_libre = e } in
      elim (Bool-cases next.ocupado) [
        | inl b ↦ create_before_used-HasKeyAt t₁ t' chunk d (ground arith) k
        | inr b ↦
            create_before_free-HasKeyAt t₁ t' chunk d (p.item.data_ptr + taken_bytes chunk size)
              (ground arith) k
      ]

-- Where `micache_create_element` returns, with a key of at least `nkey` bytes, the element at `pos` is
-- used and has the key it was given, wherever the rest of its partition went.
pub micache_create_element-HasKeyAt :
    (t t' : TableInfo) (key : List ℕ) (nkey pos size chunk now : ℕ)
    → nkey ≤ length key
    → micache_create_element t key nkey pos size chunk now ≡ some t'
    → HasKeyAt t' pos key nkey
unfolding micache_create_element
micache_create_element-HasKeyAt t t' key nkey pos size chunk now le h =
    let (p, g, h₁) = >>=-eq-some (read t pos) _ h in
    let (_, _, h₁') = >>=-eq-some (cabe_clave nkey) _ h₁ in
    let (t₁, w₁, h₂) = >>=-eq-some (write t pos (filled key nkey size now p)) _ h₁' in
    let (t₂, w₂, h₃) =
      >>=-eq-some (if leb size p.bytes_disponibles then take_bytes t₁ p pos size chunk else some t₁)
        _ h₂ in
    let (q, g₃, h₄) = >>=-eq-some (read t₂ pos) _ h₃ in
    let (t₃, w₄, h₅) = >>=-eq-some (write t₂ pos (record q { bytes_disponibles = 0 })) _ h₄ in
    let k₂ = middle p t₁ t₂ w₁ w₂ in
    let same : q ≡ k₂.0 = ground (arith, k₂.1) in
    let e : t' ≡ record t₃ { elements_amount = t₃.elements_amount + 1 } = ground arith in
    rw e (record q { bytes_disponibles = 0 }, write_self t₂ t₃ pos _ w₄, rw same k₂.2, rw same k₂.3)
  where
    middle :
        (p : Partition) (t₁ t₂ : TableInfo)
        → write t pos (filled key nkey size now p) ≡ some t₁
        → (if leb size p.bytes_disponibles then take_bytes t₁ p pos size chunk else some t₁)
          ≡ some t₂
        → HasKeyAt t₂ pos key nkey
    middle p t₁ t₂ w₁ w₂ = elim (Bool-cases (leb size p.bytes_disponibles)) [
      | inl b ↦ take_bytes-HasKeyAt pos key nkey t₁ t₂ p size chunk (ground arith) k₁
      | inr b ↦ HasKeyAt-same pos key nkey t₁ t₂ (ground arith) k₁
    ]
      where
        k₁ : HasKeyAt t₁ pos key nkey
        k₁ = (
          filled key nkey size now p,
          write_self t t₁ pos _ w₁,
          refl,
          ground (
            arith,
            take-copy_key nkey key (drop nkey p.item.key) le,
            bytes_eq_refl (take nkey key),
          ),
        )
