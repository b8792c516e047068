-- ===== src/Cache/Fit/Joining.antt =====
-- The joining of a run of free partitions, `juntar`.
use tpso_yanero_los_grosos.Base.{
  ℕ, zero, suc, ◌+◌, ◌-◌, ◌<◌, ◌≤◌, ◌≡◌, refl, ◌∙◌, ◌≢◌, false, Option, some, inl, inr, arith,
  Bool-cases, get_elem?, set, length, length-set, get_elem?_total, lt_of_get_elem?,
  get_elem?-set_self, get_elem?-set_ne, ltb,
}
use tpso_yanero_los_grosos.Cache.Table.{Partition, TableInfo, table_max_size}
use tpso_yanero_los_grosos.Cache.Fit.{
  joined, juntar_particiones_vacias, juntar_loop, vaciar_loop, recorrer, juntar,
}

-- `t'` has as many elements as `t`, and the same ones up to `pos`.
pub record SameUpTo (pos : ℕ) (t t' : TableInfo) : Type 0 where
  pub size : length t'.elements ≡ length t.elements
  pub same : get_elem? t'.elements pos ≡ get_elem? t.elements pos

SameUpTo-refl : (pos : ℕ) (t : TableInfo) → SameUpTo pos t t
SameUpTo-refl pos t = record { size = refl; same = refl }

SameUpTo-trans :
    (pos : ℕ) (t u v : TableInfo) → SameUpTo pos t u → SameUpTo pos u v → SameUpTo pos t v
SameUpTo-trans pos t u v a b = record { size = b.size ∙ a.size; same = b.same ∙ a.same }

-- A read in range followed by a write elsewhere.
write_SameUpTo :
    (pos i : ℕ) (t : TableInfo) (p : Partition)
    → i ≢ pos
    → SameUpTo pos t (record t { elements = set t.elements i p })
write_SameUpTo pos i t p ne = record {
  size = length-set t.elements i p;
  same = get_elem?-set_ne t.elements i pos p ne;
}

-- A loop that gives a table and leaves the elements up to `pos` alone.
abbrev Leaves : ℕ → TableInfo → Option TableInfo → Type 0
Leaves pos t r = (t' : TableInfo) × (r ≡ some t') × SameUpTo pos t t'

vaciar_loop-Leaves :
    (n i pos : ℕ) (t : TableInfo)
    → pos < i
    → i + n ≤ length t.elements
    → Leaves pos t (vaciar_loop n i t)
unfolding vaciar_loop
vaciar_loop-Leaves zero i pos t lt le = (t, refl, SameUpTo-refl pos t)
vaciar_loop-Leaves (suc n) i pos t lt le =
    let (p, e) = get_elem?_total t.elements i (omega arith) in
    let q : Partition = record p { ocupado = false; bytes_disponibles = 0 } in
    let t₁ : TableInfo = record t { elements = set t.elements i q } in
    let (t', h, s) =
      vaciar_loop-Leaves n (i + 1) pos t₁ (omega arith)
        (omega (arith, length-set t.elements i q)) in
    (t', rw e h, SameUpTo-trans pos t t₁ t' (write_SameUpTo pos i t q (omega arith)) s)

juntar_loop-Leaves :
    (n i cant pos : ℕ) (t : TableInfo)
    → pos + cant ≤ i
    → 1 < cant
    → i + n ≤ length t.elements
    → Leaves pos t (juntar_loop n i cant t)
unfolding juntar_loop juntar_particiones_vacias
juntar_loop-Leaves zero i cant pos t lt c le = (t, refl, SameUpTo-refl pos t)
juntar_loop-Leaves (suc n) i cant pos t lt c le =
    let (src, e) = get_elem?_total t.elements i (omega arith) in
    let (dst, e') = get_elem?_total t.elements (i + 1 - cant) (omega arith) in
    let q : Partition = joined src dst in
    let t₁ : TableInfo = record t { elements = set t.elements (i + 1 - cant) q } in
    let (t', h, s) =
      juntar_loop-Leaves n (i + 1) cant pos t₁ (omega arith) c
        (omega (arith, length-set t.elements (i + 1 - cant) q)) in
    (
      t',
      rw (e, e') h,
      SameUpTo-trans pos t t₁ t' (write_SameUpTo pos (i + 1 - cant) t q (omega arith)) s,
    )

recorrer-Leaves :
    (pos cant : ℕ) (t : TableInfo)
    → 1 < cant
    → pos + cant ≤ length t.elements
    → Leaves pos t (recorrer t pos cant)
unfolding recorrer
recorrer-Leaves pos cant t c le =
    let (t₁, h₁, s₁) = vaciar_loop-Leaves (cant - 1) (pos + 1) pos t (omega arith) (omega arith) in
    let (t₂, h₂, s₂) =
      juntar_loop-Leaves (table_max_size t - 1 - (pos + cant)) (pos + cant) cant pos t₁
        (omega arith) c (omega (arith, s₁.size)) in
    (t₂, rw h₁ h₂, SameUpTo-trans pos t t₁ t₂ s₁ s₂)

-- A run that lies in the array is joined without a fault: its first element keeps all but its
-- bytes, of which it gets those of the run, and the array keeps its length.
pub juntar_lem :
    (pos cant bytes : ℕ) (t : TableInfo) (p : Partition)
    → get_elem? t.elements pos ≡ some p
    → pos + cant ≤ length t.elements
    → (t' : TableInfo) × (juntar t pos cant bytes ≡ some t')
      × (get_elem? t'.elements pos ≡ some (record p { bytes_disponibles = bytes }))
      × (length t'.elements ≡ length t.elements)
unfolding juntar
juntar_lem pos cant bytes t p e le =
    let q : Partition = record p { bytes_disponibles = bytes } in
    let t₁ : TableInfo = record t { elements = set t.elements pos q } in
    let at = get_elem?-set_self t.elements pos q (lt_of_get_elem? t.elements pos p e) in
    let size = length-set t.elements pos q in
    elim (Bool-cases (ltb 1 cant)) [
      | inl more ↦
          let (t', h, s) = recorrer-Leaves pos cant t₁ (ground arith) (omega (arith, size)) in
          (t', rw (e, more) h, s.same ∙ at, s.size ∙ size)
      | inr one ↦ (t₁, rw (e, one), at, size)
    ]
