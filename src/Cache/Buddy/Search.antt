-- ===== src/Cache/Buddy/Search.antt =====
-- `buscarHueco` of the buddy system: the first free partition that is large enough, halved.
use tpso_yanero_los_grosos.Base.{
  ℕ, zero, suc, ◌+◌, ◌-◌, ◌/◌, set, length-set, if◌then◌else◌, true, ◌<◌, ◌≤◌, ◌≡◌, refl, ap, sym,
  ◌∙◌, ◌⊎◌, List, Option, none, some, inl, inr, arith, Bool, false, ◌&&◌, not, Bool-cases, ltb, leb,
  length, get_elem?, get_elem?_total, lt_of_get_elem?,
}
use tpso_yanero_los_grosos.Cache.Table.{Partition, TableInfo, table_max_size}
use tpso_yanero_los_grosos.Cache.Fit.{Found, joined}
use tpso_yanero_los_grosos.Cache.Buddy.{
  hueco_loop, buscar_hueco, mitades_loop, read_before, abajo_loop, desplazar_uno_abajo,
}
use tpso_yanero_los_grosos.Cache.Buddy.Halving.{HasBytes, IsTight, mitades_loop_lem}

at_or_after : (i j : ℕ) → i ≤ j → (i ≡ j) ⊎ (i + 1 ≤ j)
at_or_after i j le = elim (Bool-cases (ltb i j)) [
  | inl t ↦ inr (ground (arith, t))
  | inr f ↦ inl (ground (arith, f, le))
]

miss_here :
    (f : Partition → Bool) (ps : List Partition) (i j : ℕ) (p q : Partition)
    → get_elem? ps i ≡ some p
    → get_elem? ps j ≡ some q
    → i ≡ j
    → f p ≡ false
    → f q ≡ false
miss_here f ps i j p q g at same miss =
    let e : some p ≡ some q = sym g ∙ ap (get_elem? ps) same ∙ at in cc

-- What the search answers over the places from `i` on: -1, the table unchanged and no free partition
-- there large enough; or the first such partition, halved until it is tight.
abbrev pub Halved : TableInfo → ℕ → ℕ → Option Found → Type 0
Halved t ndata i r =
    ((r ≡ some (none, t))
      × ((j : ℕ) (p : Partition)
          → i ≤ j
          → get_elem? t.elements j ≡ some p
          → (not p.ocupado && leb ndata p.bytes_disponibles) ≡ false))
    ⊎ ((pos : ℕ) × (t' : TableInfo) × (left : ℕ) × (p : Partition) × (r ≡ some (some pos, t'))
        × (get_elem? t.elements pos ≡ some p)
        × (p.ocupado ≡ false)
        × HasBytes t pos left t'
        × IsTight ndata t.size_chunk left
        × ((j : ℕ) (q : Partition)
            → i ≤ j
            → j < pos
            → get_elem? t.elements j ≡ some q
            → (not q.ocupado && leb ndata q.bytes_disponibles) ≡ false))

hueco_loop-step :
    (n i ndata : ℕ) (t : TableInfo) (p : Partition)
    → get_elem? t.elements i ≡ some p
    → 0 < t.size_chunk
    → ((j : ℕ) (q : Partition)
        → get_elem? t.elements j ≡ some q
        → q.ocupado ≡ false
        → ndata ≤ q.bytes_disponibles
        → (0 < j) × (j + 1 < length t.elements))
    → Halved t ndata (i + 1) (hueco_loop n (i + 1) ndata t)
    → Halved t ndata i (hueco_loop (suc n) i ndata t)
unfolding hueco_loop
hueco_loop-step n i ndata t p g pos room later =
    elim (Bool-cases (not p.ocupado && leb ndata p.bytes_disponibles)) [
      | inl here ↦
          let free : p.ocupado ≡ false = ground (arith, here) in
          let fits : ndata ≤ p.bytes_disponibles = ground (arith, here) in
          let (t', left, h, s, tight) =
            mitades_loop_lem (p.bytes_disponibles + 1) i p.bytes_disponibles ndata t p (omega arith)
              pos (room i p g free fits).0 (room i p g free fits).1 g refl fits in
          inr
            (i, t', left, p, rw (g, here, h), g, free, s, tight, λ j q le lt. absurd (omega arith))
      | inr miss ↦ elim later [
        | inl (e, nothing) ↦ inl (
          rw (g, miss) e,
          λ j q le at. elim (at_or_after i j le) [
            | inl same ↦
                miss_here (λ x. not x.ocupado && leb ndata x.bytes_disponibles) t.elements i j p q g
                  at same miss
            | inr after ↦ nothing j q after at
          ],
        )
        | inr (k, t', left, q, e, at, free, s, tight, first) ↦ inr (
          k,
          t',
          left,
          q,
          rw (g, miss) e,
          at,
          free,
          s,
          tight,
          λ j q' le lt at'. elim (at_or_after i j le) [
            | inl same ↦
                miss_here (λ x. not x.ocupado && leb ndata x.bytes_disponibles) t.elements i j p q'
                  g at' same miss
            | inr after ↦ first j q' after lt at'
          ],
        )
      ]
    ]

-- The array is searched from `i` on.
hueco_loop_lem :
    (n i ndata : ℕ) (t : TableInfo)
    → i + n ≡ length t.elements
    → 0 < t.size_chunk
    → ((j : ℕ) (p : Partition)
        → get_elem? t.elements j ≡ some p
        → p.ocupado ≡ false
        → ndata ≤ p.bytes_disponibles
        → (0 < j) × (j + 1 < length t.elements))
    → Halved t ndata i (hueco_loop n i ndata t)
unfolding hueco_loop
hueco_loop_lem zero i ndata t e pos room =
    inl (refl, λ j p le h. absurd (omega (arith, lt_of_get_elem? t.elements j p h)))
hueco_loop_lem (suc n) i ndata t e pos room =
    let (p, g) = get_elem?_total t.elements i (omega arith) in
    hueco_loop-step n i ndata t p g pos room
      (hueco_loop_lem n (i + 1) ndata t (omega arith) pos room)

-- Where the chunk is at least one byte and every free partition of `ndata` bytes stands between the
-- first and the last place, `buscarHueco` returns. Either it answers -1 with the table unchanged, and no free
-- partition has `ndata` bytes; or it gives the place of the first one that has, where there are then
-- at least `ndata` bytes, of which the half is below `ndata` or below the chunk.
pub buscar_hueco_lem :
    (t : TableInfo) (ndata : ℕ)
    → 0 < t.size_chunk
    → ((j : ℕ) (p : Partition)
        → get_elem? t.elements j ≡ some p
        → p.ocupado ≡ false
        → ndata ≤ p.bytes_disponibles
        → (0 < j) × (j + 1 < table_max_size t))
    → Halved t ndata 0 (buscar_hueco t ndata)
unfolding buscar_hueco
buscar_hueco_lem t ndata pos room =
    hueco_loop_lem (length t.elements) 0 ndata t (omega arith) pos room

-- At the place 0, the last round of the loop reads the element before the array.
abajo_loop-first : (u : ℕ) (t : TableInfo) → u < length t.elements → abajo_loop (suc u) u t ≡ none
unfolding abajo_loop read_before
abajo_loop-first zero t lt = refl
abajo_loop-first (suc u) t lt =
    let (src, e) = get_elem?_total t.elements u (omega arith) in
    let (dst, e') = get_elem?_total t.elements (suc u) lt in
    let ps = set t.elements (suc u) (joined src dst) in
    let rest =
      abajo_loop-first u (record t { elements = ps })
        (omega (arith, length-set t.elements (suc u) (joined src dst))) in
    let back : suc u - 1 ≡ u = omega arith in rw (e, e', back) rest

desplazar_uno_abajo-first :
    (t : TableInfo) (part : ℕ) → 0 < length t.elements → desplazar_uno_abajo t 0 part ≡ none
unfolding desplazar_uno_abajo
desplazar_uno_abajo-first t part lt =
    let rounds : length t.elements - 0 ≡ suc (length t.elements - 1) = omega arith in
    rw (rounds, abajo_loop-first (length t.elements - 1) t (omega arith)) refl

-- Where the first element is free and has `ndata` bytes, `buscarHueco` gives its place and leaves the
-- table if the half of its bytes is below `ndata` or below the chunk; otherwise the halving reads the
-- element before the array, a fault.
pub buscar_hueco-first :
    (t : TableInfo) (ndata : ℕ) (p : Partition)
    → get_elem? t.elements 0 ≡ some p
    → p.ocupado ≡ false
    → ndata ≤ p.bytes_disponibles
    → buscar_hueco t ndata ≡ (
        if leb ndata (p.bytes_disponibles / 2) && leb t.size_chunk (p.bytes_disponibles / 2)
        then none
        else some (some 0, t))
unfolding buscar_hueco hueco_loop mitades_loop
buscar_hueco-first t ndata p e free fits =
    let lt : 0 < length t.elements = lt_of_get_elem? t.elements 0 p e in
    let rounds : length t.elements ≡ suc (length t.elements - 1) = omega arith in
    let test : leb ndata p.bytes_disponibles ≡ true = ground (arith, fits) in
    let fuel : p.bytes_disponibles + 1 ≡ suc p.bytes_disponibles = omega arith in
    let half = p.bytes_disponibles / 2 in
    elim (Bool-cases (leb ndata half && leb t.size_chunk half)) [
      | inl b ↦ rw (rounds, e, free, test, fuel, b, desplazar_uno_abajo-first t half lt) refl
      | inr b ↦ rw (rounds, e, free, test, fuel, b) refl
    ]
