-- ===== src/Cache/Buddy/Halving.antt =====
-- `buscarHueco` of the buddy system: which partition it finds, and how far it is halved.
use tpso_yanero_los_grosos.Base.{
  ℕ, zero, suc, ◌+◌, ◌-◌, ◌/◌, ◌<◌, ◌≤◌, ◌≡◌, refl, ◌∙◌, subst, ◌⊎◌, Option, some, inl, inr, arith,
  false, ◌&&◌, Bool-cases, ◌>>=◌, leb, length, length-set, get_elem?, set, get_elem?_total,
  get_elem?-set_self, get_elem?-set_ne,
}
use tpso_yanero_los_grosos.Cache.Table.{Partition, TableInfo}
use tpso_yanero_los_grosos.Cache.Fit.{joined}
use tpso_yanero_los_grosos.Cache.Buddy.{
  read_before, abajo_loop, partir, desplazar_uno_abajo, mitades_loop,
}

-- The table has as many elements as `t`, and the one at `i` holds `bytes`.
pub record HasBytes (t : TableInfo) (i bytes : ℕ) (t' : TableInfo) : Type 0 where
  pub same_size : length t'.elements ≡ length t.elements
  pub same_chunk : t'.size_chunk ≡ t.size_chunk
  pub element : Partition
  pub there : get_elem? t'.elements i ≡ some element
  pub bytes_there : element.bytes_disponibles ≡ bytes

-- Bytes that hold `ndata`, and whose half does not, or is less than a smallest partition.
abbrev pub IsTight : ℕ → ℕ → ℕ → Type 0
IsTight ndata chunk bytes = (ndata ≤ bytes) × ((bytes / 2 < ndata) ⊎ (bytes / 2 < chunk))

partir_lem :
    (t : TableInfo) (i bytes : ℕ)
    → i + 1 < length t.elements
    → (t' : TableInfo) × (partir t i bytes ≡ some t') × HasBytes t i bytes t'
unfolding partir
partir_lem t i bytes lt =
    let (p, e) = get_elem?_total t.elements i (omega arith) in
    let (q, e') = get_elem?_total t.elements (i + 1) lt in halves p q e e'
  where
    halves :
        (p q : Partition)
        → get_elem? t.elements i ≡ some p
        → get_elem? t.elements (i + 1) ≡ some q
        → (t' : TableInfo) × (partir t i bytes ≡ some t') × HasBytes t i bytes t'
    halves p q e e' =
        let p' : Partition = record p {
          bytes_disponibles = bytes;
          item = record (p.item) { data_ptr = q.item.data_ptr };
        } in
        let q' : Partition = record q {
          ocupado = false;
          bytes_disponibles = bytes;
          bytes_inutilizados = 0;
          item = record (q.item) { data_ptr = q.item.data_ptr + bytes };
        } in
        let ps = set t.elements i p' in
        let size = length-set t.elements i p' in
        let next : get_elem? ps (i + 1) ≡ some q =
          get_elem?-set_ne t.elements i (i + 1) p' (λ h. absurd (omega arith)) ∙ e' in
        (
          record t { elements = set ps (i + 1) q' },
          rw (e, e', next),
          record {
            same_size = length-set ps (i + 1) q' ∙ size;
            same_chunk = refl;
            element = p';
            there =
                get_elem?-set_ne ps (i + 1) i q' (λ h. absurd (omega arith))
                ∙ get_elem?-set_self t.elements i p' (omega arith);
            bytes_there = refl;
          },
        )

-- A table of the shape of `t`.
abbrev Shaped : TableInfo → Option TableInfo → Type 0
Shaped t r =
    (t' : TableInfo) × (r ≡ some t')
    × (length t'.elements ≡ length t.elements)
    × (t'.size_chunk ≡ t.size_chunk)

stop :
    (half ndata chunk : ℕ)
    → (leb ndata half && leb chunk half) ≡ false
    → (half < ndata) ⊎ (half < chunk)
stop half ndata chunk falta = elim (Bool-cases (leb ndata half)) [
  | inl cabe ↦ inr (ground (arith, cabe, falta))
  | inr falta₁ ↦ inl (ground (arith, falta₁))
]

read_before-total :
    (t : TableInfo) (i : ℕ)
    → 0 < i
    → i < length t.elements
    → (p : Partition) × (read_before t i ≡ some p)
unfolding read_before
read_before-total t zero pos lt = absurd (omega arith)
read_before-total t (suc i) pos lt = get_elem?_total t.elements i (omega arith)

abajo_loop-step :
    (n u : ℕ) (t : TableInfo) (src dst : Partition)
    → read_before t u ≡ some src
    → get_elem? t.elements u ≡ some dst
    → Shaped
        (record t { elements = set t.elements u (joined src dst) })
        (abajo_loop n (u - 1) (record t { elements = set t.elements u (joined src dst) }))
    → Shaped t (abajo_loop (suc n) u t)
unfolding abajo_loop
abajo_loop-step n u t src dst e e' (t', h, size, chunk) =
    (t', rw (e, e') h, size ∙ length-set t.elements u (joined src dst), chunk)

abajo_loop-Shaped :
    (n u : ℕ) (t : TableInfo) → n ≤ u → u < length t.elements → Shaped t (abajo_loop n u t)
unfolding abajo_loop
abajo_loop-Shaped zero u t le lt = (t, refl, refl, refl)
abajo_loop-Shaped (suc n) u t le lt =
    let (src, e) = read_before-total t u (omega arith) lt in
    let (dst, e') = get_elem?_total t.elements u lt in
    abajo_loop-step n u t src dst e e' (
      abajo_loop-Shaped n (u - 1) (record t { elements = set t.elements u (joined src dst) })
        (omega arith) (omega (arith, length-set t.elements u (joined src dst))))

-- One halving at a place between the first and the last leaves `part` bytes there.
desplazar_uno_abajo_lem :
    (t : TableInfo) (i part : ℕ)
    → 0 < i
    → i + 1 < length t.elements
    → (t' : TableInfo) × (desplazar_uno_abajo t i part ≡ some t') × HasBytes t i part t'
unfolding desplazar_uno_abajo
desplazar_uno_abajo_lem t i part behind lt = halve (
    abajo_loop-Shaped (length t.elements - i) (length t.elements - 1) t (omega arith) (omega arith))
  where
    halve :
        Shaped t (abajo_loop (length t.elements - i) (length t.elements - 1) t)
        → (t' : TableInfo) × ((do
          t₁ ← abajo_loop (length t.elements - i) (length t.elements - 1) t
          partir t₁ i part)
            ≡ some t')
          × HasBytes t i part t'
    halve (t₁, h, size, chunk) =
        let (t', h', b) = partir_lem t₁ i part (omega (arith, size)) in
        (
          t',
          rw h h',
          record {
            same_size = b.same_size ∙ size;
            same_chunk = b.same_chunk ∙ chunk;
            element = b.element;
            there = b.there;
            bytes_there = b.bytes_there;
          },
        )

-- The halving ends with tight bytes, on fuel above the half.
pub mitades_loop_lem :
    (fuel i bytes ndata : ℕ) (t : TableInfo) (p : Partition)
    → bytes / 2 < fuel
    → 0 < t.size_chunk
    → 0 < i
    → i + 1 < length t.elements
    → get_elem? t.elements i ≡ some p
    → p.bytes_disponibles ≡ bytes
    → ndata ≤ bytes
    → (t' : TableInfo) × (left : ℕ) × (mitades_loop fuel i (bytes / 2) ndata t ≡ some t')
      × HasBytes t i left t'
      × IsTight ndata t.size_chunk left
unfolding mitades_loop
mitades_loop_lem zero i bytes ndata t p enough pos behind lt e b le = absurd (omega arith)
mitades_loop_lem (suc fuel) i bytes ndata t p enough pos behind lt e b le =
    elim (Bool-cases (leb ndata (bytes / 2) && leb t.size_chunk (bytes / 2))) [
      | inl cabe ↦
          let fits : ndata ≤ bytes / 2 = ground (arith, cabe) in
          let big : t.size_chunk ≤ bytes / 2 = ground (arith, cabe) in
          let (t₁, h, s) = desplazar_uno_abajo_lem t i (bytes / 2) behind lt in
          let (t', left, h', s', tight) =
            mitades_loop_lem fuel i (bytes / 2) ndata t₁ s.element (omega (arith, pos, big, enough))
              (omega (arith, s.same_chunk, pos)) behind (omega (arith, s.same_size, lt)) s.there
              s.bytes_there fits in
          (
            t',
            left,
            rw (cabe, h) h',
            record {
              same_size = s'.same_size ∙ s.same_size;
              same_chunk = s'.same_chunk ∙ s.same_chunk;
              element = s'.element;
              there = s'.there;
              bytes_there = s'.bytes_there;
            },
            subst (λ c. IsTight ndata c left) s.same_chunk tight,
          )
      | inr falta ↦ (
        t,
        bytes,
        rw falta,
        record { same_size = refl; same_chunk = refl; element = p; there = e; bytes_there = b },
        (le, stop (bytes / 2) ndata t.size_chunk falta),
      )
    ]
