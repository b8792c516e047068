-- ===== src/Cache/Fit/Runs.antt =====
-- Runs of free partitions, and what `first_fit` finds.
use tpso_yanero_los_grosos.Base.{
  ℕ, ◌+◌, ◌<◌, ◌≤◌, ◌≡◌, refl, ap, sym, ◌∙◌, subst, false, ◌&&◌, not, List, [], ◌∷◌, ◌++◌, some,
  inl, inr, arith, Bool-cases, length, length-append, sum_by, ◌==◌,
}
use mathlib.Core.List.{append_assoc, append-nil}
use tpso_yanero_los_grosos.Cache.Table.{Partition}
use tpso_yanero_los_grosos.Cache.Dictionary.Cleaning.{AllFree}
use tpso_yanero_los_grosos.Cache.Fit.{Hueco, no_hueco, grow, first_step, fits, first_loop}

abbrev pub run_bytes : List Partition → ℕ
run_bytes = sum_by (λ p. p.bytes_disponibles)

-- Enough bytes for `size` and for the smallest partition.
abbrev pub IsEnough : ℕ → ℕ → ℕ → Type 0
IsEnough size chunk bytes = (size ≤ bytes) × (chunk ≤ bytes)

-- Somewhere in the array stands a run of free elements that holds enough bytes.
abbrev pub HasRun : ℕ → ℕ → List Partition → Type 0
HasRun size chunk ps =
    (before : List Partition) × (run : List Partition) × (after : List Partition) × (ps
      ≡ before ++ (run ++ after))
    × AllFree run
    × IsEnough size chunk (run_bytes run)

-- A run that the search is in: it starts at `pos_bytes` and holds `free_bytes_amount`.
pub record IsRun (h : Hueco) (before run : List Partition) : Type 0 where
  pub free : AllFree run
  pub bytes : run_bytes run ≡ h.free_bytes_amount
  pub start : 0 < h.pos_primero → h.pos_bytes ≡ length before
  pub nothing : h.pos_primero ≡ 0 → h.free_bytes_amount ≡ 0
  pub same_count : h.cant_vacios ≡ h.pos_primero
  pub count : h.cant_vacios ≤ length run

-- A run in the array, as the search reports it.
pub record IsRunOf (size chunk : ℕ) (h : Hueco) (ps : List Partition) : Type 0 where
  pub before : List Partition
  pub run : List Partition
  pub after : List Partition
  pub parts : ps ≡ before ++ (run ++ after)
  pub is_run : IsRun h before run
  pub enough : IsEnough size chunk h.free_bytes_amount

run_bytes-append : (xs ys : List Partition) → run_bytes (xs ++ ys) ≡ run_bytes xs + run_bytes ys
run_bytes-append [] ys = omega arith
run_bytes-append (x ∷ xs) ys = omega (arith, run_bytes-append xs ys)

AllFree-append : (xs ys : List Partition) → AllFree xs → AllFree ys → AllFree (xs ++ ys)
AllFree-append [] ys a b = b
AllFree-append (x ∷ xs) ys a b = (a.0, AllFree-append xs ys a.1 b)

-- One round of the search: where the run stands after the element `p`.
abbrev Advance : Hueco → List Partition → List Partition → Partition → Type 0
Advance h before run p =
    (before' : List Partition) × (run' : List Partition) × (before ++ (run ++ p ∷ [])
      ≡ before' ++ run')
    × IsRun h before' run'

extend :
    (i : ℕ) (h : Hueco) (before run : List Partition) (p : Partition)
    → i ≡ length before + length run
    → IsRun h before run
    → p.ocupado ≡ false
    → (p.bytes_disponibles == 0) ≡ false
    → Advance (grow i h p) before run p
extend i h before run p e r used some_bytes = elim (Bool-cases ((h.pos_primero + 1) == 1)) [
  | inl first ↦ (
    before ++ run,
    p ∷ [],
    sym (append_assoc before run (p ∷ [])),
    record {
      free = (used, tt);
      bytes = ground (arith, r.nothing);
      start = λ more. ground (arith, length-append before run);
      nothing = λ bad. ground arith;
      same_count = omega (arith, r.same_count);
      count = ground (arith, r.same_count);
    },
  )
  | inr later ↦ (
    before,
    run ++ p ∷ [],
    refl,
    record {
      free = AllFree-append run (p ∷ []) r.free (used, tt);
      bytes = ground (arith, run_bytes-append run (p ∷ []), r.bytes);
      start = λ more. ground (arith, r.start);
      nothing = λ bad. ground arith;
      same_count = omega (arith, r.same_count);
      count = omega (arith, length-append run (p ∷ []), r.count);
    },
  )
]

restart :
    (h : Hueco) (before run : List Partition) (p : Partition)
    → h.pos_primero ≡ 0
    → h.cant_vacios ≡ 0
    → h.free_bytes_amount ≡ 0
    → Advance h before run p
restart h before run p e c b = (
  before ++ (run ++ p ∷ []),
  [],
  sym (append-nil _),
  record {
    free = tt;
    bytes = omega arith;
    start = λ more. absurd (omega arith);
    nothing = λ none_yet. b;
    same_count = omega arith;
    count = omega arith;
  },
)

pass :
    (h : Hueco) (before run : List Partition) (p : Partition)
    → IsRun h before run
    → p.ocupado ≡ false
    → p.bytes_disponibles ≡ 0
    → Advance h before run p
pass h before run p r used no_bytes = (
  before,
  run ++ p ∷ [],
  refl,
  record {
    free = AllFree-append run (p ∷ []) r.free (used, tt);
    bytes = omega (arith, run_bytes-append run (p ∷ []), r.bytes);
    start = r.start;
    nothing = r.nothing;
    same_count = r.same_count;
    count = omega (arith, length-append run (p ∷ []), r.count);
  },
)

first_step_lem :
    (i : ℕ) (h : Hueco) (before run : List Partition) (p : Partition)
    → i ≡ length before + length run
    → IsRun h before run
    → Advance (first_step i h p) before run p
first_step_lem i h before run p e r = elim (Bool-cases p.ocupado) [
  | inl used ↦ go (no_hueco h.pos_bytes) (ground arith) (restart _ before run p refl refl refl)
  | inr free ↦ elim (Bool-cases (p.bytes_disponibles == 0)) [
    | inl empty ↦ go h (ground arith) (pass h before run p r free (ground arith))
    | inr some_bytes ↦ go (grow i h p) (ground arith) (extend i h before run p e r free some_bytes)
  ]
]
  where
    go :
        (h' : Hueco)
        → first_step i h p ≡ h'
        → Advance h' before run p
        → Advance (first_step i h p) before run p
    go h' e' a = subst (λ x. Advance x before run p) (sym e') a

-- The search reports a run of the array.
pub first_loop-some :
    (size chunk i : ℕ) (h h' : Hueco) (before run ps : List Partition)
    → i ≡ length before + length run
    → IsRun h before run
    → first_loop size chunk i h ps ≡ some h'
    → IsRunOf size chunk h' (before ++ (run ++ ps))
unfolding first_loop
first_loop-some size chunk i h h' before run [] e r found = cc
first_loop-some size chunk i h h' before run (p ∷ ps) e r found =
    let (before', run', parts, r') = first_step_lem i h before run p e r in
    let h₁ = first_step i h p in
    let shape : before ++ (run ++ p ∷ ps) ≡ before' ++ (run' ++ ps) = regroup before' run' parts in
    elim (Bool-cases (not p.ocupado && fits size chunk h₁)) [
      | inl stop ↦
          let same : h₁ ≡ h' = ground arith in
          record {
            before = before';
            run = run';
            after = ps;
            parts = shape;
            is_run = subst (λ x. IsRun x before' run') same r';
            enough =
                subst (λ (x : Hueco). IsEnough size chunk x.free_bytes_amount) same (ground arith);
          }
      | inr go_on ↦ subst (IsRunOf size chunk h') (sym shape) (
          first_loop-some size chunk (i + 1) h₁ h' before' run' ps (next before' run' parts) r'
            (ground arith))
    ]
  where
    regroup :
        (before' run' : List Partition)
        → before ++ (run ++ p ∷ []) ≡ before' ++ run'
        → before ++ (run ++ p ∷ ps) ≡ before' ++ (run' ++ ps)
    regroup before' run' parts =
        ap (λ xs. before ++ xs) (sym (append_assoc run (p ∷ []) ps))
        ∙ sym (append_assoc before (run ++ p ∷ []) ps)
        ∙ ap (λ xs. xs ++ ps) parts
        ∙ append_assoc before' run' ps

    next :
        (before' run' : List Partition)
        → before ++ (run ++ p ∷ []) ≡ before' ++ run'
        → i + 1 ≡ length before' + length run'
    next before' run' parts = omega (
      arith,
      ap length parts,
      length-append before (run ++ p ∷ []),
      length-append run (p ∷ []),
      length-append before' run',
    )
