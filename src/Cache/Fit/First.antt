-- ===== src/Cache/Fit/First.antt =====
-- `first_fit` finds a run exactly where there is one.
use tpso_yanero_los_grosos.Base.{
  ℕ, ◌+◌, ◌<◌, ◌≤◌, ◌≡◌, refl, ap, ◌⊎◌, false, List, [], ◌∷◌, ◌++◌, none, some, inl, inr, arith,
  Bool-cases, Option-cases, get_elem?, length, length-append, ltb,
}
use tpso_yanero_los_grosos.Cache.Table.{Partition, TableInfo}
use tpso_yanero_los_grosos.Cache.Dictionary.Cleaning.{AllFree}
use tpso_yanero_los_grosos.Cache.Fit.{
  Hueco, no_hueco, first_step, fits, first_loop, found_at, first_fit,
}
use tpso_yanero_los_grosos.Cache.Fit.Joining.{juntar_lem}
use tpso_yanero_los_grosos.Cache.Fit.Runs.{
  run_bytes, IsEnough, HasRun, IsRun, IsRunOf, first_loop-some,
}

-- Where the loop reports nothing, no run that starts here has enough bytes, with those that the
-- search already has.
first_loop-none :
    (size chunk i : ℕ) (h : Hueco) (ps run after : List Partition)
    → first_loop size chunk i h ps ≡ none
    → ps ≡ run ++ after
    → AllFree run
    → 0 < length run
    → ¬ IsEnough size chunk (h.free_bytes_amount + run_bytes run)
unfolding first_loop
first_loop-none size chunk i h ps [] after e parts free some_run = absurd (omega arith)
first_loop-none size chunk i h [] (q ∷ run) after e parts free some_run = cc
first_loop-none size chunk i h (p ∷ ps) (q ∷ run) after e parts free some_run =
    let same : p ≡ q = cc in
    let tail : ps ≡ run ++ after = ground (arith, parts) in
    let free_p : p.ocupado ≡ false = rw same free.0 in
    let miss : fits size chunk (first_step i h p) ≡ false = ground arith in
    let rest : first_loop size chunk (i + 1) (first_step i h p) ps ≡ none = ground arith in
    let bytes : (first_step i h p).free_bytes_amount ≡ h.free_bytes_amount + q.bytes_disponibles =
      rw (← same) (ground arith) in
    elim (Bool-cases (ltb 0 (length run))) [
      | inl more ↦ λ enough.
          first_loop-none size chunk (i + 1) (first_step i h p) ps run after rest tail free.1
            (ground arith) (omega (arith, bytes, enough))
      | inr last ↦ λ enough. alone run last bytes miss enough
    ]
  where
    alone :
        (run' : List Partition)
        → ltb 0 (length run') ≡ false
        → (first_step i h p).free_bytes_amount ≡ h.free_bytes_amount + q.bytes_disponibles
        → fits size chunk (first_step i h p) ≡ false
        → ¬ IsEnough size chunk (h.free_bytes_amount + (q.bytes_disponibles + run_bytes run'))
    alone [] last bytes miss enough = ground (arith, bytes, enough)
    alone (x ∷ xs) last bytes miss enough = ground arith

no_run :
    (size chunk i : ℕ) (h : Hueco) (ps before run after : List Partition)
    → 0 < chunk
    → first_loop size chunk i h ps ≡ none
    → ps ≡ before ++ (run ++ after)
    → AllFree run
    → ¬ IsEnough size chunk (run_bytes run)
unfolding first_loop
no_run size chunk i h ps [] [] after pos e parts free enough = omega (arith, enough)
no_run size chunk i h ps [] (q ∷ run) after pos e parts free enough =
    first_loop-none size chunk i h ps (q ∷ run) after e parts free (omega arith)
      (omega (arith, enough))
no_run size chunk i h [] (b ∷ before) run after pos e parts free enough = cc
no_run size chunk i h (p ∷ ps) (b ∷ before) run after pos e parts free enough =
    no_run size chunk (i + 1) (first_step i h p) ps before run after pos (ground arith)
      (ground (arith, parts)) free enough

-- The first element of a run with bytes.
run_head :
    (before run after : List Partition)
    → AllFree run
    → 0 < run_bytes run
    → (p : Partition) × (get_elem? (before ++ (run ++ after)) (length before) ≡ some p)
      × (p.ocupado ≡ false)
run_head [] [] after f h = absurd (omega arith)
run_head [] (p ∷ run) after f h = (p, refl, f.0)
run_head (b ∷ before) run after f h = run_head before run after f h

-- What a successful search gives: the place of the first element of a run that has enough bytes,
-- which holds all the bytes of the run and is free; the array keeps its length.
pub record FirstFit (size : ℕ) (t : TableInfo) (pos : ℕ) (t' : TableInfo) : Type 0 where
  pub hueco : Hueco
  pub at : pos ≡ hueco.pos_bytes
  pub run_of : IsRunOf size t.size_chunk hueco t.elements
  pub element : Partition
  pub there : get_elem? t'.elements pos ≡ some element
  pub free : element.ocupado ≡ false
  pub bytes : element.bytes_disponibles ≡ hueco.free_bytes_amount
  pub same_size : length t'.elements ≡ length t.elements

found_run :
    (size : ℕ) (t : TableInfo) (h : Hueco)
    → 0 < t.size_chunk
    → IsRunOf size t.size_chunk h t.elements
    → (t' : TableInfo) × (found_at t (some h) ≡ some (some h.pos_bytes, t'))
      × FirstFit size t h.pos_bytes t'
unfolding found_at
found_run size t h pos r =
    let some_bytes : 0 < run_bytes r.run = omega (arith, r.enough, r.is_run.bytes) in
    let started : 0 < h.pos_primero = ground (arith, r.enough, r.is_run.nothing) in
    let start = r.is_run.start started in
    let (p, e, free) = run_head r.before r.run r.after r.is_run.free some_bytes in
    let here : get_elem? t.elements h.pos_bytes ≡ some p = rw (start, r.parts) e in
    let fits_in : h.pos_bytes + h.cant_vacios ≤ length t.elements = omega (
      arith,
      start,
      r.is_run.count,
      ap length r.parts,
      length-append r.before (r.run ++ r.after),
      length-append r.run r.after,
    ) in
    let (t', done, at, size') =
      juntar_lem h.pos_bytes h.cant_vacios h.free_bytes_amount t p here fits_in in
    (
      t',
      rw done,
      record {
        hueco = h;
        at = refl;
        run_of = r;
        element = record p { bytes_disponibles = h.free_bytes_amount };
        there = at;
        free = free;
        bytes = refl;
        same_size = size';
      },
    )

-- With a smallest partition of at least one byte, `first_fit` never faults. Either it answers -1 with
-- the table unchanged, and no run of free elements holds `size` bytes and a smallest partition; or it
-- gives the start of such a run, where the new table has a free element with all the bytes of the run.
pub first_fit_lem :
    (t : TableInfo) (size : ℕ)
    → 0 < t.size_chunk
    → ((first_fit t size ≡ some (none, t)) × ¬ HasRun size t.size_chunk t.elements)
      ⊎ ((pos : ℕ) × (t' : TableInfo) × (first_fit t size ≡ some (some pos, t'))
          × FirstFit size t pos t')
unfolding first_fit
first_fit_lem t size pos =
    elim (Option-cases (first_loop size t.size_chunk 0 (no_hueco 0) t.elements)) [
      | inl e ↦ inl (
        rw (e, found_at),
        λ (before, run, after, parts, free, enough).
            no_run size t.size_chunk 0 (no_hueco 0) t.elements before run after pos e parts free
              enough,
      )
      | inr (h, e) ↦
          let r =
            first_loop-some size t.size_chunk 0 (no_hueco 0) h [] [] t.elements refl start e in
          let (t', done, fit) = found_run size t h pos r in inr (h.pos_bytes, t', rw e done, fit)
    ]
  where
    start : IsRun (no_hueco 0) [] []
    start = record {
      free = tt;
      bytes = refl;
      start = λ more. refl;
      nothing = λ z. refl;
      same_count = refl;
      count = omega arith;
    }
