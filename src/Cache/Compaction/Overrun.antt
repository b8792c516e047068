-- ===== src/Cache/Compaction/Overrun.antt =====
-- The loop of `compactacion` that compacts the table has no test for the end of the array.
use tpso_yanero_los_grosos.Base.{
  ℕ, zero, suc, ◌+◌, ◌≡◌, refl, true, List, [], ◌∷◌, none, some, inl, inr, arith, Option-cases,
  get_elem?,
}
use tpso_yanero_los_grosos.Cache.Table.{Partition, TableInfo, table_max_size}
use tpso_yanero_los_grosos.Cache.Compaction.{compactar_todo, compactar_loop}

-- Every element is used.
abbrev pub AllUsed : List Partition → Type 0
AllUsed [] = Unit {0}
AllUsed (p ∷ ps) = (p.ocupado ≡ true) × AllUsed ps

AllUsed-get :
    (ps : List Partition) (i : ℕ) (p : Partition)
    → AllUsed ps
    → get_elem? ps i ≡ some p
    → p.ocupado ≡ true
AllUsed-get [] i p a e = cc
AllUsed-get (q ∷ ps) zero p a e = ground arith
AllUsed-get (q ∷ ps) (suc i) p a e = AllUsed-get ps i p a.1 e

compactar_loop-AllUsed :
    (n i : ℕ) (t : TableInfo) → AllUsed t.elements → compactar_loop n i t ≡ none
unfolding compactar_loop
compactar_loop-AllUsed zero i t a = refl
compactar_loop-AllUsed (suc n) i t a = elim (Option-cases (get_elem? t.elements i)) [
  | inl e ↦ rw e
  | inr (p, e) ↦
      let used = AllUsed-get t.elements i p a e in
      rw e (ground (arith, used, compactar_loop-AllUsed n (i + 1) t a))
]

-- Where every element of the array is used, the loop that compacts the table finds no element to
-- stop at and runs past the end of the array.
pub compactar_todo-AllUsed : (t : TableInfo) → AllUsed t.elements → compactar_todo t ≡ none
unfolding compactar_todo
compactar_todo-AllUsed t a = compactar_loop-AllUsed (table_max_size t + 1) 0 t a
