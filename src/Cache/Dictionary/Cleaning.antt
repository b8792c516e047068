-- ===== src/Cache/Dictionary/Cleaning.antt =====
-- What `micache_clean` leaves.
use tpso_yanero_los_grosos.Base.{
  ℕ, zero, suc, ◌+◌, ◌<◌, ◌≡◌, refl, false, List, [], ◌∷◌, some, arith, get_elem?, set, length,
  sum_by,
}
use tpso_yanero_los_grosos.Cache.Table.{Partition, TableInfo, table_max_size}
use tpso_yanero_los_grosos.Cache.Dictionary.{cleaned_bytes, clean_loop, micache_clean}
use tpso_yanero_los_grosos.Cache.Dictionary.Search.{HasNoHit}
use tpso_yanero_los_grosos.Cache.Accounting.{free_of, bytes_of, libres, capacidad, IsTidy}

-- Every element is free.
abbrev pub AllFree : List Partition → Type 0
AllFree [] = Unit {0}
AllFree (p ∷ ps) = (p.ocupado ≡ false) × AllFree ps

clean_loop-total :
    (chunk e : ℕ) (ps : List Partition)
    → IsTidy ps
    → (clean_loop chunk e ps).0 ≡ e + sum_by (bytes_of chunk) ps
unfolding clean_loop
clean_loop-total chunk e [] h = omega arith
clean_loop-total chunk e (p ∷ ps) h =
    ground (arith, clean_loop-total chunk (e + cleaned_bytes chunk p) ps h.1, h.0)

clean_loop-empty :
    (chunk e : ℕ) (ps : List Partition)
    → (sum_by (bytes_of chunk) (clean_loop chunk e ps).1 ≡ 0)
      × (sum_by free_of (clean_loop chunk e ps).1 ≡ 0)
      × AllFree (clean_loop chunk e ps).1
      × (length (clean_loop chunk e ps).1 ≡ length ps)
unfolding clean_loop
clean_loop-empty chunk e [] = (refl, refl, tt, refl)
clean_loop-empty chunk e (p ∷ ps) =
    ground (arith, clean_loop-empty chunk (e + cleaned_bytes chunk p) ps)

AllFree-set :
    (ps : List Partition) (i : ℕ) (p : Partition)
    → p.ocupado ≡ false
    → AllFree ps
    → AllFree (set ps i p)
AllFree-set [] i p h a = tt
AllFree-set (q ∷ ps) zero p h a = (h, a.1)
AllFree-set (q ∷ ps) (suc i) p h a = (a.0, AllFree-set ps i p h a.1)

-- What a cleaned table is: all free, with one free run of all the bytes at its start.
pub record IsCleanOf (t t' : TableInfo) : Type 0 where
  pub all_free : AllFree t'.elements
  pub same_size : table_max_size t' ≡ table_max_size t
  pub exact : t'.espacio_libre ≡ libres t'
  pub no_elements : t'.elements_amount ≡ 0
  pub same_bytes : capacidad t' ≡ capacidad t
  pub at_start :
      (p : Partition) × (get_elem? t'.elements 0 ≡ some p) × (p.bytes_disponibles ≡ capacidad t)

clean_at :
    (t : TableInfo) (p : Partition) (ps : List Partition)
    → (clean_loop t.size_chunk 0 t.elements).1 ≡ p ∷ ps
    → IsTidy t.elements
    → (t' : TableInfo) × (micache_clean t ≡ some t') × IsCleanOf t t'
unfolding micache_clean
clean_at t p ps e h =
    let total = (clean_loop t.size_chunk 0 t.elements).0 in
    let q : Partition = record p { bytes_disponibles = total; bytes_inutilizados = 0 } in
    let facts = rw e at (clean_loop-empty t.size_chunk 0 t.elements) in
    let sums = clean_loop-total t.size_chunk 0 t.elements h in
    (
      record t { elements = q ∷ ps; espacio_libre = total; elements_amount = 0 },
      rw e,
      record {
        all_free = ground (arith, facts);
        same_size = ground (arith, facts, sums);
        exact = ground (arith, facts, sums);
        no_elements = refl;
        same_bytes = ground (arith, facts, sums);
        at_start = (q, refl, ground (arith, facts, sums));
      },
    )

-- `micache_clean` of a table with an element, whose free elements hold no unusable bytes, gives a
-- table with all its bytes in one free run at the start: every element is free, `espacio_libre` is
-- the number of free bytes, which are all the bytes of the table, and no element is counted.
pub micache_clean_lem :
    (t : TableInfo)
    → 0 < table_max_size t
    → IsTidy t.elements
    → (t' : TableInfo) × (micache_clean t ≡ some t') × IsCleanOf t t'
micache_clean_lem t h tidy = go (clean_loop t.size_chunk 0 t.elements).1 refl
  where
    go :
        (ps : List Partition)
        → (clean_loop t.size_chunk 0 t.elements).1 ≡ ps
        → (t' : TableInfo) × (micache_clean t ≡ some t') × IsCleanOf t t'
    go [] e =
        let facts = rw e at (clean_loop-empty t.size_chunk 0 t.elements) in
        absurd (omega (arith, facts.3))
    go (p ∷ ps) e = clean_at t p ps e tidy

-- In a cleaned table no key is found.
pub AllFree-no_hit :
    (key : List ℕ) (nkey : ℕ) (ps : List Partition) → AllFree ps → HasNoHit key nkey ps
AllFree-no_hit key nkey [] a j q e = cc
AllFree-no_hit key nkey (p ∷ ps) a zero q e = ground arith
AllFree-no_hit key nkey (p ∷ ps) a (suc j) q e = AllFree-no_hit key nkey ps a.1 j q e
