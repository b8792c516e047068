-- ===== src/Cache/Engine/Flushing.antt =====
-- `flush_all` followed by `get_info`.
use tpso_yanero_los_grosos.Base.{
  ℕ, ◌<◌, ◌≡◌, refl, ◌∙◌, sum_by, List, [], ◌∷◌, none, some, inl, inr, arith, true, Option-cases,
}
use tpso_yanero_los_grosos.Cache.Table.{Partition, TableInfo, table_max_size}
use tpso_yanero_los_grosos.Cache.Accounting.{free_of, bytes_of, capacidad, IsTidy}
use tpso_yanero_los_grosos.Cache.Dictionary.{micache_search_element}
use tpso_yanero_los_grosos.Cache.Dictionary.Search.{HasNoHit, micache_search_element_lem}
use tpso_yanero_los_grosos.Cache.Dictionary.Cleaning.{AllFree, micache_clean_lem, AllFree-no_hit}
use tpso_yanero_los_grosos.Cache.Compaction.{fits_bufftemp}
use tpso_yanero_los_grosos.Cache.Engine.{success, key_enoent, Config, flush_all, get_info}

pub no_hit-none :
    (t : TableInfo) (key : List ℕ) (nkey : ℕ)
    → HasNoHit key nkey t.elements
    → micache_search_element t key nkey ≡ none
no_hit-none t key nkey h = elim (Option-cases (micache_search_element t key nkey)) [
  | inl e ↦ e
  | inr (k, e) ↦
      let f = (micache_search_element_lem t key nkey).0 k e in
      absurd (cc (h k f.element f.there, f.hit))
]

AllFree-sum_by :
    (chunk : ℕ) (ps : List Partition) → AllFree ps → sum_by free_of ps ≡ sum_by (bytes_of chunk) ps
AllFree-sum_by chunk [] a = refl
AllFree-sum_by chunk (p ∷ ps) a = ground (arith, a.0, AllFree-sum_by chunk ps a.1)

-- `flush_all` of a table with an element, whose free elements hold no unusable bytes, succeeds; then
-- every element is free, they hold all the bytes of the table, `espacio_libre` counts these, and a get
-- of any key of less than 100 bytes answers that there is no such key and changes nothing.
pub get_info-after-flush :
    (c : Config) (t : TableInfo)
    → 0 < table_max_size t
    → IsTidy t.elements
    → (t' : TableInfo) × (flush_all t ≡ some (success, none, t'))
      × AllFree t'.elements
      × (sum_by free_of t'.elements ≡ capacidad t)
      × (t'.espacio_libre ≡ capacidad t)
      × ((key : List ℕ) (nkey now : ℕ)
          → nkey < 100
          → get_info c t' key nkey now ≡ some (key_enoent, none, t'))
unfolding flush_all get_info
get_info-after-flush c t h tidy =
    let (t', e, clean) = micache_clean_lem t h tidy in
    let every_byte : sum_by free_of t'.elements ≡ capacidad t =
      AllFree-sum_by t'.size_chunk t'.elements clean.all_free ∙ clean.same_bytes in
    (
      t',
      rw e,
      clean.all_free,
      every_byte,
      clean.exact ∙ every_byte,
      λ key nkey now short.
          let fits : fits_bufftemp nkey ≡ true = ground (arith, short) in
          rw (fits, no_hit-none t' key nkey (AllFree-no_hit key nkey t'.elements clean.all_free)),
    )
