-- ===== src/Cache/Tests.antt =====
-- Small tables, and the theorems on the cache applied to them.
use tpso_yanero_los_grosos.Base.{
  ◌≢◌, sum_by, ◌≤◌, ◌<◌, ◌+◌, ℕ, zero, suc, ◌⊎◌, ◌≡◌, refl, Bool, true, false, List, [], ◌∷◌, none,
  some, arith, get_elem?, length,
}
use tpso_yanero_los_grosos.Cache.Table.{Partition, TableInfo, table_max_size}
use tpso_yanero_los_grosos.Cache.Dictionary.{
  micache_search_element, micache_remove, micache_clean, micache_create_element, desplazar_abajo,
}
use tpso_yanero_los_grosos.Cache.Dictionary.Search.{
  IsFirstHit, HasNoHit, micache_search_element_lem,
}
use tpso_yanero_los_grosos.Cache.Dictionary.Removal.{Removes, amount_after, micache_remove_lem}
use tpso_yanero_los_grosos.Cache.Dictionary.Cleaning.{AllFree, IsCleanOf, micache_clean_lem}
use tpso_yanero_los_grosos.Cache.Dictionary.Creation.{HasKeyAt}
use tpso_yanero_los_grosos.Cache.Dictionary.Totality.{KeysFit, micache_create_element_lem}
use tpso_yanero_los_grosos.Cache.Buddy.{buscar_hueco, desplazar_uno_abajo}
use tpso_yanero_los_grosos.Cache.Buddy.Search.{Halved, buscar_hueco_lem, buscar_hueco-first}
use tpso_yanero_los_grosos.Cache.Dictionary.LastPlace.{micache_create_element-last}
use tpso_yanero_los_grosos.Cache.Accounting.{capacidad, libres, free_of}
use tpso_yanero_los_grosos.Cache.Replacement.{Key, lru}
use tpso_yanero_los_grosos.Cache.Replacement.Victim.{NoneBefore, Replaces, lru_lem}
use tpso_yanero_los_grosos.Cache.Fit.{first_fit, juntar}
use tpso_yanero_los_grosos.Cache.Fit.Runs.{HasRun}
use tpso_yanero_los_grosos.Cache.Fit.Joining.{juntar_lem}
use tpso_yanero_los_grosos.Cache.Fit.First.{FirstFit, first_fit_lem}
use tpso_yanero_los_grosos.Cache.Compaction.{compactar_todo}
use tpso_yanero_los_grosos.Cache.Compaction.Overrun.{compactar_todo-AllUsed}
use tpso_yanero_los_grosos.Cache.Engine.{
  key_enoent, flush_all, success, Config, Entorno, get_info, delete_one,
}
use tpso_yanero_los_grosos.Cache.Engine.Flushing.{get_info-after-flush}
use tpso_yanero_los_grosos.Cache.Engine.Deletion.{IsOnly, get_info-after-delete}

abbrev usada : List ℕ → ℕ → ℕ → ℕ → Partition
usada key data_ptr ndata time = record {
  item = record {
    key = key;
    nkey = 2;
    data_ptr = data_ptr;
    ndata = ndata;
    flags = 0;
    stored = true;
    exptime = 0;
  };
  ocupado = true;
  bytes_disponibles = 0;
  bytes_inutilizados = 0;
  ultima_vez_usada = time;
}

abbrev vacia : ℕ → ℕ → Partition
vacia data_ptr bytes = record {
  item = record {
    key = 0 ∷ 0 ∷ [];
    nkey = 0;
    data_ptr = data_ptr;
    ndata = 0;
    flags = 0;
    stored = false;
    exptime = 0;
  };
  ocupado = false;
  bytes_disponibles = bytes;
  bytes_inutilizados = 0;
  ultima_vez_usada = 0;
}

abbrev tabla : List Partition → ℕ → TableInfo
tabla elements libre = record {
  elements = elements;
  elements_amount = 2;
  espacio_libre = libre;
  size_chunk = 8;
  memory = λ _. 0;
}

abbrev uno : List ℕ
uno = 1 ∷ 2 ∷ []

abbrev dos : List ℕ
dos = 3 ∷ 4 ∷ []

abbrev nueva : List ℕ
nueva = 5 ∷ 6 ∷ []

abbrev media : TableInfo
media = tabla (usada uno 1 16 5 ∷ vacia 17 24 ∷ usada dos 41 16 3 ∷ vacia 57 8 ∷ vacia 0 0 ∷ []) 32

abbrev llena : TableInfo
llena = tabla (usada uno 1 16 5 ∷ usada dos 17 16 3 ∷ []) 0

abbrev ultima : TableInfo
ultima = tabla (usada uno 1 16 5 ∷ vacia 17 16 ∷ []) 16

abbrev config : Config
config = record {
  particiones_dinamicas = true;
  first_fit = true;
  lru = true;
  frecuencia = 0;
  block_size_max = 64;
  chunk_size = 8;
}

abbrev entorno : Entorno
entorno = record { fuel = 10; clock = λ _. 100 }

search_media : micache_search_element media dos 2 ≡ some 2
unfolding micache_search_element
search_media = refl

capacidad-media : (capacidad media ≡ 64) × (libres media ≡ 32)
capacidad-media = (refl, refl)

micache_search_element_lem_example :
    ((k : ℕ) → micache_search_element media dos 2 ≡ some k → IsFirstHit dos 2 media.elements k)
    × (micache_search_element media dos 2 ≡ none → HasNoHit dos 2 media.elements)
micache_search_element_lem_example = micache_search_element_lem media dos 2

micache_remove_lem_example :
    (data_ptr : ℕ) × (t' : TableInfo) × (micache_remove media dos 2
      ≡ some (data_ptr, record t' { elements_amount = amount_after data_ptr 2 }))
    × Removes dos 2 media t' data_ptr
micache_remove_lem_example =
    micache_remove_lem media dos 2 2 (usada dos 41 16 3) (omega arith) refl refl

micache_clean_lem_example : (t' : TableInfo) × (micache_clean media ≡ some t') × IsCleanOf media t'
micache_clean_lem_example =
    micache_clean_lem media (omega arith)
      ((λ h. cc), ((λ _. refl), ((λ h. cc), ((λ _. refl), ((λ _. refl), tt)))))

lru_lem_example :
    (NoneBefore 9 media.elements × (lru media 9 ≡ none))
    ⊎ ((k : Key) × (t' : TableInfo) × (lru media 9 ≡ some (k, t')) × Replaces 9 media k t')
lru_lem_example = lru_lem media 9 (omega arith)

first_fit_lem_example :
    ((first_fit media 20 ≡ some (none, media)) × ¬ HasRun 20 8 media.elements)
    ⊎ ((pos : ℕ) × (t' : TableInfo) × (first_fit media 20 ≡ some (some pos, t'))
        × FirstFit 20 media pos t')
first_fit_lem_example = first_fit_lem media 20 (omega arith)

juntar_lem_example :
    (t' : TableInfo) × (juntar media 3 2 8 ≡ some t')
    × (get_elem? t'.elements 3 ≡ some (record (vacia 57 8) { bytes_disponibles = 8 }))
    × (length t'.elements ≡ 5)
juntar_lem_example = juntar_lem 3 2 8 media (vacia 57 8) refl (omega arith)

compactar_todo-AllUsed_example : compactar_todo llena ≡ none
compactar_todo-AllUsed_example = compactar_todo-AllUsed llena (refl, (refl, tt))

micache_create_element-last_example : micache_create_element ultima nueva 2 1 8 8 9 ≡ none
micache_create_element-last_example =
    micache_create_element-last ultima nueva 2 1 8 8 9 (vacia 17 16) refl refl (omega arith)

-- `media` after an element of 8 bytes was made at 1: the rest of its partition became an element.
abbrev creada : Bool → TableInfo
creada stored = record {
  elements =
      usada uno 1 16 5
      ∷ record (usada nueva 17 8 9) {
        item = record ((usada nueva 17 8 9).item) { stored = stored };
      }
      ∷ record (usada dos 25 16 3) { ocupado = false; bytes_disponibles = 16 }
      ∷ usada dos 41 16 3
      ∷ vacia 57 8
      ∷ [];
  elements_amount = 3;
  espacio_libre = 24;
  size_chunk = 8;
  memory = λ _. 0;
}

create_media : micache_create_element media nueva 2 1 8 8 9 ≡ some (creada false)
unfolding micache_create_element desplazar_abajo
create_media = refl

KeysFit-media : KeysFit media.elements
KeysFit-media zero p e = ground (arith, e)
KeysFit-media (suc zero) p e = ground (arith, e)
KeysFit-media (suc (suc zero)) p e = ground (arith, e)
KeysFit-media (suc (suc (suc zero))) p e = ground (arith, e)
KeysFit-media (suc (suc (suc (suc zero)))) p e = ground (arith, e)
KeysFit-media (suc (suc (suc (suc (suc j))))) p e = cc

micache_create_element_lem_example :
    (t' : TableInfo) × (micache_create_element media nueva 2 1 8 8 9 ≡ some t')
    × (table_max_size t' ≡ 5)
    × HasKeyAt t' 1 nueva 2
micache_create_element_lem_example =
    micache_create_element_lem media nueva 2 1 8 8 9 (vacia 17 24) (omega arith) (omega arith)
      KeysFit-media refl (omega arith) (omega arith) (omega arith)

inside :
    (j : ℕ) (p : Partition)
    → get_elem? media.elements j ≡ some p
    → p.ocupado ≡ false
    → 5 ≤ p.bytes_disponibles
    → (0 < j) × (j + 1 < 5)
inside zero p e f h = cc
inside (suc zero) p e f h = (omega arith, omega arith)
inside (suc (suc zero)) p e f h = (omega arith, omega arith)
inside (suc (suc (suc zero))) p e f h = (omega arith, omega arith)
inside (suc (suc (suc (suc zero)))) p e f h = absurd (ground (arith, e, h))
inside (suc (suc (suc (suc (suc j))))) p e f h = cc

hueco_media :
    (t' : TableInfo) × (buscar_hueco media 5 ≡ some (some 1, t'))
    × ((p : Partition) × (get_elem? t'.elements 1 ≡ some p) × (p.bytes_disponibles ≡ 12))
unfolding buscar_hueco desplazar_uno_abajo
hueco_media = (_, refl, (_, refl, refl))

buscar_hueco_lem_example : Halved media 5 0 (buscar_hueco media 5)
buscar_hueco_lem_example = buscar_hueco_lem media 5 (omega arith) inside

buscar_hueco-first_example :
    buscar_hueco (tabla (vacia 1 64 ∷ vacia 0 0 ∷ []) 64) 40
    ≡ some (some 0, tabla (vacia 1 64 ∷ vacia 0 0 ∷ []) 64)
buscar_hueco-first_example =
    buscar_hueco-first (tabla (vacia 1 64 ∷ vacia 0 0 ∷ []) 64) 40 (vacia 1 64) refl refl
      (omega arith)

get_info-after-flush_example :
    (t' : TableInfo) × (flush_all media ≡ some (success, none, t'))
    × AllFree t'.elements
    × (sum_by free_of t'.elements ≡ 64)
    × (t'.espacio_libre ≡ 64)
    × ((key : List ℕ) (nkey now : ℕ)
        → nkey < 100
        → get_info config t' key nkey now ≡ some (key_enoent, none, t'))
get_info-after-flush_example =
    get_info-after-flush config media (omega arith)
      ((λ h. cc), ((λ _. refl), ((λ h. cc), ((λ _. refl), ((λ _. refl), tt)))))

IsOnly-dos : IsOnly dos 2 media.elements 2
IsOnly-dos zero q e m = ground arith
IsOnly-dos (suc zero) q e m = ground arith
IsOnly-dos (suc (suc zero)) q e m = refl
IsOnly-dos (suc (suc (suc zero))) q e m = ground arith
IsOnly-dos (suc (suc (suc (suc zero)))) q e m = ground arith
IsOnly-dos (suc (suc (suc (suc (suc j))))) q e m = cc

get_info-after-delete_example :
    (t' : TableInfo) × (delete_one media dos 2 ≡ some (success, none, t'))
    × (get_info config t' dos 2 10 ≡ some (key_enoent, none, t'))
    × ((j : ℕ) → 2 ≢ j → get_elem? t'.elements j ≡ get_elem? media.elements j)
get_info-after-delete_example =
    get_info-after-delete config media dos 2 2 10 (usada dos 41 16 3) (omega arith) (omega arith)
      refl refl IsOnly-dos
