-- ===== src/Cache/Engine.antt =====
-- The memcached engine of rc/src/my_engine.c, over the partition table. Each critical section of a
-- handler is one function; logging is not modelled.
pub mod Storing
pub mod Flushing
pub mod Deletion
use tpso_yanero_los_grosos.Base.{
  ℕ, zero, suc, ◌+◌, ◌/◌, Bool, true, false, List, [], ◌∷◌, Option, none, some, ◌>>=◌, ltb,
  if◌then◌else◌, get_elem?, set,
}
use tpso_yanero_los_grosos.Cache.Table.{Partition, TableInfo, read, write}
use tpso_yanero_los_grosos.Cache.Dictionary.{
  micache_search_element, micache_remove, micache_clean, micache_create_element,
}
use tpso_yanero_los_grosos.Cache.Replacement.{lru_get}
use tpso_yanero_los_grosos.Cache.Compaction.{compactacion, fits_bufftemp}
use tpso_yanero_los_grosos.Cache.Buddy.{buddysystem, buddy_create_element}

-- The answers of the engine: the codes of memcached's engine interface that this engine returns.
pub data EngineError : Type 0 where
  success : EngineError
  key_enoent : EngineError
  enomem : EngineError

-- The configuration file and the part of memcached's configuration that the handlers read.
-- `frecuencia` is 0 where the file gives a number below 1.
pub record Config : Type 0 where
  pub particiones_dinamicas : Bool
  pub first_fit : Bool
  pub lru : Bool
  pub frecuencia : ℕ
  pub block_size_max : ℕ
  pub chunk_size : ℕ

-- What the run-time gives to a handler: fuel for its loops, and the clock.
pub record Entorno : Type 0 where
  pub fuel : ℕ
  pub clock : ℕ → ℕ

-- The loop of `cache_initialize` over the array: `malloc` leaves `crudo i` at the place `i`, of
-- which only `ocupado` is set (and the key buffer, whose bytes belong to `crudo i` here).
iniciar : ℕ → ℕ → (ℕ → Partition) → List Partition
iniciar zero i crudo = []
iniciar (suc n) i crudo = record (crudo i) { ocupado = false } ∷ iniciar n (i + 1) crudo

-- The table that `cache_initialize` builds: all the bytes stand at the first element. The size of
-- the cache and the array's length come from `item_size_max`.
unfoldable pub cache_initialize : Config → ℕ → (ℕ → Partition) → (ℕ → ℕ) → Option TableInfo
unfolding iniciar
cache_initialize c ptrdata crudo memory = do
  let elements = iniciar (c.block_size_max / c.chunk_size) 0 crudo
  p ← get_elem? elements 0
  some (record {
    elements = set elements 0 (record p {
      item = record (p.item) { data_ptr = ptrdata };
      bytes_disponibles = c.block_size_max;
      bytes_inutilizados = 0;
    });
    elements_amount = 0;
    espacio_libre = c.block_size_max;
    size_chunk = c.chunk_size;
    memory = memory;
  })

-- The place that the memory scheme finds.
alocar : Config → Entorno → TableInfo → ℕ → Option (ℕ × TableInfo)
alocar c e t nbytes =
    if c.particiones_dinamicas
    then compactacion e.fuel t c.frecuencia nbytes c.first_fit e.clock
    else buddysystem e.fuel t nbytes e.clock

-- The element that the memory scheme makes there.
crear : Config → TableInfo → List ℕ → ℕ → ℕ → ℕ → ℕ → Option TableInfo
crear c t key nkey pos nbytes now =
    if c.particiones_dinamicas
    then micache_create_element t key nkey pos nbytes c.chunk_size now
    else buddy_create_element t key nkey pos nbytes now

-- An old element with the key is removed first.
quitar_viejo : TableInfo → List ℕ → ℕ → Option TableInfo
quitar_viejo t key nkey = elim (micache_search_element t key nkey) [
  | none ↦ some t
  | some _ ↦ (do (_, t') ← micache_remove t key nkey; some t')
]

-- A handler's answer, with the place of the item that it hands out.
abbrev pub Respuesta : Type 0
Respuesta = EngineError × Option ℕ × TableInfo

-- The first critical section of `item_allocate`: the mutex is released with the place chosen and
-- the element not yet made.
unfoldable pub item_allocate_buscar :
    Config → Entorno → TableInfo → List ℕ → ℕ → ℕ → Option (ℕ × TableInfo)
unfolding alocar quitar_viejo
item_allocate_buscar c e t key nkey nbytes = do t' ← quitar_viejo t key nkey; alocar c e t' nbytes

-- The second critical section.
unfoldable pub item_allocate_crear : Config → TableInfo → List ℕ → ℕ → ℕ → ℕ → ℕ → Option Respuesta
unfolding crear
item_allocate_crear c t key nkey pos nbytes now = do
  t' ← crear c t key nkey pos nbytes now
  some (success, some pos, t')

-- Both sections, with no other handler between them.
item_allocate_aceptado : Config → Entorno → TableInfo → List ℕ → ℕ → ℕ → ℕ → Option Respuesta
unfolding item_allocate_buscar item_allocate_crear
item_allocate_aceptado c e t key nkey nbytes now = do
  (pos, t') ← item_allocate_buscar c e t key nkey nbytes
  item_allocate_crear c t' key nkey pos nbytes now

-- `item_allocate`. The key goes through `bufftemp[100]` first.
unfoldable pub item_allocate : Config → Entorno → TableInfo → List ℕ → ℕ → ℕ → ℕ → Option Respuesta
unfolding item_allocate_aceptado
item_allocate c e t key nkey nbytes now =
    if fits_bufftemp nkey
    then if ltb c.block_size_max nbytes
      then some (enomem, none, t)
      else item_allocate_aceptado c e t key nkey nbytes now
    else none

-- `item_release`, on the item at `pos`.
unfoldable pub item_release : TableInfo → ℕ → Option TableInfo
item_release t pos = do
  p ← read t pos
  if p.item.stored then some t else (do (_, t') ← micache_remove t p.item.key p.item.nkey; some t')

-- `get_info`.
unfoldable pub get_info : Config → TableInfo → List ℕ → ℕ → ℕ → Option Respuesta
get_info c t key nkey now =
    if fits_bufftemp nkey
    then elim (micache_search_element t key nkey) [
      | none ↦ some (key_enoent, none, t)
      | some pos ↦ (do
        t' ← (if c.lru then lru_get t pos now else some t)
        some (success, some pos, t'))
    ]
    else none

-- `store_info`, on the item at `pos`.
unfoldable pub store_info : TableInfo → ℕ → Option Respuesta
store_info t pos = do
  p ← read t pos
  t' ← write t pos (record p { item = record (p.item) { stored = true } })
  some (success, none, t')

-- `flush_all`.
unfoldable pub flush_all : TableInfo → Option Respuesta
flush_all t = do t' ← micache_clean t; some (success, none, t')

-- `delete_one`.
unfoldable pub delete_one : TableInfo → List ℕ → ℕ → Option Respuesta
unfolding item_release
delete_one t key nkey = elim (micache_search_element t key nkey) [
  | none ↦ some (key_enoent, none, t)
  | some pos ↦ (do
    p ← read t pos
    t' ← write t pos (record p { item = record (p.item) { stored = false } })
    t'' ← item_release t' pos
    some (success, none, t''))
]
