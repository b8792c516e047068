-- ===== src/Cache/Dictionary.antt =====
-- rc/src/collections/miDiccionario.c: search, removal, cleaning and creation of elements.
-- `none` is a fault: an index out of the array, a variable that was never set, or an amount that
-- falls below zero.
pub mod Search
pub mod Removal
pub mod Cleaning
pub mod Creation
pub mod LastPlace
pub mod Totality
use tpso_yanero_los_grosos.Base.{
  ℕ, zero, suc, ◌+◌, ◌-◌, Bool, true, false, ◌&&◌, List, [], ◌∷◌, Option, none, some, ◌>>=◌, sub?,
  ltb, leb, ◌==◌, bytes_eq, if◌then◌else◌, get_elem?, set, take,
}
use tpso_yanero_los_grosos.Cache.Table.{
  CacheItem, Partition, TableInfo, table_max_size, read, write, copy_key, cabe_clave,
}

-- The key comparison: equal lengths, and equal bytes up to that length.
abbrev pub same_key : List ℕ → ℕ → CacheItem → Bool
same_key key nkey item = (item.nkey == nkey) && bytes_eq (take nkey key) (take nkey item.key)

-- The test of `micache_search_element`: a used, stored element with the key.
abbrev pub is_hit : List ℕ → ℕ → Partition → Bool
is_hit key nkey p = p.ocupado && p.item.stored && same_key key nkey p.item

search_from : List ℕ → ℕ → ℕ → List Partition → Option ℕ
search_from key nkey i [] = none
search_from key nkey i (p ∷ ps) =
    if is_hit key nkey p then some i else search_from key nkey (i + 1) ps

-- `micache_search_element`; its -1 is `none`.
unfoldable pub micache_search_element : TableInfo → List ℕ → ℕ → Option ℕ
unfolding search_from
micache_search_element t key nkey = search_from key nkey 0 t.elements

-- The loop of `micache_remove_element`, which goes on to the last match.
last_match : List ℕ → ℕ → ℕ → Option ℕ → List Partition → Option ℕ
last_match key nkey i pos [] = pos
last_match key nkey i pos (p ∷ ps) =
    last_match key nkey (i + 1) (if p.ocupado && same_key key nkey p.item then some i else pos) ps

-- The bytes that an element gives back when it is removed.
abbrev pub freed_bytes : ℕ → Partition → ℕ
freed_bytes chunk p = if ltb p.item.ndata chunk then chunk else p.item.ndata + p.bytes_inutilizados

abbrev pub emptied : ℕ → Partition → Partition
emptied chunk p = record p {
  item = record (p.item) { stored = false; ndata = 0 };
  ocupado = false;
  ultima_vez_usada = 0;
  bytes_disponibles = freed_bytes chunk p;
  bytes_inutilizados = 0;
}

-- `micache_remove_element`: the data pointer and the new table.
unfoldable pub micache_remove_element : TableInfo → List ℕ → ℕ → Option (ℕ × TableInfo)
unfolding last_match
micache_remove_element t key nkey = do
  pos ← last_match key nkey 0 none t.elements
  p ← read t pos
  t' ← write t pos (emptied t.size_chunk p)
  some (p.item.data_ptr, record t' { espacio_libre = t.espacio_libre + freed_bytes t.size_chunk p })

-- `micache_remove`; a null data pointer is 0.
unfoldable pub micache_remove : TableInfo → List ℕ → ℕ → Option (ℕ × TableInfo)
unfolding micache_remove_element
micache_remove t key nkey = do
  (data_ptr, t') ← micache_remove_element t key nkey
  amount ← if data_ptr == 0 then some t'.elements_amount else sub? t'.elements_amount 1
  some (data_ptr, record t' { elements_amount = amount })

-- One round of the loop of `micache_clean`: the element left behind, and what it adds to
-- `espacioLibre`.
abbrev pub cleaned : Partition → Partition
cleaned p =
    if p.ocupado
    then record p {
      item = record (p.item) { ndata = 0 };
      ocupado = false;
      ultima_vez_usada = 0;
      bytes_disponibles = 0;
      bytes_inutilizados = 0;
    }
    else record p { bytes_disponibles = 0; bytes_inutilizados = 0 }

abbrev pub cleaned_bytes : ℕ → Partition → ℕ
cleaned_bytes chunk p =
    if p.ocupado
    then if leb chunk p.item.ndata then p.item.ndata + p.bytes_inutilizados else chunk
    else p.bytes_disponibles + p.bytes_inutilizados

clean_loop : ℕ → ℕ → List Partition → ℕ × List Partition
clean_loop chunk espacio [] = (espacio, [])
clean_loop chunk espacio (p ∷ ps) =
    let (total, rest) = clean_loop chunk (espacio + cleaned_bytes chunk p) ps in
    (total, cleaned p ∷ rest)

-- `micache_clean`.
unfoldable pub micache_clean : TableInfo → Option TableInfo
unfolding clean_loop
micache_clean t =
    let (total, elements) = clean_loop t.size_chunk 0 t.elements in
    do
      p ← get_elem? elements 0
      some (record t {
        elements = set elements 0 (record p { bytes_disponibles = total; bytes_inutilizados = 0 });
        espacio_libre = total;
        elements_amount = 0;
      })

-- The assignments of one round of `desplazarAbajo`: every field of `src` goes to `dst`, the key by
-- `memcpy`, of as many bytes as `nkey` says, also where `src` is free.
abbrev pub moved : Partition → Partition → Partition
moved src dst = record src {
  item = record (src.item) { key = copy_key src.item.nkey src.item.key dst.item.key };
}

abajo_loop : ℕ → ℕ → TableInfo → Option TableInfo
abajo_loop zero ultima t = some t
abajo_loop (suc n) ultima t = do
  src ← read t (ultima - 1)
  dst ← read t ultima
  _ ← cabe_clave src.item.nkey
  t' ← write t ultima (moved src dst)
  abajo_loop n (ultima - 1) t'

-- `desplazarAbajo`. Its callers pass a position above 0.
unfoldable pub desplazar_abajo : TableInfo → ℕ → ℕ → Option TableInfo
unfolding abajo_loop
desplazar_abajo t pos disponibles = do
  let ultima = table_max_size t - 1
  t' ← abajo_loop (ultima - pos) ultima t
  p ← read t' pos
  prev ← read t' (pos - 1)
  write t' pos (record p {
    ocupado = false;
    bytes_disponibles = disponibles;
    bytes_inutilizados = 0;
    item = record (p.item) {
      data_ptr =
          prev.item.data_ptr
          + (if ltb prev.item.ndata t.size_chunk then t.size_chunk else prev.item.ndata);
    };
  })

-- What an element of `size_data` bytes takes from its partition.
abbrev pub taken_bytes : ℕ → ℕ → ℕ
taken_bytes chunk size_data = if ltb size_data chunk then chunk else size_data

-- The element that `micache_create_element` writes first, with a key that fits its slot (`cabe_clave`).
abbrev pub filled : List ℕ → ℕ → ℕ → ℕ → Partition → Partition
filled key nkey size_data now p = record p {
  item = record (p.item) { key = copy_key nkey key p.item.key; ndata = size_data; nkey = nkey };
  ocupado = true;
  ultima_vez_usada = now;
}

-- The element keeps the rest of its partition, as bytes that nobody can use.
set_inutilizados : TableInfo → ℕ → ℕ → Option TableInfo
set_inutilizados t pos disponibles = do
  p ← read t pos
  write t pos (record p { bytes_inutilizados = disponibles })

-- The rest of the partition goes to the next, free, element.
give_next : TableInfo → ℕ → ℕ → Option TableInfo
give_next t next disponibles = do
  q ← read t next
  write t next (record q { bytes_disponibles = q.bytes_disponibles + disponibles })

-- The next element starts where this one's data ends.
set_next_data : TableInfo → ℕ → ℕ → Option TableInfo
set_next_data t next data_ptr = do
  q ← read t next
  write t next (record q { item = record (q.item) { data_ptr = data_ptr } })

-- The branch of `micache_create_element` whose next element is used.
create_before_used : TableInfo → ℕ → ℕ → ℕ → Option TableInfo
unfolding set_inutilizados
create_before_used t pos chunk disponibles =
    if leb chunk disponibles
    then desplazar_abajo t (pos + 1) disponibles
    else set_inutilizados t pos disponibles

-- The branch whose next element is free.
create_before_free : TableInfo → ℕ → ℕ → ℕ → ℕ → Option TableInfo
unfolding set_inutilizados give_next set_next_data
create_before_free t pos chunk disponibles data_ptr = do
  t' ← set_next_data t (pos + 1) data_ptr
  if leb chunk disponibles
      then give_next t' (pos + 1) disponibles
      else set_inutilizados t' pos disponibles

-- The part of `micache_create_element` under the test for enough bytes.
take_bytes : TableInfo → Partition → ℕ → ℕ → ℕ → Option TableInfo
unfolding create_before_used create_before_free
take_bytes t p pos size_data chunk = do
  next ← read t (pos + 1)
  espacio ← sub? t.espacio_libre (taken_bytes chunk size_data)
  disponibles ← sub? p.bytes_disponibles (taken_bytes chunk size_data)
  let t' = record t { espacio_libre = espacio }
  if next.ocupado
      then create_before_used t' pos chunk disponibles
      else create_before_free t' pos chunk disponibles
          (p.item.data_ptr + taken_bytes chunk size_data)

-- `micache_create_element`. `now` is the clock that `lru_get` reads.
unfoldable pub micache_create_element : TableInfo → List ℕ → ℕ → ℕ → ℕ → ℕ → ℕ → Option TableInfo
unfolding take_bytes
micache_create_element t key nkey pos size_data chunk now = do
  p ← read t pos
  _ ← cabe_clave nkey
  t₁ ← write t pos (filled key nkey size_data now p)
  t₂ ← (if leb size_data p.bytes_disponibles then take_bytes t₁ p pos size_data chunk else some t₁)
  q ← read t₂ pos
  t₃ ← write t₂ pos (record q { bytes_disponibles = 0 })
  some (record t₃ { elements_amount = t₃.elements_amount + 1 })
