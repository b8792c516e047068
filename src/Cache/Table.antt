-- ===== src/Cache/Table.antt =====
-- The table of partitions of the remote cache: the structs of rc/src/my_engine.h and
-- rc/src/collections/miDiccionario.h.
use tpso_yanero_los_grosos.Base.{
  ℕ, ◌+◌, ◌-◌, Bool, ◌&&◌, List, ◌++◌, Option, none, some, ◌>>=◌, ltb, leb, if◌then◌else◌, length,
  get_elem?, set, take, drop,
}

-- `t_cache_item`. `key` holds the bytes of the item's slot for the key, of which the first `nkey`
-- count; `data_ptr` is an address in the data area.
pub record CacheItem : Type 0 where
  pub key : List ℕ
  pub nkey : ℕ
  pub data_ptr : ℕ
  pub ndata : ℕ
  pub flags : ℕ
  pub stored : Bool
  pub exptime : ℕ

-- `t_array`. Times are only compared and copied, so a time is a number of ticks of the clock.
pub record Partition : Type 0 where
  pub item : CacheItem
  pub ocupado : Bool
  pub bytes_disponibles : ℕ
  pub bytes_inutilizados : ℕ
  pub ultima_vez_usada : ℕ

-- `t_table_info`, with the bytes of the data area by address.
pub record TableInfo : Type 0 where
  pub elements : List Partition
  pub elements_amount : ℕ
  pub espacio_libre : ℕ
  pub size_chunk : ℕ
  pub memory : ℕ → ℕ

-- `self->table_max_size`: the array is allocated with this length and neither changes.
abbrev pub table_max_size : TableInfo → ℕ
table_max_size t = length t.elements

-- `self->elements[i]`, a fault out of range.
abbrev pub read : TableInfo → ℕ → Option Partition
read t i = get_elem? t.elements i

-- A write of the element `i`, a fault out of range.
abbrev pub write : TableInfo → ℕ → Partition → Option TableInfo
write t i p = do _ ← read t i; some (record t { elements = set t.elements i p })

-- A key buffer is a slot of 60 bytes of `ptrkey`: a longer key would go on into the slot of the next
-- element, or behind the last one, which is a fault.
abbrev pub cabe_clave : ℕ → Option ℕ
cabe_clave nkey = if leb nkey 60 then some nkey else none

-- `memcpy(dst, src, n)` on two key buffers, inside their slots.
abbrev pub copy_key : ℕ → List ℕ → List ℕ → List ℕ
copy_key n src dst = take n src ++ drop n dst

-- `memmove(dst, src, n)` in the data area.
abbrev pub memmove : ℕ → ℕ → ℕ → (ℕ → ℕ) → ℕ → ℕ
memmove dst src n mem a = if leb dst a && ltb a (dst + n) then mem (src + (a - dst)) else mem a
