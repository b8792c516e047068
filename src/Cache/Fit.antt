-- ===== src/Cache/Fit.antt =====
-- The searches of rc/src/collections/compactacion.c: first fit and best fit over runs of free
-- partitions, and the joining of the run that was chosen.
pub mod Joining
pub mod Runs
pub mod First
use tpso_yanero_los_grosos.Base.{
  ℕ, zero, suc, ◌+◌, ◌-◌, Bool, false, ◌&&◌, not, List, [], ◌∷◌, Option, none, some, ◌>>=◌, ltb,
  leb, ◌==◌, if◌then◌else◌,
}
use tpso_yanero_los_grosos.Cache.Table.{Partition, TableInfo, table_max_size, read, write}
use tpso_yanero_los_grosos.Cache.Dictionary.{moved}

-- What `juntarParticionesVacias` leaves at the destination. Only the keys of used elements are copied,
-- which their creation has fitted to the slot.
abbrev pub joined : Partition → Partition → Partition
joined src dst = if src.ocupado then moved src dst else record dst {
  ocupado = false;
  bytes_inutilizados = src.bytes_inutilizados;
  bytes_disponibles = src.bytes_disponibles;
  item = record (dst.item) { data_ptr = src.item.data_ptr };
}

-- `juntarParticionesVacias`.
unfoldable pub juntar_particiones_vacias : TableInfo → ℕ → ℕ → Option TableInfo
juntar_particiones_vacias t pos cant_vacios = do
  src ← read t pos
  dst ← read t (pos + 1 - cant_vacios)
  write t (pos + 1 - cant_vacios) (joined src dst)

-- `for (pos = …; n rounds; pos++)` over it.
juntar_loop : ℕ → ℕ → ℕ → TableInfo → Option TableInfo
juntar_loop zero pos cant_vacios t = some t
juntar_loop (suc n) pos cant_vacios t = do
  t' ← juntar_particiones_vacias t pos cant_vacios
  juntar_loop n (pos + 1) cant_vacios t'

-- The loop that empties the run behind its first element.
vaciar_loop : ℕ → ℕ → TableInfo → Option TableInfo
vaciar_loop zero pos t = some t
vaciar_loop (suc n) pos t = do
  p ← read t pos
  t' ← write t pos (record p { ocupado = false; bytes_disponibles = 0 })
  vaciar_loop n (pos + 1) t'

-- Behind the first element of the run, everything moves up.
recorrer : TableInfo → ℕ → ℕ → Option TableInfo
unfolding vaciar_loop juntar_loop
recorrer t pos cant_vacios = do
  t' ← vaciar_loop (cant_vacios - 1) (pos + 1) t
  juntar_loop (table_max_size t - 1 - (pos + cant_vacios)) (pos + cant_vacios) cant_vacios t'

-- The end that both searches share: `bytes` go to the first element of a run of `cant_vacios`, and
-- what stands behind the run moves up.
unfoldable pub juntar : TableInfo → ℕ → ℕ → ℕ → Option TableInfo
unfolding recorrer
juntar t pos cant_vacios bytes = do
  p ← read t pos
  t' ← write t pos (record p { bytes_disponibles = bytes })
  if ltb 1 cant_vacios then recorrer t' pos cant_vacios else some t'

-- The variables of a run: `pos_primero`, `pos_bytes`, `cantVacios` and `free_bytes_amount`.
-- `pos_bytes` is set before it is read, since a run is accepted only with bytes in it.
pub record Hueco : Type 0 where
  pub pos_primero : ℕ
  pub pos_bytes : ℕ
  pub cant_vacios : ℕ
  pub free_bytes_amount : ℕ

abbrev pub no_hueco : ℕ → Hueco
no_hueco pos = record { pos_primero = 0; pos_bytes = pos; cant_vacios = 0; free_bytes_amount = 0 }

-- A free partition with bytes joins the run.
abbrev pub grow : ℕ → Hueco → Partition → Hueco
grow i h p = record {
  pos_primero = h.pos_primero + 1;
  pos_bytes = if (h.pos_primero + 1) == 1 then i else h.pos_bytes;
  cant_vacios = h.cant_vacios + 1;
  free_bytes_amount = h.free_bytes_amount + p.bytes_disponibles;
}

-- How `first_fit` updates them: an empty entry of the array neither grows nor ends a run.
abbrev pub first_step : ℕ → Hueco → Partition → Hueco
first_step i h p =
    if p.ocupado then no_hueco h.pos_bytes else if p.bytes_disponibles == 0 then h else grow i h p

abbrev pub fits : ℕ → ℕ → Hueco → Bool
fits size chunk h = leb size h.free_bytes_amount && leb chunk h.free_bytes_amount

pub first_loop : ℕ → ℕ → ℕ → Hueco → List Partition → Option Hueco
first_loop size chunk i h [] = none
first_loop size chunk i h (p ∷ ps) =
    let h' = first_step i h p in
    if not p.ocupado && fits size chunk h' then some h' else first_loop size chunk (i + 1) h' ps

-- A search returns the position, `none` for -1, and the table.
abbrev pub Found : Type 0
Found = Option ℕ × TableInfo

found_at : TableInfo → Option Hueco → Option Found
found_at t none = some (none, t)
found_at t (some h) = do
  t' ← juntar t h.pos_bytes h.cant_vacios h.free_bytes_amount
  some (some h.pos_bytes, t')

-- `first_fit`.
unfoldable pub first_fit : TableInfo → ℕ → Option Found
unfolding first_loop found_at
first_fit t size = found_at t (first_loop size t.size_chunk 0 (no_hueco 0) t.elements)

-- How `best_fit` updates the run: here an empty entry ends it.
abbrev pub best_step : ℕ → Hueco → Partition → Hueco
best_step i h p =
    if p.ocupado
    then no_hueco h.pos_bytes
    else if p.bytes_disponibles == 0
    then no_hueco h.pos_bytes
    else grow i h p

-- `min`, and `posmin` with `vaciosmin` (`none` while `posmin` is -1).
pub record Mejor : Type 0 where
  pub min_bytes : ℕ
  pub hueco : Option Hueco

best_loop : ℕ → ℕ → ℕ → Hueco → Mejor → List Partition → Mejor
best_loop size chunk i h m [] = m
best_loop size chunk i h m (p ∷ ps) =
    let h' = best_step i h p in
    let better =
      not p.ocupado
      && not (p.bytes_disponibles == 0)
      && fits size chunk h'
      && ltb h'.free_bytes_amount m.min_bytes in
    best_loop size chunk (i + 1) h'
      (if better then record { min_bytes = h'.free_bytes_amount; hueco = some h' } else m) ps

-- `best_fit`.
unfoldable pub best_fit : TableInfo → ℕ → Option Found
unfolding best_loop found_at
best_fit t size =
    found_at t
      (best_loop size t.size_chunk 0 (no_hueco 0)
        (record { min_bytes = t.espacio_libre + 1; hueco = none }) t.elements).hueco
