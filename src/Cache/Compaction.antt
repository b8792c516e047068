-- ===== src/Cache/Compaction.antt =====
-- Compaction of dynamic partitions, rc/src/collections/compactacion.c.
pub mod Overrun
use tpso_yanero_los_grosos.Base.{
  ℕ, zero, suc, ◌+◌, ◌-◌, Bool, true, false, Option, none, some, ◌>>=◌, ltb, ◌==◌, if◌then◌else◌,
}
use tpso_yanero_los_grosos.Cache.Table.{
  Partition, TableInfo, table_max_size, read, write, copy_key, cabe_clave, memmove,
}
use tpso_yanero_los_grosos.Cache.Fit.{first_fit, best_fit, Found}
use tpso_yanero_los_grosos.Cache.Replacement.{lru}

-- Where the data of the element after `prev` starts.
abbrev pub data_end : ℕ → Partition → ℕ
data_end chunk prev =
    prev.item.data_ptr + (if ltb chunk prev.item.ndata then prev.item.ndata else chunk)

-- The destination of the data in `desplazarArriba`: the first element keeps its own pointer.
comienzo : TableInfo → ℕ → Partition → Option ℕ
comienzo t topos dst =
    if topos == 0
    then some dst.item.data_ptr
    else (do prev ← read t (topos - 1); some (data_end t.size_chunk prev))

-- `desplazarArriba`: the element `pos + cantVacios` moves to `pos`, with its data.
unfoldable pub desplazar_arriba : TableInfo → ℕ → ℕ → Option TableInfo
unfolding comienzo
desplazar_arriba t pos cant_vacios = do
  src ← read t (pos + cant_vacios)
  dst ← read t pos
  _ ← cabe_clave src.item.nkey
  start ← comienzo t pos dst
  t₁ ← write t pos (record src {
    item = record (src.item) {
      key = copy_key src.item.nkey src.item.key dst.item.key;
      data_ptr = start;
    };
  })
  old ← read t₁ (pos + cant_vacios)
  t₂ ←
      write t₁ (pos + cant_vacios)
        (record old { ocupado = false; bytes_inutilizados = 0; bytes_disponibles = 0 })
  some (record t₂ { memory = memmove start src.item.data_ptr src.item.ndata t.memory })

-- The first loop of `compactar`, from `pos1` to the end of the array: how many free elements stand
-- there, their bytes, and whether the array ended. The elements that it passes lose their bytes.
pub record Vacios : Type 0 where
  pub table : TableInfo
  pub cant_vacios : ℕ
  pub acum_bytes_disp : ℕ
  pub al_final : Bool

-- The rounds left are the elements from `pos1` on.
vacios_loop : ℕ → ℕ → Vacios → Option Vacios
vacios_loop zero pos1 v = some (record v { al_final = true })
vacios_loop (suc n) pos1 v = do
  p ← read v.table pos1
  t' ← write v.table pos1 (record p { bytes_disponibles = 0 })
  let rest = vacios_loop n (pos1 + 1) (record v {
    table = t';
    cant_vacios = v.cant_vacios + 1;
    acum_bytes_disp = v.acum_bytes_disp + p.bytes_disponibles;
  })
  if p.ocupado then some v else rest

-- The second loop: the used elements that follow, and the bytes that they could not use. Its test
-- looks at `elements[pos2].ocupado` before `salir`, so where the used elements reach the end of the
-- array it reads the element behind it, a fault.
pub record Ocupados : Type 0 where
  pub table : TableInfo
  pub cant_ocupados : ℕ
  pub new_bytes_disponibles : ℕ

ocupados_loop : ℕ → ℕ → Ocupados → Option Ocupados
ocupados_loop zero pos2 o = none
ocupados_loop (suc n) pos2 o = do
  p ← read o.table pos2
  t' ← write o.table pos2 (record p { bytes_inutilizados = 0 })
  let rest = ocupados_loop n (pos2 + 1) (record {
    table = t';
    cant_ocupados = o.cant_ocupados + 1;
    new_bytes_disponibles = o.new_bytes_disponibles + p.bytes_inutilizados;
  })
  if p.ocupado then rest else some o

arriba_loop : ℕ → ℕ → ℕ → TableInfo → Option TableInfo
arriba_loop zero pos cant_vacios t = some t
arriba_loop (suc n) pos cant_vacios t = do
  t' ← desplazar_arriba t pos cant_vacios
  arriba_loop n (pos + 1) cant_vacios t'

-- The last part of `compactar`: the bytes gathered go to the element behind the last one moved, or
-- stay unused in that one.
repartir : TableInfo → ℕ → ℕ → Option TableInfo
repartir t pos_aux total = do
  p ← read t pos_aux
  if ltb total t.size_chunk then write t pos_aux (record p { bytes_inutilizados = total }) else (do
    q ← read t (pos_aux + 1)
    write t (pos_aux + 1) (record q {
      bytes_disponibles = total;
      item = record (q.item) { data_ptr = data_end t.size_chunk p };
    }))

-- What `compactar` does once the free run ends before the array does.
mover : Vacios → ℕ → Option (Bool × TableInfo)
unfolding ocupados_loop arriba_loop repartir
mover v pos = do
  let desde = v.cant_vacios + pos
  o ←
      ocupados_loop (table_max_size v.table - desde) desde
        (record { table = v.table; cant_ocupados = 0; new_bytes_disponibles = 0 })
  t₁ ← arriba_loop o.cant_ocupados pos v.cant_vacios o.table
  t₂ ← repartir t₁ (pos + o.cant_ocupados - 1) (o.new_bytes_disponibles + v.acum_bytes_disp)
  some (true, t₂)

-- The return of `compactar` at the end of the array: all the bytes go to the element `pos`.
al_final : Vacios → ℕ → Option (Bool × TableInfo)
al_final v pos = do
  p ← read v.table pos
  t' ←
      write v.table pos (record p { bytes_disponibles = v.acum_bytes_disp; bytes_inutilizados = 0 })
  some (false, t')

-- `compactar`, called at a free element.
unfoldable pub compactar : TableInfo → ℕ → Option (Bool × TableInfo)
unfolding vacios_loop mover al_final
compactar t pos = do
  v ←
      vacios_loop (table_max_size t - pos) pos
        (record { table = t; cant_vacios = 0; acum_bytes_disp = 0; al_final = false })
  if v.al_final then al_final v pos else mover v pos

-- `for (i = 0; fin == true; i++)` of `compactacion`: nothing else ends it, so past the array it
-- reads out of bounds.
pub compactar_loop : ℕ → ℕ → TableInfo → Option TableInfo
compactar_loop zero i t = none
compactar_loop (suc n) i t = do
  p ← read t i
  (fin, t') ← (if p.ocupado then some (true, t) else compactar t i)
  let rest = compactar_loop n (i + 1) t'
  if fin then rest else some t'

-- The array holds `table_max_size` elements, so the round after them reads past its end.
unfoldable pub compactar_todo : TableInfo → Option TableInfo
unfolding compactar_loop
compactar_todo t = compactar_loop (table_max_size t + 1) 0 t

-- The buffer `bufftemp[100]` takes the key of the victim and a final zero.
abbrev pub fits_bufftemp : ℕ → Bool
fits_bufftemp nkey = ltb nkey 100

-- `lru(self)` and the copy of the key for the log.
reemplazar : TableInfo → ℕ → Option TableInfo
reemplazar t now = do (k, t') ← lru t now; if fits_bufftemp k.nkey then some t' else none

-- What a failed search leads to. `busquedas` counts the failed searches, this one included.
liberar : TableInfo → ℕ → ℕ → ℕ → Option TableInfo
unfolding reemplazar
liberar t frecuencia busquedas now =
    if busquedas == frecuencia
    then compactar_todo t
    else if t.elements_amount == 0
    then compactar_todo t
    else reemplazar t now

-- The search that the configuration names.
abbrev pub buscar : Bool → TableInfo → ℕ → Option Found
buscar es_first_fit t size = if es_first_fit then first_fit t size else best_fit t size

-- `compactacion`, on fuel: `none` also where the fuel runs out. A frequency below 1 never equals
-- the count of failed searches, which starts at 1; 0 stands for all of these. `clock` gives the
-- time at each failed search.
compactacion_loop : ℕ → Bool → ℕ → ℕ → (ℕ → ℕ) → ℕ → TableInfo → Option (ℕ × TableInfo)
compactacion_loop zero es_first_fit frecuencia size clock busquedas t = none
compactacion_loop (suc fuel) es_first_fit frecuencia size clock busquedas t = do
  (lugar, t₁) ← buscar es_first_fit t size
  let again = (do
    t₂ ← liberar t₁ frecuencia (busquedas + 1) (clock (busquedas + 1))
    compactacion_loop fuel es_first_fit frecuencia size clock (busquedas + 1) t₂)
  elim lugar [ some pos ↦ some (pos, t₁) | none ↦ again ]

unfoldable pub compactacion : ℕ → TableInfo → ℕ → ℕ → Bool → (ℕ → ℕ) → Option (ℕ × TableInfo)
unfolding compactacion_loop liberar
compactacion fuel t frecuencia size es_first_fit clock =
    compactacion_loop fuel es_first_fit frecuencia size clock 0 t
