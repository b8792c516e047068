-- ===== src/Cache/Buddy.antt =====
-- The buddy system, rc/src/collections/buddy.c.
pub mod Halving
pub mod Search
use tpso_yanero_los_grosos.Base.{
  ℕ, zero, suc, ◌+◌, ◌-◌, ◌/◌, ◌%◌, Bool, true, false, ◌&&◌, not, List, Option, none, some, ◌>>=◌,
  sub?, ltb, leb, ◌==◌, if◌then◌else◌,
}
use tpso_yanero_los_grosos.Cache.Table.{
  Partition, TableInfo, table_max_size, read, write, cabe_clave,
}
use tpso_yanero_los_grosos.Cache.Dictionary.{filled}
use tpso_yanero_los_grosos.Cache.Fit.{joined, Found}
use tpso_yanero_los_grosos.Cache.Replacement.{lru}
use tpso_yanero_los_grosos.Cache.Compaction.{fits_bufftemp}

-- `buddy_create_element`. `now` is the clock that `lru_get` reads.
unfoldable pub buddy_create_element : TableInfo → List ℕ → ℕ → ℕ → ℕ → ℕ → Option TableInfo
buddy_create_element t key nkey pos size_data now = do
  p ← read t pos
  _ ← cabe_clave nkey
  inutilizados ← sub? p.bytes_disponibles size_data
  espacio ←
      sub? t.espacio_libre
        (if ltb size_data t.size_chunk then t.size_chunk else size_data + inutilizados)
  t' ← write t pos (record (filled key nkey size_data now p) {
    bytes_inutilizados = inutilizados;
    bytes_disponibles = 0;
  })
  some (record t' { espacio_libre = espacio; elements_amount = t.elements_amount + 1 })

-- One round of `desplazarUnoArriba`: the element `pos + 1` moves to `pos` and is left empty.
subir_uno : TableInfo → ℕ → Option TableInfo
subir_uno t pos = do
  src ← read t (pos + 1)
  dst ← read t pos
  t' ← write t pos (joined src dst)
  write t' (pos + 1) (record src { ocupado = false; bytes_inutilizados = 0; bytes_disponibles = 0 })

arriba_loop : ℕ → ℕ → TableInfo → Option TableInfo
arriba_loop zero pos t = some t
arriba_loop (suc n) pos t = do t' ← subir_uno t pos; arriba_loop n (pos + 1) t'

-- `desplazarUnoArriba`.
unfoldable pub desplazar_uno_arriba : TableInfo → ℕ → Option TableInfo
unfolding arriba_loop subir_uno
desplazar_uno_arriba t pos_hna = arriba_loop (table_max_size t - 1 - pos_hna) pos_hna t

-- What the two halves of `desplazarUnoAbajo` become. The array at `posAct + 1` is not guarded.
partir : TableInfo → ℕ → ℕ → Option TableInfo
partir t pos_act free_bytes = do
  p ← read t pos_act
  q ← read t (pos_act + 1)
  t' ← write t pos_act (record p {
    bytes_disponibles = free_bytes;
    item = record (p.item) { data_ptr = q.item.data_ptr };
  })
  write t' (pos_act + 1) (record q {
    ocupado = false;
    bytes_disponibles = free_bytes;
    bytes_inutilizados = 0;
    item = record (q.item) { data_ptr = q.item.data_ptr + free_bytes };
  })

-- One round of `unirTodasLasHermanas`: the variables `acum` and `seUnieron`, and the table.
pub record Pasada : Type 0 where
  pub table : TableInfo
  pub acum : ℕ
  pub se_unieron : Bool

abbrev pub son_hermanas : Partition → Partition → Bool
son_hermanas q p = not q.ocupado && q.bytes_disponibles == p.bytes_disponibles

-- The sister stands below: the element `i + 1`, whose read is not guarded.
hermana_abajo : Pasada → ℕ → Partition → Option Pasada
hermana_abajo s i p = do
  q ← read s.table (i + 1)
  t₁ ← write s.table (i + 1) (record q {
    bytes_disponibles = q.bytes_disponibles + p.bytes_disponibles;
    item = record (q.item) { data_ptr = p.item.data_ptr };
  })
  t₂ ← (if son_hermanas q p then desplazar_uno_arriba t₁ i else some s.table)
  p' ← read t₂ i
  some (record {
    table = t₂;
    acum = s.acum + p'.bytes_disponibles;
    se_unieron = if son_hermanas q p then true else s.se_unieron;
  })

-- The sister stands above: the element `i - 1`.
hermana_arriba : Pasada → ℕ → Partition → Option Pasada
hermana_arriba s i p = do
  q ← read s.table (i - 1)
  t₁ ← write s.table i (record p {
    bytes_disponibles = p.bytes_disponibles + q.bytes_disponibles;
    item = record (p.item) { data_ptr = q.item.data_ptr };
  })
  t₂ ← (if son_hermanas q p then desplazar_uno_arriba t₁ (i - 1) else some s.table)
  some (record {
    table = t₂;
    acum = s.acum + p.bytes_disponibles;
    se_unieron = if son_hermanas q p then true else s.se_unieron;
  })

-- The body of the `for` loop. A free element with bytes is looked at; a used one is passed.
unir_paso : Pasada → ℕ → Partition → Option Pasada
unfolding hermana_abajo hermana_arriba
unir_paso s i p =
    if not p.ocupado && not (p.bytes_disponibles == 0)
    then if ((s.acum / p.bytes_disponibles) % 2) == 0
      then hermana_abajo s i p
      else hermana_arriba s i p
    else if p.ocupado
    then some (record s {
      acum =
          s.acum
          + (if leb s.table.size_chunk p.item.ndata
              then p.item.ndata + p.bytes_inutilizados
              else s.table.size_chunk);
    })
    else some s

pasada_loop : ℕ → ℕ → Pasada → Option Pasada
pasada_loop zero i s = some s
pasada_loop (suc n) i s = do p ← read s.table i; s' ← unir_paso s i p; pasada_loop n (i + 1) s'

-- `while (seUnieron == true)`, on fuel.
unir_loop : ℕ → TableInfo → Option TableInfo
unir_loop zero t = none
unir_loop (suc fuel) t = do
  s ← pasada_loop (table_max_size t) 0 (record { table = t; acum = 0; se_unieron = false })
  let rest = unir_loop fuel s.table
  if s.se_unieron then rest else some s.table

-- `unirTodasLasHermanas`. A pass that joins two sisters leaves one element with bytes less, so one
-- pass more than there are elements is enough.
unfoldable pub unir_todas_las_hermanas : TableInfo → Option TableInfo
unfolding unir_loop pasada_loop unir_paso
unir_todas_las_hermanas t = unir_loop (table_max_size t + 1) t

-- `self->elements[ultimaPos - 1]`: `desplazarUnoAbajo` at the position 0 reads the element -1, which is
-- a fault.
read_before : TableInfo → ℕ → Option Partition
read_before t zero = none
read_before t (suc i) = read t i

-- The loop of `desplazarUnoAbajo`, from the last element down to `posAct`.
abajo_loop : ℕ → ℕ → TableInfo → Option TableInfo
unfolding read_before
abajo_loop zero ultima t = some t
abajo_loop (suc n) ultima t = do
  src ← read_before t ultima
  dst ← read t ultima
  t' ← write t ultima (joined src dst)
  abajo_loop n (ultima - 1) t'

-- `desplazarUnoAbajo`.
unfoldable pub desplazar_uno_abajo : TableInfo → ℕ → ℕ → Option TableInfo
unfolding abajo_loop partir
desplazar_uno_abajo t pos_act free_bytes = do
  t' ← abajo_loop (table_max_size t - pos_act) (table_max_size t - 1) t
  partir t' pos_act free_bytes

-- `while (part >= ndata)`, on fuel; -1 for `part` is the end of the loop.
pub mitades_loop : ℕ → ℕ → ℕ → ℕ → TableInfo → Option TableInfo
mitades_loop zero i part ndata t = none
mitades_loop (suc fuel) i part ndata t =
    let rest = (do t' ← desplazar_uno_abajo t i part; mitades_loop fuel i (part / 2) ndata t') in
    if leb ndata part && leb t.size_chunk part then rest else some t

hueco_loop : ℕ → ℕ → ℕ → TableInfo → Option Found
unfolding mitades_loop
hueco_loop zero i ndata t = some (none, t)
hueco_loop (suc n) i ndata t = do
  p ← read t i
  let rest = hueco_loop n (i + 1) ndata t
  let here = (do
    t' ← mitades_loop (p.bytes_disponibles + 1) i (p.bytes_disponibles / 2) ndata t
    some (some i, t'))
  if not p.ocupado && leb ndata p.bytes_disponibles then here else rest

-- `buscarHueco`.
unfoldable pub buscar_hueco : TableInfo → ℕ → Option Found
unfolding hueco_loop
buscar_hueco t ndata = hueco_loop (table_max_size t) 0 ndata t

-- A second search, after all the sisters have been joined.
buscar_tras_unir : TableInfo → ℕ → Option Found
buscar_tras_unir t ndata = do t' ← unir_todas_las_hermanas t; buscar_hueco t' ndata

-- A victim, where an element is left.
reemplazar : TableInfo → ℕ → Option TableInfo
reemplazar t now =
    if t.elements_amount == 0
    then some t
    else (do (k, t') ← lru t now; if fits_bufftemp k.nkey then some t' else none)

-- `buddysystem`, on fuel: `none` also where the fuel runs out. `clock` gives the time at each
-- round.
buddy_loop : ℕ → ℕ → (ℕ → ℕ) → TableInfo → Option (ℕ × TableInfo)
buddy_loop zero ndata clock t = none
buddy_loop (suc fuel) ndata clock t = do
  (pos₁, t₁) ← buscar_hueco t ndata
  let again = (do
    (pos₂, t₂) ← buscar_tras_unir t₁ ndata
    let next = (do t₃ ← reemplazar t₂ (clock fuel); buddy_loop fuel ndata clock t₃)
    elim pos₂ [ some pos ↦ some (pos, t₂) | none ↦ next ])
  elim pos₁ [ some pos ↦ some (pos, t₁) | none ↦ again ]

unfoldable pub buddysystem : ℕ → TableInfo → ℕ → (ℕ → ℕ) → Option (ℕ × TableInfo)
unfolding buddy_loop buscar_tras_unir reemplazar
buddysystem fuel t ndata clock = buddy_loop fuel ndata clock t
