-- ===== src/Cache/Accounting.antt =====
-- The bytes of a partition table: what its elements hold together, and what is free of it. The
-- field `espacio_libre` of the program is meant to be the second number.
use tpso_yanero_los_grosos.Base.{ℕ, ◌+◌, ◌≡◌, false, List, [], ◌∷◌, if◌then◌else◌, sum_by}
use tpso_yanero_los_grosos.Cache.Table.{Partition, TableInfo}
use tpso_yanero_los_grosos.Cache.Dictionary.{freed_bytes}

abbrev pub free_of : Partition → ℕ
free_of p = if p.ocupado then 0 else p.bytes_disponibles

abbrev pub bytes_of : ℕ → Partition → ℕ
bytes_of chunk p = if p.ocupado then freed_bytes chunk p else p.bytes_disponibles

-- The free bytes of the table.
abbrev pub libres : TableInfo → ℕ
libres t = sum_by free_of t.elements

-- All its bytes.
abbrev pub capacidad : TableInfo → ℕ
capacidad t = sum_by (bytes_of t.size_chunk) t.elements

-- `t'` has the bytes of `t`, and its `espacio_libre` is as far from its free bytes.
pub record KeepsAccount (t t' : TableInfo) : Type 0 where
  pub same_chunk : t'.size_chunk ≡ t.size_chunk
  pub same_bytes : capacidad t' ≡ capacidad t
  pub same_gap : t'.espacio_libre + libres t ≡ t.espacio_libre + libres t'

-- Every free element holds no unusable bytes.
abbrev pub IsTidy : List Partition → Type 0
IsTidy [] = Unit {0}
IsTidy (p ∷ ps) = (p.ocupado ≡ false → p.bytes_inutilizados ≡ 0) × IsTidy ps
