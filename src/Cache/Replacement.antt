-- ===== src/Cache/Replacement.antt =====
-- rc/src/collections/algoritmo_reemplazo.c: the choice of the victim and the time stamps. The
-- reading of the clock is an argument.
pub mod Victim
use tpso_yanero_los_grosos.Base.{
  ℕ, ◌&&◌, List, [], ◌∷◌, Option, none, some, ◌>>=◌, ltb, if◌then◌else◌,
}
use tpso_yanero_los_grosos.Cache.Table.{Partition, TableInfo, read, write}
use tpso_yanero_los_grosos.Cache.Dictionary.{micache_remove}

-- `t_key`: the bytes of the key and how many of them count.
pub record Key : Type 0 where
  pub key : List ℕ
  pub nkey : ℕ

-- The loop of `lru`: the variables are `min_time` and the victim, which starts out unset.
lru_loop : ℕ → Option Key → List Partition → Option Key
lru_loop min_time victim [] = victim
lru_loop min_time victim (p ∷ ps) =
    let older = p.ocupado && p.item.stored && ltb p.ultima_vez_usada min_time in
    lru_loop (if older then p.ultima_vez_usada else min_time)
      (if older then some (record { key = p.item.key; nkey = p.item.nkey }) else victim) ps

-- `lru`: removes the victim and returns its key; a fault where nothing was chosen.
unfoldable pub lru : TableInfo → ℕ → Option (Key × TableInfo)
unfolding lru_loop
lru t now = do
  k ← lru_loop now none t.elements
  (_, t') ← micache_remove t k.key k.nkey
  some (k, t')

-- `lru_get`.
unfoldable pub lru_get : TableInfo → ℕ → ℕ → Option TableInfo
lru_get t pos now = do p ← read t pos; write t pos (record p { ultima_vez_usada = now })
