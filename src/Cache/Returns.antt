-- ===== src/Cache/Returns.antt =====
-- Chains of reads and writes of a table that give a result.
use tpso_yanero_los_grosos.Base.{
  ℕ, ◌<◌, ◌≡◌, sym, ◌∙◌, subst, Option, some, ◌>>=◌, length, length-set, get_elem?, set,
  get_elem?_total,
}
use tpso_yanero_los_grosos.Cache.Table.{Partition, TableInfo, read, write}

-- The result is a table with as many elements as `t`.
abbrev pub Returns : TableInfo → Option TableInfo → Type 0
Returns t r = (t' : TableInfo) × (r ≡ some t') × (length t'.elements ≡ length t.elements)

-- Chains of reads and writes in range.
pub read_then :
    (u t : TableInfo) (i : ℕ) (f : Partition → Option TableInfo)
    → i < length t.elements
    → ((p : Partition) → get_elem? t.elements i ≡ some p → Returns u (f p))
    → Returns u (read t i >>= f)
read_then u t i f lt next =
    let (p, e) = get_elem?_total t.elements i lt in
    subst (λ m. Returns u (m >>= f)) (sym e) (next p e)

pub table_then :
    (u t : TableInfo) (m : Option TableInfo) (f : TableInfo → Option TableInfo)
    → Returns t m
    → ((t' : TableInfo) → length t'.elements ≡ length t.elements → Returns u (f t'))
    → Returns u (m >>= f)
table_then u t m f (t', e, size) next = subst (λ m. Returns u (m >>= f)) (sym e) (next t' size)

pub same_size :
    (u t : TableInfo) (r : Option TableInfo)
    → length t.elements ≡ length u.elements
    → Returns t r
    → Returns u r
same_size u t r e (t', h, size) = (t', h, size ∙ e)

pub write-Returns :
    (t : TableInfo) (i : ℕ) (p : Partition) → i < length t.elements → Returns t (write t i p)
write-Returns t i p lt =
    let (q, e) = get_elem?_total t.elements i lt in
    (record t { elements = set t.elements i p }, rw e, length-set t.elements i p)
