-- ===== src/Rfs/Dir/Layout.antt =====
-- The entries of a directory as they lie in a block, and the listing of such a block by rfs/Dir.c.
use tpso_yanero_los_grosos.Base.{
  ℕ, zero, suc, ◌+◌, ◌%◌, ◌^◌, ◌<◌, ◌≤◌, ◌≡◌, ap, ◌∙◌, subst, true, false, List, [], ◌∷◌, some,
  arith, ltb, ◌==◌, if◌then◌else◌,
}
use tpso_yanero_los_grosos.Nipc.Bytes.{
  le_bytes, of_le, read_le, of_le-le_bytes_four, of_le-le_bytes_two,
}
use tpso_yanero_los_grosos.Rfs.Disk.{Superblock, Volumen, leer, comienzo_bloque, block_size}
use tpso_yanero_los_grosos.Rfs.Inode.{leer_bloque, leer_inodo}
use tpso_yanero_los_grosos.Rfs.Inode.Blocks.{i_size, cant_bloques}
use tpso_yanero_los_grosos.Rfs.Dir.{
  Dir, leer_cabecera, leer_entrada, lugar_en_bloque, entradas_loop,
}

-- The bytes at `a` are those of the entry `d`, whose fields fit their types.
abbrev pub IsEntry : (ℕ → ℕ) → ℕ → Dir → Type 0
IsEntry disk a d =
    (leer 4 a disk ≡ le_bytes 4 d.d_inode)
    × (leer 2 (a + 4) disk ≡ le_bytes 2 d.d_rec_len)
    × (leer 1 (a + 6) disk ≡ le_bytes 1 d.d_name_len)
    × (leer 1 (a + 7) disk ≡ le_bytes 1 d.d_filetype)
    × (leer d.d_name_len (a + 8) disk ≡ d.d_name)
    × (d.d_inode < 2 ^ 32)
    × (d.d_rec_len < 2 ^ 16)
    × (d.d_name_len < 2 ^ 8)
    × (d.d_filetype < 2 ^ 8)

-- From `a` to `e` lie these entries, each with its bytes inside its length, a multiple of 4.
abbrev pub AreLaid : (ℕ → ℕ) → ℕ → List Dir → ℕ → Type 0
AreLaid disk a [] e = a ≡ e
AreLaid disk a (d ∷ ds) e =
    IsEntry disk a d
    × (8 + d.d_name_len ≤ d.d_rec_len)
    × (d.d_rec_len % 4 ≡ 0)
    × AreLaid disk (a + d.d_rec_len) ds e

-- A block below 2^32 whose entries these are.
abbrev pub HasEntries : Volumen → ℕ → List Dir → Type 0
HasEntries v bloque ds =
    (comienzo_bloque v.sb bloque + block_size v.sb < 2 ^ 32)
    × AreLaid v.disk (comienzo_bloque v.sb bloque) ds
        (comienzo_bloque v.sb bloque + block_size v.sb)

-- A directory with at least one block, the first of which is `bloque`.
pub record IsDirectory (v : Volumen) (nro_inodo bloque : ℕ) : Type 0 where
  pub inodo : List ℕ
  pub there : leer_inodo v nro_inodo ≡ some inodo
  pub i_mode : ℕ
  pub mode : read_le 0 2 inodo ≡ some i_mode
  pub used : (i_mode == 0) ≡ false
  pub tam : ℕ
  pub size : i_size inodo ≡ some tam
  pub more : ℕ
  pub blocks : cant_bloques v tam ≡ suc more
  pub first : leer_bloque v.disk 0 inodo (block_size v.sb) ≡ some bloque

-- The entries that are not removed.
abbrev pub vivas : List Dir → List Dir
vivas [] = []
vivas (d ∷ ds) = if d.d_inode == 0 then vivas ds else d ∷ vivas ds

pub AreLaid-le : (disk : ℕ → ℕ) (a e : ℕ) (ds : List Dir) → AreLaid disk a ds e → a ≤ e
AreLaid-le disk a e [] h = omega (arith, h)
AreLaid-le disk a e (d ∷ ds) h = omega (arith, AreLaid-le disk (a + d.d_rec_len) e ds h.3)

of_le-le_bytes_one : (v : ℕ) → v < 2 ^ 8 → of_le (le_bytes 1 v) ≡ v
of_le-le_bytes_one v h = omega (arith, h)

pub leer_cabecera-IsEntry :
    (disk : ℕ → ℕ) (a : ℕ) (d : Dir)
    → IsEntry disk a d
    → leer_cabecera disk a ≡ record d { d_name = [] }
leer_cabecera-IsEntry disk a d (e₁, e₂, e₃, e₄, e₅, l₁, l₂, l₃, l₄) =
    let f₁ : of_le (leer 4 a disk) ≡ d.d_inode =
      ap of_le e₁ ∙ of_le-le_bytes_four d.d_inode ∙ omega (arith, l₁) in
    let f₂ : of_le (leer 2 (a + 4) disk) ≡ d.d_rec_len =
      ap of_le e₂ ∙ of_le-le_bytes_two d.d_rec_len ∙ omega (arith, l₂) in
    let f₃ : of_le (leer 1 (a + 6) disk) ≡ d.d_name_len =
      ap of_le e₃ ∙ of_le-le_bytes_one d.d_name_len l₃ in
    let f₄ : of_le (leer 1 (a + 7) disk) ≡ d.d_filetype =
      ap of_le e₄ ∙ of_le-le_bytes_one d.d_filetype l₄ in
    cc

abbrev con_nombre : Dir → List ℕ → Dir
con_nombre d s = record d { d_name = s }

pub leer_entrada-IsEntry :
    (disk : ℕ → ℕ) (a : ℕ) (d : Dir) → IsEntry disk a d → leer_entrada disk a ≡ d
leer_entrada-IsEntry disk a d h =
    ap {A = Dir} (λ c. record c { d_name = leer c.d_name_len (a + 8) disk })
      (leer_cabecera-IsEntry disk a d h)
    ∙ ap (con_nombre d) h.4

-- A place of a block below 2^32.
pub lugar_en_bloque_lem :
    (sb : Superblock) (bloque offset : ℕ)
    → offset < block_size sb
    → comienzo_bloque sb bloque + block_size sb < 2 ^ 32
    → lugar_en_bloque sb bloque offset ≡ comienzo_bloque sb bloque + offset
lugar_en_bloque_lem sb bloque offset lt le = omega (arith, lt, le)

entradas_step :
    (n : ℕ) (v : Volumen) (bloque offset : ℕ) (d : Dir) (ds : List Dir)
    → ltb offset (block_size v.sb) ≡ true
    → leer_entrada v.disk (lugar_en_bloque v.sb bloque offset) ≡ d
    → entradas_loop n v bloque ((offset + d.d_rec_len) % 2 ^ 32) ≡ some ds
    → entradas_loop (suc n) v bloque offset ≡ some (if d.d_inode == 0 then ds else d ∷ ds)
unfolding entradas_loop
entradas_step n v bloque offset d ds t e =
    subst
      (λ d.
        entradas_loop n v bloque ((offset + d.d_rec_len) % 2 ^ 32) ≡ some ds
        → entradas_loop (suc n) v bloque offset ≡ some (if d.d_inode == 0 then ds else d ∷ ds))
      e (λ h. rw (t, h))

entradas_end :
    (n : ℕ) (v : Volumen) (bloque offset : ℕ)
    → ltb offset (block_size v.sb) ≡ false
    → entradas_loop n v bloque offset ≡ some []
unfolding entradas_loop
entradas_end zero v bloque offset f = rw f
entradas_end (suc n) v bloque offset f = rw f

entradas_loop_lem :
    (n : ℕ) (v : Volumen) (bloque offset : ℕ) (ds : List Dir)
    → block_size v.sb ≤ n + offset
    → comienzo_bloque v.sb bloque + block_size v.sb < 2 ^ 32
    → AreLaid v.disk
        (comienzo_bloque v.sb bloque + offset)
        ds
        (comienzo_bloque v.sb bloque + block_size v.sb)
    → entradas_loop n v bloque offset ≡ some (vivas ds)
entradas_loop_lem n v bloque offset [] fuel le h =
    entradas_end n v bloque offset (ground (arith, h))
entradas_loop_lem zero v bloque offset (d ∷ ds) fuel le h =
    let inside = AreLaid-le v.disk _ _ ds h.3 in absurd (omega (arith, fuel, inside, h.1))
entradas_loop_lem (suc n) v bloque offset (d ∷ ds) fuel le (entry, whole, four, rest) =
    let inside = AreLaid-le v.disk _ _ ds rest in
    let lt : offset < block_size v.sb = omega (arith, inside, whole) in
    let here : leer_entrada v.disk (lugar_en_bloque v.sb bloque offset) ≡ d =
      ap (leer_entrada v.disk) (lugar_en_bloque_lem v.sb bloque offset lt le)
      ∙ leer_entrada-IsEntry v.disk (comienzo_bloque v.sb bloque + offset) d entry in
    let small : (offset + d.d_rec_len) % 2 ^ 32 ≡ offset + d.d_rec_len =
      omega (arith, inside, le) in
    let after =
      entradas_loop_lem n v bloque (offset + d.d_rec_len) ds (omega (arith, fuel, whole)) le (
        subst (λ a. AreLaid v.disk a ds (comienzo_bloque v.sb bloque + block_size v.sb))
          (omega arith) rest) in
    entradas_step n v bloque offset d (vivas ds) (ground (arith, lt)) here
      (ap (entradas_loop n v bloque) small ∙ after)

-- Of a block that ends below 2^32 with the entries `ds` from its start to its end, each with its bytes inside
-- its length, Dir_listar's loop ends, after a round for each byte at most, with the entries that are
-- not removed, in their order.
pub entradas_loop-HasEntries :
    (v : Volumen) (bloque : ℕ) (ds : List Dir)
    → HasEntries v bloque ds
    → entradas_loop (block_size v.sb) v bloque 0 ≡ some (vivas ds)
entradas_loop-HasEntries v bloque ds (le, laid) =
    entradas_loop_lem (block_size v.sb) v bloque 0 ds (omega arith) le (
      subst (λ a. AreLaid v.disk a ds (comienzo_bloque v.sb bloque + block_size v.sb)) (omega arith)
        laid)
