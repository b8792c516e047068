-- ===== src/Rfs/Dir/Writing.antt =====
-- An entry that is written is there, and the entries elsewhere are as before.
use tpso_yanero_los_grosos.Base.{
  append-nil, ℕ, suc, ◌+◌, ◌^◌, ◌<◌, ◌≤◌, ◌≡◌, refl, ap, sym, ◌∙◌, subst, ◌⊎◌, List, [], ◌∷◌, ◌++◌,
  inl, inr, arith, length,
}
use tpso_yanero_los_grosos.Nipc.Bytes.{le_bytes}
use tpso_yanero_los_grosos.Rfs.Disk.{leer, escribir, leer-ext, leer-escribir_ne}
use tpso_yanero_los_grosos.Rfs.Dir.{Dir, cabecera}
use tpso_yanero_los_grosos.Rfs.Dir.Layout.{IsEntry, AreLaid, AreLaid-le}

-- What is written between other bytes is read.
leer-escribir_middle :
    (xs ys zs : List ℕ) (a : ℕ) (disk : ℕ → ℕ)
    → leer (length ys) (a + length xs) (escribir (xs ++ (ys ++ zs)) a disk) ≡ ys
leer-escribir_middle [] [] zs a disk = refl
leer-escribir_middle [] (y ∷ ys) zs a disk =
    let head : escribir (y ∷ (ys ++ zs)) a disk (a + 0) ≡ y = ground arith in
    rw head (
      ap (◌∷◌ y) (
        leer-ext (length ys) (a + 0 + 1) (escribir (y ∷ (ys ++ zs)) a disk)
          (escribir (ys ++ zs) (a + 1) disk) (λ x le. ground arith)
        ∙ ap (λ b. leer (length ys) b (escribir (ys ++ zs) (a + 1) disk)) (omega arith)
        ∙ leer-escribir_middle [] ys zs (a + 1) disk))
leer-escribir_middle (x ∷ xs) ys zs a disk =
    leer-ext (length ys) (a + suc (length xs)) (escribir (x ∷ (xs ++ (ys ++ zs))) a disk)
      (escribir (xs ++ (ys ++ zs)) (a + 1) disk) (λ y le. ground arith)
    ∙ ap (λ b. leer (length ys) b (escribir (xs ++ (ys ++ zs)) (a + 1) disk)) (omega arith)
    ∙ leer-escribir_middle xs ys zs (a + 1) disk

leer_at :
    (xs ys zs bs : List ℕ) (n a c : ℕ) (disk : ℕ → ℕ)
    → bs ≡ xs ++ (ys ++ zs)
    → n ≡ length ys
    → c ≡ a + length xs
    → leer n c (escribir bs a disk) ≡ ys
leer_at xs ys zs bs n a c disk e₁ e₂ e₃ = rw (e₁, e₂, e₃) (leer-escribir_middle xs ys zs a disk)

-- An entry is as before where the writing is out of its header and its name.
pub IsEntry-escribir :
    (disk : ℕ → ℕ) (a b : ℕ) (d : Dir) (bs : List ℕ)
    → (a + (8 + d.d_name_len) ≤ b) ⊎ (b + length bs ≤ a)
    → IsEntry disk a d
    → IsEntry (escribir bs b disk) a d
IsEntry-escribir disk a b d bs out (e₁, e₂, e₃, e₄, e₅, l₁, l₂, l₃, l₄) = (
  away 4 a (omega arith) (omega arith) ∙ e₁,
  away 2 (a + 4) (omega arith) (omega arith) ∙ e₂,
  away 1 (a + 6) (omega arith) (omega arith) ∙ e₃,
  away 1 (a + 7) (omega arith) (omega arith) ∙ e₄,
  away d.d_name_len (a + 8) (omega arith) (omega arith) ∙ e₅,
  l₁,
  l₂,
  l₃,
  l₄,
)
  where
    away :
        (n c : ℕ)
        → a ≤ c
        → c + n ≤ a + (8 + d.d_name_len)
        → leer n c (escribir bs b disk) ≡ leer n c disk
    away n c le le' =
        leer-escribir_ne n c b bs disk
          (elim out [ inl l ↦ inl (omega (arith, l, le')) | inr l ↦ inr (omega (arith, l, le)) ])

-- So are the entries of a range where the writing is out of the range.
pub AreLaid-escribir :
    (disk : ℕ → ℕ) (a b e : ℕ) (ds : List Dir) (bs : List ℕ)
    → (e ≤ b) ⊎ (b + length bs ≤ a)
    → AreLaid disk a ds e
    → AreLaid (escribir bs b disk) a ds e
AreLaid-escribir disk a b e [] bs out h = h
AreLaid-escribir disk a b e (d ∷ ds) bs out h =
    let after = AreLaid-le disk (a + d.d_rec_len) e ds h.3 in
    (
      IsEntry-escribir disk a b d bs
          (elim out [ inl l ↦ inl (omega (arith, l, after, h.1)) | inr l ↦ inr l ]) h.0,
      h.1,
      h.2,
      AreLaid-escribir disk (a + d.d_rec_len) b e ds bs
          (elim out [ inl l ↦ inl l | inr l ↦ inr (omega (arith, l)) ]) h.3,
    )

-- An entry that was written, with its name.
pub IsEntry-serializar_dir :
    (disk : ℕ → ℕ) (a : ℕ) (d : Dir)
    → length d.d_name ≡ d.d_name_len
    → d.d_inode < 2 ^ 32
    → d.d_rec_len < 2 ^ 16
    → d.d_name_len < 2 ^ 8
    → d.d_filetype < 2 ^ 8
    → IsEntry (escribir (cabecera d ++ d.d_name) a disk) a d
IsEntry-serializar_dir disk a d e l₁ l₂ l₃ l₄ =
    let b₁ = le_bytes 4 d.d_inode in
    let b₂ = le_bytes 2 d.d_rec_len in
    let b₃ = le_bytes 1 d.d_name_len in
    let b₄ = le_bytes 1 d.d_filetype in
    let s = d.d_name in
    let bs = cabecera d ++ s in
    (
      leer_at [] b₁ (b₂ ++ (b₃ ++ (b₄ ++ s))) bs 4 a a disk refl refl (omega arith),
      leer_at b₁ b₂ (b₃ ++ (b₄ ++ s)) bs 2 a (a + 4) disk refl refl refl,
      leer_at (b₁ ++ b₂) b₃ (b₄ ++ s) bs 1 a (a + 6) disk refl refl refl,
      leer_at (b₁ ++ (b₂ ++ b₃)) b₄ s bs 1 a (a + 7) disk refl refl refl,
      leer_at (cabecera d) s [] bs d.d_name_len a (a + 8) disk
          (ap (λ t. cabecera d ++ t) (sym (append-nil s))) (sym e) refl,
      l₁,
      l₂,
      l₃,
      l₄,
    )

-- A header that was written over that of an entry, whose name stays.
pub IsEntry-cabecera :
    (disk : ℕ → ℕ) (a : ℕ) (d c : Dir)
    → IsEntry disk a d
    → c.d_name_len ≡ d.d_name_len
    → c.d_name ≡ d.d_name
    → c.d_inode < 2 ^ 32
    → c.d_rec_len < 2 ^ 16
    → c.d_filetype < 2 ^ 8
    → IsEntry (escribir (cabecera c) a disk) a c
IsEntry-cabecera disk a d c h e₁ e₂ l₁ l₂ l₃ =
    let b₁ = le_bytes 4 c.d_inode in
    let b₂ = le_bytes 2 c.d_rec_len in
    let b₃ = le_bytes 1 c.d_name_len in
    let b₄ = le_bytes 1 c.d_filetype in
    let bs = cabecera c in
    let kept : leer d.d_name_len (a + 8) (escribir bs a disk) ≡ d.d_name =
      leer-escribir_ne d.d_name_len (a + 8) a bs disk (inr (omega arith)) ∙ h.4 in
    (
      leer_at [] b₁ (b₂ ++ (b₃ ++ b₄)) bs 4 a a disk refl refl (omega arith),
      leer_at b₁ b₂ (b₃ ++ b₄) bs 2 a (a + 4) disk refl refl refl,
      leer_at (b₁ ++ b₂) b₃ b₄ bs 1 a (a + 6) disk refl refl refl,
      leer_at (b₁ ++ (b₂ ++ b₃)) b₄ [] bs 1 a (a + 7) disk refl refl refl,
      ap (λ n. leer n (a + 8) (escribir bs a disk)) e₁ ∙ kept ∙ sym e₂,
      l₁,
      l₂,
      subst (λ n. n < 2 ^ 8) (sym e₁) h.7,
      l₃,
    )
