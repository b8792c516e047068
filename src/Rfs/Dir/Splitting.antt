-- ===== src/Rfs/Dir/Splitting.antt =====
-- `Dir_crearNuevaEntrada` on a block with place: what the block holds afterwards.
use tpso_yanero_los_grosos.Base.{
  ℕ, ◌+◌, ◌-◌, ◌%◌, ◌^◌, ◌<◌, ◌≤◌, ◌≡◌, refl, ap, sym, ◌∙◌, ◌≢◌, subst, ◌⊎◌, List, [], ◌∷◌, ◌++◌,
  inl, inr, arith, Bool-cases, leb, ◌==◌, if◌then◌else◌, length, take, take-length,
}
use tpso_yanero_los_grosos.Rfs.Disk.{escribir}
use tpso_yanero_los_grosos.Rfs.Dir.{Dir, cabecera, serializar_dir}
use tpso_yanero_los_grosos.Rfs.Dir.Creation.{tam_entrada}
use tpso_yanero_los_grosos.Rfs.Dir.Layout.{IsEntry, AreLaid}
use tpso_yanero_los_grosos.Rfs.Dir.Writing.{
  IsEntry-escribir, AreLaid-escribir, IsEntry-serializar_dir, IsEntry-cabecera,
}

pub tam_entrada_lem :
    (n : ℕ) → (8 + n ≤ tam_entrada n) × (tam_entrada n ≤ 8 + n + 3) × (tam_entrada n % 4 ≡ 0)
tam_entrada_lem n = elim (Bool-cases ((8 + n) % 4 == 0)) [
  | inl t ↦ rw t (omega arith, omega arith, ground (arith, t))
  | inr f ↦
      let odd : (8 + n) % 4 ≢ 0 = λ e. ground (arith, f, e) in
      rw f (ground arith, ground (arith, odd), ground arith)
]

-- The bytes behind the name of an entry, in multiples of 4.
abbrev pub sobra : Dir → ℕ
sobra d = d.d_rec_len - tam_entrada d.d_name_len

-- The entries of a block after an insertion: the first with place for `tam` bytes gives it up.
abbrev pub insertar : ℕ → Dir → List Dir → List Dir
insertar tam nueva [] = []
insertar tam nueva (d ∷ ds) =
    if leb tam (sobra d)
    then record d { d_rec_len = tam_entrada d.d_name_len }
      ∷ record nueva { d_rec_len = sobra d }
      ∷ ds
    else d ∷ insertar tam nueva ds

-- An entry has place for `tam` bytes.
abbrev pub HasRoom : ℕ → List Dir → Type 0
HasRoom tam [] = ⊥
HasRoom tam (d ∷ ds) = (tam ≤ sobra d) ⊎ HasRoom tam ds

-- The two writes, over the entry `d` at the address `a`.
abbrev pub escritura : (ℕ → ℕ) → ℕ → Dir → Dir → ℕ → ℕ
escritura disk a d nueva =
    let tam = tam_entrada d.d_name_len in
    escribir (serializar_dir (record nueva { d_rec_len = sobra d })) (a + tam)
      (escribir (cabecera (record d { d_rec_len = tam })) a disk)

-- The new entry fits its fields, and `tam` bytes.
abbrev pub Fits : Dir → ℕ → Type 0
Fits nueva tam =
    (length nueva.d_name ≡ nueva.d_name_len)
    × (nueva.d_inode < 2 ^ 32)
    × (nueva.d_name_len < 2 ^ 8)
    × (nueva.d_filetype < 2 ^ 8)
    × (8 + nueva.d_name_len ≤ tam)

serializar_whole :
    (d : Dir) → length d.d_name ≡ d.d_name_len → serializar_dir d ≡ cabecera d ++ d.d_name
serializar_whole d e =
    ap (λ s. cabecera d ++ s) (ap (λ n. take n d.d_name) (sym e) ∙ take-length d.d_name)

pub AreLaid-split :
    (disk : ℕ → ℕ) (a e : ℕ) (d nueva : Dir) (ds : List Dir) (tam : ℕ)
    → AreLaid disk a (d ∷ ds) e
    → Fits nueva tam
    → tam ≤ sobra d
    → AreLaid
        (escritura disk a d nueva)
        a
        (record d { d_rec_len = tam_entrada d.d_name_len }
          ∷ record nueva { d_rec_len = sobra d }
          ∷ ds)
        e
AreLaid-split disk a e d nueva ds tam (entry, whole, four, rest) (name, i, l, f, fit) room =
    let (more, less, times) = tam_entrada_lem d.d_name_len in
    let t = tam_entrada d.d_name_len in
    let c : Dir = record d { d_rec_len = t } in
    let g : Dir = record nueva { d_rec_len = sobra d } in
    let disk₁ = escribir (cabecera c) a disk in
    let small : sobra d < 2 ^ 16 = omega (arith, entry.6) in
    let here : IsEntry disk₁ a c =
      IsEntry-cabecera disk a d c entry refl refl entry.5 (omega (arith, entry.6, room, fit))
        entry.8 in
    let bs = cabecera g ++ g.d_name in
    let there : IsEntry (escribir bs (a + t) disk₁) (a + t) g =
      IsEntry-serializar_dir disk₁ (a + t) g name i small l f in
    let after =
      AreLaid-escribir disk₁ (a + d.d_rec_len) (a + t) e ds bs
        (inr (omega (arith, name, fit, room)))
        (AreLaid-escribir disk (a + d.d_rec_len) a e ds (cabecera c) (inr (omega (arith, whole)))
          rest) in
    subst (λ b. AreLaid (escribir b (a + t) disk₁) a (c ∷ g ∷ ds) e) (sym (serializar_whole g name))
      (
        IsEntry-escribir disk₁ a (a + t) c bs (inl (omega (arith, more))) here,
        more,
        times,
        (
          there,
          omega (arith, fit, room),
          omega (arith, times, four),
          subst (λ x. AreLaid (escribir bs (a + t) disk₁) x ds e) (omega (arith, fit, room)) after,
        ),
      )

-- An entry that ends before the two writes.
pub IsEntry-escritura :
    (disk : ℕ → ℕ) (x a : ℕ) (c d nueva : Dir)
    → x + (8 + c.d_name_len) ≤ a
    → IsEntry disk x c
    → IsEntry (escritura disk a d nueva) x c
IsEntry-escritura disk x a c d nueva le h =
    let tam = tam_entrada d.d_name_len in
    let disk₁ = escribir (cabecera (record d { d_rec_len = tam })) a disk in
    IsEntry-escribir disk₁ x (a + tam) c (serializar_dir (record nueva { d_rec_len = sobra d }))
      (inl (omega (arith, le)))
      (IsEntry-escribir disk x a c (cabecera (record d { d_rec_len = tam })) (inl le) h)
