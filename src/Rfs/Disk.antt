-- ===== src/Rfs/Disk.antt =====
-- The file with the disk: its bytes by address, read and written in order (`fread`, `fwrite`), and
-- the structs of rfs/Superblock.h and rfs/Grupos.h with the fields that the groups use.
use native.Mathlib.Nat.{pow-suc}
use tpso_yanero_los_grosos.Base.{
  ℕ, zero, suc, ◌+◌, ◌-◌, ◌*◌, ◌/◌, ◌%◌, ◌^◌, ◌<◌, ◌≤◌, ◌≡◌, refl, ap, ◌∙◌, ◌⊎◌, inl, inr, false,
  List, [], ◌∷◌, Option, none, some, arith, ◌==◌, if◌then◌else◌, length,
}

-- `n` bytes from the address `a` on.
abbrev pub leer : ℕ → ℕ → (ℕ → ℕ) → List ℕ
leer zero a disk = []
leer (suc n) a disk = disk a ∷ leer n (a + 1) disk

abbrev pub escribir : List ℕ → ℕ → (ℕ → ℕ) → ℕ → ℕ
escribir [] a disk x = disk x
escribir (b ∷ bs) a disk x = if x == a then b else escribir bs (a + 1) disk x

pub leer-ext : (n a : ℕ) (f g : ℕ → ℕ) → ((x : ℕ) → a ≤ x → f x ≡ g x) → leer n a f ≡ leer n a g
leer-ext zero a f g h = refl
leer-ext (suc n) a f g h =
    rw (h a (omega arith)) (ap (◌∷◌ (g a)) (leer-ext n (a + 1) f g (λ x le. h x (omega arith))))

-- What was written is read.
pub leer-escribir :
    (bs : List ℕ) (a : ℕ) (disk : ℕ → ℕ) → leer (length bs) a (escribir bs a disk) ≡ bs
leer-escribir [] a disk = refl
leer-escribir (b ∷ bs) a disk =
    let head : escribir (b ∷ bs) a disk a ≡ b = ground arith in
    rw head (
      ap (◌∷◌ b) (
        leer-ext (length bs) (a + 1) (escribir (b ∷ bs) a disk) (escribir bs (a + 1) disk)
          (λ x le. ground arith)
        ∙ leer-escribir bs (a + 1) disk))

escribir-out :
    (bs : List ℕ) (a x : ℕ) (disk : ℕ → ℕ)
    → (x < a) ⊎ (a + length bs ≤ x)
    → escribir bs a disk x ≡ disk x
escribir-out [] a x disk h = refl
escribir-out (b ∷ bs) a x disk h =
    let out : (x < a + 1) ⊎ (a + 1 + length bs ≤ x) = elim h [
      | inl l ↦ inl (omega arith)
      | inr l ↦ inr (omega arith)
    ] in
    let test : (x == a) ≡ false = elim h [ inl l ↦ ground arith | inr l ↦ ground arith ] in
    rw test (escribir-out bs (a + 1) x disk out)

-- What stands elsewhere is read as before.
pub leer-escribir_ne :
    (n a b : ℕ) (bs : List ℕ) (disk : ℕ → ℕ)
    → (a + n ≤ b) ⊎ (b + length bs ≤ a)
    → leer n a (escribir bs b disk) ≡ leer n a disk
leer-escribir_ne zero a b bs disk h = refl
leer-escribir_ne (suc n) a b bs disk h =
    let here : (a < b) ⊎ (b + length bs ≤ a) = elim h [
      | inl l ↦ inl (omega arith)
      | inr l ↦ inr l
    ] in
    let next : (a + 1 + n ≤ b) ⊎ (b + length bs ≤ a + 1) = elim h [
      | inl l ↦ inl (omega arith)
      | inr l ↦ inr (omega arith)
    ] in
    rw (escribir-out bs b a disk here)
      (ap (◌∷◌ (disk a)) (leer-escribir_ne n (a + 1) b bs disk next))

pub length-leer : (n a : ℕ) (disk : ℕ → ℕ) → length (leer n a disk) ≡ n
length-leer zero a disk = refl
length-leer (suc n) a disk = ap suc (length-leer n (a + 1) disk)

-- `Superblock`.
pub record Superblock : Type 0 where
  pub s_blocks_count : ℕ
  pub s_free_blocks_count : ℕ
  pub s_free_inodes_count : ℕ
  pub s_first_data_block : ℕ
  pub s_log_block_size : ℕ
  pub s_blocks_per_group : ℕ
  pub s_inodes_per_group : ℕ

-- `Group_descriptor`.
pub record GroupDescriptor : Type 0 where
  pub bg_block_bitmap : ℕ
  pub bg_inode_bitmap : ℕ
  pub bg_inode_table : ℕ
  pub bg_free_blocks_count : ℕ
  pub bg_free_inodes_count : ℕ
  pub bg_used_dirs_count : ℕ

-- What the functions of the groups share: the file, the superblock and the table of groups.
pub record Volumen : Type 0 where
  pub disk : ℕ → ℕ
  pub sb : Superblock
  pub bgdt : List GroupDescriptor

-- Unsigned subtraction, increment and decrement on `w` bits.
abbrev pub resta : ℕ → ℕ → ℕ → ℕ
resta w a b = (a + 2 ^ w - b % 2 ^ w) % 2 ^ w

abbrev pub incremento : ℕ → ℕ → ℕ
incremento w a = (a + 1) % 2 ^ w

abbrev pub decremento : ℕ → ℕ → ℕ
decremento w a = resta w a 1

-- A division, a fault by 0.
abbrev pub div? : ℕ → ℕ → Option ℕ
div? a b = if b == 0 then none else some (a / b)

abbrev pub block_size : Superblock → ℕ
block_size sb = 1024 * 2 ^ sb.s_log_block_size

-- Where a block starts in the file: a `size_t` of 32 bits.
abbrev pub comienzo_bloque : Superblock → ℕ → ℕ
comienzo_bloque sb bloque = (bloque * block_size sb) % 2 ^ 32

two_pow_pos : (n : ℕ) → 0 < 2 ^ n
two_pow_pos zero = omega arith
two_pow_pos (suc n) = rw (pow-suc 2 n) (omega (arith, two_pow_pos n))

pub block_size_pos : (sb : Superblock) → 0 < block_size sb
block_size_pos sb = omega (arith, two_pow_pos sb.s_log_block_size)
