-- ===== src/Nipc/Bytes.antt =====
-- Little-endian numbers and C strings as bytes. `none` is a read past the bytes that are there.
use native.Mathlib.Nat.{pow-suc, pow-succ', div-div-eq-div-mul}
use Prim.Native.Nat.add
use tpso_yanero_los_grosos.Base.{
  ℕ, zero, suc, ◌+◌, ◌*◌, ◌/◌, ◌%◌, ◌^◌, ◌<◌, ◌≡◌, refl, ap, sym, ◌∙◌, ◌≢◌, List, [], ◌∷◌, ◌++◌,
  Option, none, some, true, arith, ◌>>=◌, ◌==◌, if◌then◌else◌, length, length-append, take, drop,
  leb, take-length-append, drop-length-append,
}

-- `memcpy(dst, &v, n)`: the low `n` bytes of `v`, the least first.
abbrev pub le_bytes : ℕ → ℕ → List ℕ
le_bytes zero v = []
le_bytes (suc n) v = (v % 256) ∷ le_bytes n (v / 256)

-- The number that such bytes stand for.
abbrev pub of_le : List ℕ → ℕ
of_le [] = 0
of_le (b ∷ bs) = b + 256 * of_le bs

pub length-le_bytes : (n v : ℕ) → length (le_bytes n v) ≡ n
length-le_bytes zero v = refl
length-le_bytes (suc n) v = ap suc (length-le_bytes n (v / 256))

-- The source's types by their sizes: `uint8_t`, `uint16_t`, `uint32_t`.
pub of_le-le_bytes_four : (v : ℕ) → of_le (le_bytes 4 v) ≡ v % 2 ^ 32
of_le-le_bytes_four v = omega arith

pub of_le-le_bytes_two : (v : ℕ) → of_le (le_bytes 2 v) ≡ v % 2 ^ 16
of_le-le_bytes_two v = omega arith

-- `memcpy(dst, src + off, n)`.
unfoldable pub slice : ℕ → ℕ → List ℕ → Option (List ℕ)
slice off n bs = if leb (off + n) (length bs) then some (take n (drop off bs)) else none

-- A number of `n` bytes read at `off`.
unfoldable pub read_le : ℕ → ℕ → List ℕ → Option ℕ
unfolding slice
read_le off n bs = do w ← slice off n bs; some (of_le w)

-- `strlen`, and the bytes up to the zero.
unfoldable pub c_string : List ℕ → Option (List ℕ)
c_string [] = none
c_string (b ∷ bs) =
    let rest = (do s ← c_string bs; some (b ∷ s)) in if b == 0 then some [] else rest

-- A text has no zero byte.
abbrev pub IsText : List ℕ → Type 0
IsText [] = Unit {0}
IsText (b ∷ bs) = (b ≢ 0) × IsText bs

pub c_string-append : (s rest : List ℕ) → IsText s → c_string (s ++ (0 ∷ rest)) ≡ some s
unfolding c_string
c_string-append [] rest h = refl
c_string-append (b ∷ s) rest h = ground (arith, c_string-append s rest h.1)

drop-append-add : (a b : List ℕ) (k : ℕ) → drop (length a + k) (a ++ b) ≡ drop k b
drop-append-add [] b k = ap (λ (n : ℕ). drop n b) (omega arith)
drop-append-add (x ∷ a) b k =
    let e : length (x ∷ a) + k ≡ suc (length a + k) = omega arith in rw e (drop-append-add a b k)

-- A part that stands behind `a` and before `c`.
pub slice-append :
    (a b c : List ℕ) (off n : ℕ)
    → off ≡ length a
    → n ≡ length b
    → slice off n (a ++ (b ++ c)) ≡ some b
unfolding slice
slice-append a b c off n eo en =
    rw (eo, en, fits, drop-length-append a (b ++ c), take-length-append b c)
  where
    fits : leb (length a + length b) (length (a ++ (b ++ c))) ≡ true
    fits = ground (arith, length-append a (b ++ c), length-append b c)

pub read_le-append :
    (a b c : List ℕ) (off n : ℕ)
    → off ≡ length a
    → n ≡ length b
    → read_le off n (a ++ (b ++ c)) ≡ some (of_le b)
unfolding read_le
read_le-append a b c off n eo en = rw (slice-append a b c off n eo en)

-- A number that fits its bytes is read back.
pub of_le-le_bytes : (n v : ℕ) → v < 256 ^ n → of_le (le_bytes n v) ≡ v
of_le-le_bytes zero v h = omega (arith, h)
of_le-le_bytes (suc n) v h =
    omega (arith, of_le-le_bytes n (v / 256) (smaller (rw (pow-suc 256 n) at h)))
  where
    smaller : v < 256 ^ n * 256 → v / 256 < 256 ^ n
    smaller h' = omega (arith, h')

-- A longer number begins with the bytes of a shorter one.
pub le_bytes-add : (n k v : ℕ) → le_bytes (n + k) v ≡ le_bytes n v ++ le_bytes k (v / 256 ^ n)
le_bytes-add zero k v = rw (add.zero k) (ap (le_bytes k) (omega arith))
le_bytes-add (suc n) k v = rw (add.suc n k) (
    ap (◌∷◌ (v % 256)) (
      le_bytes-add n k (v / 256)
      ∙ ap (λ u. le_bytes n (v / 256) ++ le_bytes k u)
          (div-div-eq-div-mul v 256 (256 ^ n) ∙ ap (λ u. v / u) (sym (pow-succ' 256 n)))))
