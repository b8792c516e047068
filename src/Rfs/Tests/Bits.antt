-- ===== src/Rfs/Tests/Bits.antt =====
-- The operations on one bit, as functions on bytes: the bit `i` stands in the byte `i / 8`, the least
-- first.
use tpso_yanero_los_grosos.Base.{
  ℕ, zero, suc, ◌+◌, ◌-◌, ◌*◌, ◌/◌, ◌%◌, ◌<◌, ◌≡◌, refl, ap, ◌≢◌, Bool, true, false, List, [], ◌∷◌,
  arith, ◌==◌, if◌then◌else◌, length,
}
use tpso_yanero_los_grosos.Rfs.Bitmap.{Bitarray}

abbrev bit : ℕ → ℕ → Bool
bit b zero = (b % 2) == 1
bit b (suc k) = bit (b / 2) k

abbrev poner : Bool → ℕ → ℕ → ℕ
poner v b zero = b - b % 2 + (if v then 1 else 0)
poner v b (suc k) = b % 2 + 2 * poner v (b / 2) k

abbrev test : List ℕ → ℕ → ℕ → Bool
test [] q k = false
test (b ∷ bs) zero k = bit b k
test (b ∷ bs) (suc q) k = test bs q k

abbrev cambiar : Bool → List ℕ → ℕ → ℕ → List ℕ
cambiar v [] q k = []
cambiar v (b ∷ bs) zero k = poner v b k ∷ bs
cambiar v (b ∷ bs) (suc q) k = b ∷ cambiar v bs q k

bit-poner : (v : Bool) (b k : ℕ) → bit (poner v b k) k ≡ v
bit-poner true b zero = ground arith
bit-poner false b zero = ground arith
bit-poner v b (suc k) =
    let half : (b % 2 + 2 * poner v (b / 2) k) / 2 ≡ poner v (b / 2) k = omega arith in
    rw half (bit-poner v (b / 2) k)

bit-poner_ne : (v : Bool) (b j k : ℕ) → j ≢ k → bit (poner v b j) k ≡ bit b k
bit-poner_ne v b zero zero ne = absurd (ne refl)
bit-poner_ne true b zero (suc k) ne = ap (λ x. bit x k) (omega arith)
bit-poner_ne false b zero (suc k) ne = ap (λ x. bit x k) (omega arith)
bit-poner_ne v b (suc j) zero ne = ap (λ x. x == 1) (omega arith)
bit-poner_ne v b (suc j) (suc k) ne =
    let half : (b % 2 + 2 * poner v (b / 2) j) / 2 ≡ poner v (b / 2) j = omega arith in
    rw half (bit-poner_ne v (b / 2) j k (λ e. ne (ap suc e)))

pub length-cambiar : (v : Bool) (bs : List ℕ) (q k : ℕ) → length (cambiar v bs q k) ≡ length bs
length-cambiar v [] q k = refl
length-cambiar v (b ∷ bs) zero k = refl
length-cambiar v (b ∷ bs) (suc q) k = ap suc (length-cambiar v bs q k)

pub test-cambiar :
    (v : Bool) (bs : List ℕ) (q k : ℕ) → q < length bs → test (cambiar v bs q k) q k ≡ v
test-cambiar v [] q k h = elim h [ ]
test-cambiar v (b ∷ bs) zero k h = bit-poner v b k
test-cambiar v (b ∷ bs) (suc q) k h = test-cambiar v bs q k (omega arith)

pub test-cambiar_ne :
    (v : Bool) (bs : List ℕ) (p j q k : ℕ)
    → (p ≡ q → j ≢ k)
    → test (cambiar v bs p j) q k ≡ test bs q k
test-cambiar_ne v [] p j q k ne = refl
test-cambiar_ne v (b ∷ bs) zero j zero k ne = bit-poner_ne v b j k (ne refl)
test-cambiar_ne v (b ∷ bs) zero j (suc q) k ne = refl
test-cambiar_ne v (b ∷ bs) (suc p) j zero k ne = refl
test-cambiar_ne v (b ∷ bs) (suc p) j (suc q) k ne =
    test-cambiar_ne v bs p j q k (λ e. ne (ap suc e))

pub places_ne : (i j : ℕ) → i ≢ j → i / 8 ≡ j / 8 → i % 8 ≢ j % 8
places_ne i j ne e f = ne (omega arith)

abbrev pub en_bytes : Bitarray
en_bytes = record {
  test_bit = λ bs i. test bs (i / 8) (i % 8);
  set_bit = λ bs i. cambiar true bs (i / 8) (i % 8);
  clean_bit = λ bs i. cambiar false bs (i / 8) (i % 8);
  length-set_bit = λ bs i. length-cambiar true bs (i / 8) (i % 8);
  length-clean_bit = λ bs i. length-cambiar false bs (i / 8) (i % 8);
  test-set = λ bs i h. test-cambiar true bs (i / 8) (i % 8) (omega (arith, h));
  test-clean = λ bs i h. test-cambiar false bs (i / 8) (i % 8) (omega (arith, h));
  test-set_ne =
      λ bs i j h l ne. test-cambiar_ne true bs (i / 8) (i % 8) (j / 8) (j % 8) (places_ne i j ne);
  test-clean_ne =
      λ bs i j h l ne. test-cambiar_ne false bs (i / 8) (i % 8) (j / 8) (j % 8) (places_ne i j ne);
}
