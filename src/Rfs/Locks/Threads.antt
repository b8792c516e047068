-- ===== src/Rfs/Locks/Threads.antt =====
-- How many threads use an inode, and for what.
use tpso_yanero_los_grosos.Base.{
  ℕ, ◌+◌, ◌≤◌, ◌≡◌, refl, ap, ◌∙◌, ◌≢◌, Bool, true, false, ◌&&◌, not, List, [], ◌∷◌, ◌++◌, inl, inr,
  arith, Bool-cases, ◌==◌, if◌then◌else◌, length,
}
use tpso_yanero_los_grosos.Rfs.Locks.{Hilo}

abbrev pub uno : Bool → ℕ
uno b = if b then 1 else 0

-- How many threads pass a test.
abbrev pub cuantos : (Hilo → Bool) → List Hilo → ℕ
cuantos p [] = 0
cuantos p (h ∷ hs) = uno (p h) + cuantos p hs

-- The threads of an inode, those whose node is at an address, those that read it and those that
-- write it.
abbrev pub de : ℕ → Hilo → Bool
de nro h = h.nro == nro

abbrev pub en : ℕ → ℕ → Hilo → Bool
en nro d h = (h.nro == nro) && (h.nodo == d)

abbrev pub leyendo : ℕ → Hilo → Bool
leyendo nro h = (h.nro == nro) && (h.dentro && not h.escribe)

abbrev pub escribiendo : ℕ → Hilo → Bool
escribiendo nro h = (h.nro == nro) && (h.dentro && h.escribe)

pub cuantos-middle :
    (p : Hilo → Bool) (hs₁ hs₂ : List Hilo) (h : Hilo)
    → cuantos p (hs₁ ++ h ∷ hs₂) ≡ uno (p h) + cuantos p (hs₁ ++ hs₂)
cuantos-middle p [] hs₂ h = refl
cuantos-middle p (g ∷ hs₁) hs₂ h = omega (arith, cuantos-middle p hs₁ hs₂ h)

uno-le : (a b : Bool) → uno (a && b) ≤ uno a
uno-le true true = omega arith
uno-le true false = omega arith
uno-le false b = omega arith

pub uno-le_one : (a : Bool) → uno a ≤ 1
uno-le_one true = omega arith
uno-le_one false = omega arith

pub cuantos-le :
    (nro : ℕ) (q : Hilo → Bool) (hs : List Hilo)
    → cuantos (λ h. (h.nro == nro) && q h) hs ≤ cuantos (de nro) hs
cuantos-le nro q [] = omega arith
cuantos-le nro q (h ∷ hs) = omega (arith, uno-le (h.nro == nro) (q h), cuantos-le nro q hs)

pub cuantos-length : (p : Hilo → Bool) (hs : List Hilo) → cuantos p hs ≤ length hs
cuantos-length p [] = omega arith
cuantos-length p (h ∷ hs) = elim (Bool-cases (p h)) [
  | inl t ↦ rw t (omega (arith, cuantos-length p hs))
  | inr f ↦ rw f (omega (arith, cuantos-length p hs))
]

none_more : (n : ℕ) → 0 + n ≡ n
none_more n = omega arith

-- A thread in the list counts for its inode, and for no other.
pub count_own :
    (h : Hilo) (q : Hilo → Bool) (hs₁ hs₂ : List Hilo)
    → cuantos (λ g. (g.nro == h.nro) && q g) (hs₁ ++ h ∷ hs₂)
      ≡ uno (q h) + cuantos (λ g. (g.nro == h.nro) && q g) (hs₁ ++ hs₂)
count_own h q hs₁ hs₂ =
    let own : (h.nro == h.nro) ≡ true = ground arith in
    cuantos-middle (λ g. (g.nro == h.nro) && q g) hs₁ hs₂ h
    ∙ ap (λ t. uno (t && q h) + cuantos (λ g. (g.nro == h.nro) && q g) (hs₁ ++ hs₂)) own

pub count_other :
    (h : Hilo) (nro : ℕ) (q : Hilo → Bool) (hs₁ hs₂ : List Hilo)
    → h.nro ≢ nro
    → cuantos (λ g. (g.nro == nro) && q g) (hs₁ ++ h ∷ hs₂)
      ≡ cuantos (λ g. (g.nro == nro) && q g) (hs₁ ++ hs₂)
count_other h nro q hs₁ hs₂ ne =
    let other : (h.nro == nro) ≡ false = ground (arith, ne) in
    cuantos-middle (λ g. (g.nro == nro) && q g) hs₁ hs₂ h
    ∙ ap (λ t. uno (t && q h) + cuantos (λ g. (g.nro == nro) && q g) (hs₁ ++ hs₂)) other
    ∙ none_more _

pub all_own :
    (h : Hilo) (hs₁ hs₂ : List Hilo)
    → cuantos (de h.nro) (hs₁ ++ h ∷ hs₂) ≡ 1 + cuantos (de h.nro) (hs₁ ++ hs₂)
all_own h hs₁ hs₂ =
    let own : (h.nro == h.nro) ≡ true = ground arith in
    cuantos-middle (de h.nro) hs₁ hs₂ h ∙ ap (λ t. uno t + cuantos (de h.nro) (hs₁ ++ hs₂)) own

pub all_other :
    (h : Hilo) (nro : ℕ) (hs₁ hs₂ : List Hilo)
    → h.nro ≢ nro
    → cuantos (de nro) (hs₁ ++ h ∷ hs₂) ≡ cuantos (de nro) (hs₁ ++ hs₂)
all_other h nro hs₁ hs₂ ne =
    let other : (h.nro == nro) ≡ false = ground (arith, ne) in
    cuantos-middle (de nro) hs₁ hs₂ h
    ∙ ap (λ t. uno t + cuantos (de nro) (hs₁ ++ hs₂)) other
    ∙ none_more _
