-- ===== src/Rfs/Locks/Lookup.antt =====
-- What the operations of rfs/sincro.c do to the node of each inode, where no two nodes of the list
-- have the same inode or the same address.
use tpso_yanero_los_grosos.Base.{
  ℕ, ◌≡◌, refl, sym, ◌≢◌, true, false, List, [], ◌∷◌, Option, none, some, inl, inr, arith,
  Bool-cases, ◌==◌, if◌then◌else◌,
}
use tpso_yanero_los_grosos.Rfs.Disk.{incremento}
use tpso_yanero_los_grosos.Rfs.Locks.{RwLock, Nodo, nodo_nuevo, registrar, IsFresh}

-- The node of an inode.
abbrev pub nodo_de : {L : Type 0} → ℕ → List (Nodo L) → Option (Nodo L)
nodo_de nro [] = none
nodo_de nro (n ∷ ns) = let rest = nodo_de nro ns in if n.nro_inodo == nro then some n else rest

abbrev pub Lacks : {L : Type 0} → ℕ → List (Nodo L) → Type 0
Lacks nro [] = Unit
Lacks nro (n ∷ ns) = (n.nro_inodo ≢ nro) × Lacks nro ns

abbrev pub AreDistinct : {L : Type 0} → List (Nodo L) → Type 0
AreDistinct [] = Unit
AreDistinct (n ∷ ns) = Lacks n.nro_inodo ns × IsFresh n.dir ns × AreDistinct ns

pub nodo_de-Lacks :
    {L : Type 0} (nro : ℕ) (ns : List (Nodo L)) → Lacks nro ns → nodo_de nro ns ≡ none
nodo_de-Lacks nro [] h = refl
nodo_de-Lacks nro (n ∷ ns) h =
    let test : (n.nro_inodo == nro) ≡ false = ground (arith, h.0) in
    rw test (nodo_de-Lacks nro ns h.1)

pub nodo_de-hit :
    {L : Type 0} (nro : ℕ) (n : Nodo L) (ns : List (Nodo L))
    → (n.nro_inodo == nro) ≡ true
    → nodo_de nro (n ∷ ns) ≡ some n
nodo_de-hit nro n ns t = rw t

pub nodo_de-miss :
    {L : Type 0} (nro : ℕ) (n : Nodo L) (ns : List (Nodo L))
    → (n.nro_inodo == nro) ≡ false
    → nodo_de nro (n ∷ ns) ≡ nodo_de nro ns
nodo_de-miss nro n ns f = rw f

module _ {L : Type 0} (rwlock : RwLock L) where
  -- The node of an inode after one more thread registered.
  abbrev pub registrado : ℕ → ℕ → Option (Nodo L) → Nodo L
  registrado nro nuevo none = nodo_nuevo rwlock nro nuevo
  registrado nro nuevo (some n) = record n { cant_hilos = incremento 32 n.cant_hilos }

  pub nodo_de-registrar :
      (nro nuevo : ℕ) (ns : List (Nodo L))
      → (nodo_de nro (registrar rwlock nro nuevo ns).0
          ≡ some (registrado nro nuevo (nodo_de nro ns)))
        × ((registrar rwlock nro nuevo ns).1 ≡ (registrado nro nuevo (nodo_de nro ns)).dir)
  nodo_de-registrar nro nuevo [] = let test : (nro == nro) ≡ true = ground arith in (rw test, refl)
  nodo_de-registrar nro nuevo (n ∷ ns) = elim (Bool-cases (n.nro_inodo == nro)) [
    | inl t ↦ (rw (t, t), rw t)
    | inr f ↦ let (e₁, e₂) = nodo_de-registrar nro nuevo ns in (rw (f, f) e₁, rw f e₂)
  ]

  pub nodo_de-registrar_ne :
      (nro nuevo m : ℕ) (ns : List (Nodo L))
      → nro ≢ m
      → nodo_de m (registrar rwlock nro nuevo ns).0 ≡ nodo_de m ns
  nodo_de-registrar_ne nro nuevo m [] ne =
      let test : (nro == m) ≡ false = ground (arith, ne) in rw test
  nodo_de-registrar_ne nro nuevo m (n ∷ ns) ne = elim (Bool-cases (n.nro_inodo == nro)) [
    | inl t ↦ let test : (n.nro_inodo == m) ≡ false = ground (arith, ne, t) in rw (t, test)
    | inr f ↦ rw (f, nodo_de-registrar_ne nro nuevo m ns ne)
  ]

  Lacks-registrar :
      (nro nuevo m : ℕ) (ns : List (Nodo L))
      → nro ≢ m
      → Lacks m ns
      → Lacks m (registrar rwlock nro nuevo ns).0
  Lacks-registrar nro nuevo m [] ne h = (ne, tt)
  Lacks-registrar nro nuevo m (n ∷ ns) ne h = elim (Bool-cases (n.nro_inodo == nro)) [
    | inl t ↦ rw t h
    | inr f ↦ rw f (h.0, Lacks-registrar nro nuevo m ns ne h.1)
  ]

  IsFresh-registrar :
      (nro nuevo d : ℕ) (ns : List (Nodo L))
      → nuevo ≢ d
      → IsFresh d ns
      → IsFresh d (registrar rwlock nro nuevo ns).0
  IsFresh-registrar nro nuevo d [] ne h = (ne, tt)
  IsFresh-registrar nro nuevo d (n ∷ ns) ne h = elim (Bool-cases (n.nro_inodo == nro)) [
    | inl t ↦ rw t h
    | inr f ↦ rw f (h.0, IsFresh-registrar nro nuevo d ns ne h.1)
  ]

  pub AreDistinct-registrar :
      (nro nuevo : ℕ) (ns : List (Nodo L))
      → IsFresh nuevo ns
      → AreDistinct ns
      → AreDistinct (registrar rwlock nro nuevo ns).0
  AreDistinct-registrar nro nuevo [] fresh h = (tt, tt, tt)
  AreDistinct-registrar nro nuevo (n ∷ ns) fresh h = elim (Bool-cases (n.nro_inodo == nro)) [
    | inl t ↦ rw t h
    | inr f ↦
        let ne : nro ≢ n.nro_inodo = λ e. ground (arith, f, e) in
        rw f (
          Lacks-registrar nro nuevo n.nro_inodo ns ne h.0,
          IsFresh-registrar nro nuevo n.dir ns (λ e. fresh.0 (sym e)) h.1,
          AreDistinct-registrar nro nuevo ns fresh.1 h.2,
        )
  ]
