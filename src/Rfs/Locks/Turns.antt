-- ===== src/Rfs/Locks/Turns.antt =====
-- What a turn at the lock, and `Sincro_monitorUnlock`, do to the node of each inode.
use tpso_yanero_los_grosos.Base.{
  some-inj, ℕ, ◌≡◌, refl, ap, sym, subst, ◌∙◌, ◌≢◌, true, false, List, [], ◌∷◌, Option, none, some,
  inl, inr, arith, Bool-cases, ◌==◌, if◌then◌else◌,
}
use tpso_yanero_los_grosos.Rfs.Disk.{decremento}
use tpso_yanero_los_grosos.Rfs.Locks.{
  RwLock, Nodo, Turno, espera, sigue, tras, con_lock, lock_de, tomar, monitor_unlock, IsFresh,
}
use tpso_yanero_los_grosos.Rfs.Locks.Lookup.{
  nodo_de, Lacks, AreDistinct, nodo_de-Lacks, nodo_de-hit, nodo_de-miss,
}

-- A node that is found is not at an address where no node is.
ne_of_IsFresh :
    {L : Type 0} (nro d : ℕ) (n : Nodo L) (ns : List (Nodo L))
    → IsFresh d ns
    → nodo_de nro ns ≡ some n
    → n.dir ≢ d
ne_of_IsFresh nro d n [] h e = cc
ne_of_IsFresh nro d n (m ∷ ns) h e = elim (Bool-cases (m.nro_inodo == nro)) [
  | inl t ↦
      let same : m ≡ n = some-inj (sym (nodo_de-hit nro m ns t) ∙ e) in
      subst (λ x. x.dir ≢ d) same h.0
  | inr f ↦ ne_of_IsFresh nro d n ns h.1 (sym (nodo_de-miss nro m ns f) ∙ e)
]

module _ {L : Type 0} (rwlock : RwLock L) where
  abbrev pub soltado : Option (Nodo L) → Option (Nodo L)
  soltado none = none
  soltado (some n) =
      let cant = decremento 32 n.cant_hilos in
      if cant == 0
      then none
      else some (record n { cant_hilos = cant; mt_inodo = rwlock.unlock n.mt_inodo })

  pub nodo_de-monitor_unlock :
      (nro : ℕ) (ns : List (Nodo L))
      → AreDistinct ns
      → nodo_de nro (monitor_unlock rwlock nro ns) ≡ soltado (nodo_de nro ns)
  nodo_de-monitor_unlock nro [] h = refl
  nodo_de-monitor_unlock nro (n ∷ ns) h = elim (Bool-cases (n.nro_inodo == nro)) [
    | inl t ↦ elim (Bool-cases (decremento 32 n.cant_hilos == 0)) [
      | inl z ↦
          let gone : nodo_de nro ns ≡ none =
            nodo_de-Lacks nro ns (subst (λ x. Lacks x ns) (ground (arith, t)) h.0) in
          rw (t, z) gone
      | inr z ↦ rw (t, z, t)
    ]
    | inr f ↦ rw (f, f) (nodo_de-monitor_unlock nro ns h.2)
  ]

  pub nodo_de-monitor_unlock_ne :
      (nro m : ℕ) (ns : List (Nodo L))
      → nro ≢ m
      → nodo_de m (monitor_unlock rwlock nro ns) ≡ nodo_de m ns
  nodo_de-monitor_unlock_ne nro m [] ne = refl
  nodo_de-monitor_unlock_ne nro m (n ∷ ns) ne = elim (Bool-cases (n.nro_inodo == nro)) [
    | inl t ↦
        let test : (n.nro_inodo == m) ≡ false = ground (arith, ne, t) in
        elim (Bool-cases (decremento 32 n.cant_hilos == 0)) [
          | inl z ↦ rw (t, z, test)
          | inr z ↦ rw (t, z, test)
        ]
    | inr f ↦ rw (f, nodo_de-monitor_unlock_ne nro m ns ne)
  ]

  Lacks-monitor_unlock :
      (nro m : ℕ) (ns : List (Nodo L)) → Lacks m ns → Lacks m (monitor_unlock rwlock nro ns)
  Lacks-monitor_unlock nro m [] h = tt
  Lacks-monitor_unlock nro m (n ∷ ns) h = elim (Bool-cases (n.nro_inodo == nro)) [
    | inl t ↦ elim (Bool-cases (decremento 32 n.cant_hilos == 0)) [
      | inl z ↦ rw (t, z) h.1
      | inr z ↦ rw (t, z) h
    ]
    | inr f ↦ rw f (h.0, Lacks-monitor_unlock nro m ns h.1)
  ]

  IsFresh-monitor_unlock :
      (nro d : ℕ) (ns : List (Nodo L)) → IsFresh d ns → IsFresh d (monitor_unlock rwlock nro ns)
  IsFresh-monitor_unlock nro d [] h = tt
  IsFresh-monitor_unlock nro d (n ∷ ns) h = elim (Bool-cases (n.nro_inodo == nro)) [
    | inl t ↦ elim (Bool-cases (decremento 32 n.cant_hilos == 0)) [
      | inl z ↦ rw (t, z) h.1
      | inr z ↦ rw (t, z) h
    ]
    | inr f ↦ rw f (h.0, IsFresh-monitor_unlock nro d ns h.1)
  ]

  pub AreDistinct-monitor_unlock :
      (nro : ℕ) (ns : List (Nodo L)) → AreDistinct ns → AreDistinct (monitor_unlock rwlock nro ns)
  AreDistinct-monitor_unlock nro [] h = tt
  AreDistinct-monitor_unlock nro (n ∷ ns) h = elim (Bool-cases (n.nro_inodo == nro)) [
    | inl t ↦ elim (Bool-cases (decremento 32 n.cant_hilos == 0)) [
      | inl z ↦ rw (t, z) h.2
      | inr z ↦ rw (t, z) h
    ]
    | inr f ↦ rw f (
      Lacks-monitor_unlock nro n.nro_inodo ns h.0,
      IsFresh-monitor_unlock nro n.dir ns h.1,
      AreDistinct-monitor_unlock nro ns h.2,
    )
  ]

  -- The list `ms` is `ns` where the node of the inode `nro`, which is `n`, has the lock `m`.
  abbrev pub HasLock : ℕ → Nodo L → L → List (Nodo L) → List (Nodo L) → Type 0
  HasLock nro n m ns ms =
      (nodo_de nro ms ≡ some (record n { mt_inodo = m }))
      × ((k : ℕ) → nro ≢ k → nodo_de k ms ≡ nodo_de k ns)
      × ((k : ℕ) → Lacks k ns → Lacks k ms)
      × ((d : ℕ) → IsFresh d ns → IsFresh d ms)
      × (AreDistinct ns → AreDistinct ms)

  -- What the turn answers, after what the lock answers.
  abbrev pub Turns : ℕ → Nodo L → List (Nodo L) → Option L → Turno L → Type 0
  Turns nro n ns none r = r ≡ espera
  Turns nro n ns (some m) r = (ms : List (Nodo L)) × (r ≡ sigue ms) × HasLock nro n m ns ms

  HasLock-cons :
      (nro : ℕ) (n o : Nodo L) (m : L) (ns ms : List (Nodo L))
      → (o.nro_inodo == nro) ≡ false
      → HasLock nro n m ns ms
      → HasLock nro n m (o ∷ ns) (o ∷ ms)
  HasLock-cons nro n o m ns ms f (found, others, lacks, fresh, distinct) = (
    rw f found,
    λ k ne. ap (λ x. if o.nro_inodo == k then some o else x) (others k ne),
    λ k h. (h.0, lacks k h.1),
    λ d h. (h.0, fresh d h.1),
    λ h. (lacks o.nro_inodo h.0, fresh o.dir h.1, distinct h.2),
  )

  HasLock-head :
      (nro : ℕ) (n : Nodo L) (m : L) (ns : List (Nodo L))
      → (n.nro_inodo == nro) ≡ true
      → HasLock nro n m (n ∷ ns) (record n { mt_inodo = m } ∷ ns)
  HasLock-head nro n m ns t = (
    rw t,
    λ k ne. (let test : (n.nro_inodo == k) ≡ false = ground (arith, ne, t) in rw test),
    λ k h. h,
    λ d h. h,
    λ h. h,
  )

  head_turn :
      (nro : ℕ) (n : Nodo L) (ns : List (Nodo L)) (r : Option L)
      → (n.nro_inodo == nro) ≡ true
      → Turns nro n (n ∷ ns) r (con_lock n ns r)
  head_turn nro n ns none t = refl
  head_turn nro n ns (some m) t = (record n { mt_inodo = m } ∷ ns, refl, HasLock-head nro n m ns t)

  tail_turn :
      (nro : ℕ) (n o : Nodo L) (ns : List (Nodo L)) (r : Option L) (turn : Turno L)
      → (o.nro_inodo == nro) ≡ false
      → Turns nro n ns r turn
      → Turns nro n (o ∷ ns) r (tras o turn)
  tail_turn nro n o ns none turn f h = rw h
  tail_turn nro n o ns (some m) turn f (ms, e, h) = (o ∷ ms, rw e, HasLock-cons nro n o m ns ms f h)

  -- A thread at the address of the node of its inode gets what the lock answers.
  pub tomar_lem :
      (nro operacion : ℕ) (n : Nodo L) (ns : List (Nodo L))
      → AreDistinct ns
      → nodo_de nro ns ≡ some n
      → Turns nro n ns (lock_de rwlock operacion n.mt_inodo) (tomar rwlock operacion n.dir ns)
  tomar_lem nro operacion n [] h e = cc
  tomar_lem nro operacion n (o ∷ ns) h e = elim (Bool-cases (o.nro_inodo == nro)) [
    | inl t ↦
        let same : o ≡ n = some-inj (sym (nodo_de-hit nro o ns t) ∙ e) in
        let own : (o.dir == o.dir) ≡ true = ground arith in
        subst
          (λ x.
            Turns nro x (o ∷ ns) (lock_de rwlock operacion x.mt_inodo)
              (tomar rwlock operacion x.dir (o ∷ ns)))
          same (rw own (head_turn nro o ns (lock_de rwlock operacion o.mt_inodo) t))
    | inr f ↦
        let found : nodo_de nro ns ≡ some n = sym (nodo_de-miss nro o ns f) ∙ e in
        let ne : (o.dir == n.dir) ≡ false =
          ground (arith, ne_of_IsFresh nro o.dir n ns h.1 found) in
        rw ne (
          tail_turn nro n o ns (lock_de rwlock operacion n.mt_inodo)
            (tomar rwlock operacion n.dir ns) f (tomar_lem nro operacion n ns h.2 found))
  ]
