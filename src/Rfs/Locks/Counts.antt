-- ===== src/Rfs/Locks/Counts.antt =====
-- What the node of an inode keeps, against the counts of the threads that use the inode.
use tpso_yanero_los_grosos.Base.{
  ℕ, ◌+◌, ◌^◌, ◌<◌, ◌≤◌, ◌≡◌, refl, ap, sym, subst, ◌∙◌, ◌⊎◌, true, false, Option, none, some, inl,
  inr, arith, Bool-cases, ◌==◌,
}
use tpso_yanero_los_grosos.Rfs.Disk.{decremento}
use tpso_yanero_los_grosos.Rfs.Locks.{RwLock, Nodo}
use tpso_yanero_los_grosos.Rfs.Locks.Threads.{uno, uno-le_one}
use tpso_yanero_los_grosos.Rfs.Locks.Lookup.{registrado}
use tpso_yanero_los_grosos.Rfs.Locks.Turns.{soltado}

module _ {L : Type 0} (rwlock : RwLock L) where
  -- One writer and no reader, or no writer.
  abbrev pub Excludes : L → Type 0
  Excludes l = (rwlock.escritores l ≡ 0) ⊎ ((rwlock.escritores l ≡ 1) × (rwlock.lectores l ≡ 0))

  -- The node of an inode that `a` threads use, `r` of them reading and `w` writing, where `b d` have
  -- the address `d`.
  abbrev pub Matches : Option (Nodo L) → ℕ → (ℕ → ℕ) → ℕ → ℕ → Type 0
  Matches none a b r w = a ≡ 0
  Matches (some n) a b r w =
      (n.cant_hilos ≡ a)
      × (0 < a)
      × (a < 2 ^ 32)
      × (b n.dir ≡ a)
      × (rwlock.lectores n.mt_inodo ≡ r)
      × (rwlock.escritores n.mt_inodo ≡ w)
      × Excludes n.mt_inodo

  pub Matches-ext :
      (o : Option (Nodo L)) (a a' r r' w w' : ℕ) (b b' : ℕ → ℕ)
      → a ≡ a'
      → ((d : ℕ) → b d ≡ b' d)
      → r ≡ r'
      → w ≡ w'
      → Matches o a b r w
      → Matches o a' b' r' w'
  Matches-ext none a a' r r' w w' b b' ea eb er ew h = sym ea ∙ h
  Matches-ext (some n) a a' r r' w w' b b' ea eb er ew (c, pos, small, own, le, es, ex) = (
    c ∙ ea,
    subst (λ x. 0 < x) ea pos,
    subst (λ x. x < 2 ^ 32) ea small,
    sym (eb n.dir) ∙ own ∙ ea,
    le ∙ er,
    es ∙ ew,
    ex,
  )

  -- One more thread registered.
  pub Matches-registrado :
      (nro nuevo : ℕ) (o : Option (Nodo L)) (a r w : ℕ) (b : ℕ → ℕ)
      → ((d : ℕ) → b d ≤ a)
      → r ≤ a
      → w ≤ a
      → a + 1 < 2 ^ 32
      → Matches o a b r w
      → Matches
          (some (registrado rwlock nro nuevo o))
          (1 + a)
          (λ d. uno ((registrado rwlock nro nuevo o).dir == d) + b d)
          (0 + r)
          (0 + w)
  Matches-registrado nro nuevo none a r w b le lr lw small h =
      let (l₀, e₀) = rwlock.init-free in
      let own : (nuevo == nuevo) ≡ true = ground arith in
      (
        omega (arith, h),
        omega arith,
        omega (arith, small),
        rw own (omega (arith, h, le nuevo)),
        omega (arith, l₀, lr, h),
        omega (arith, e₀, lw, h),
        inl e₀,
      )
  Matches-registrado nro nuevo (some n) a r w b le lr lw small (c, pos, _, same, rs, ws, ex) =
      let own : (n.dir == n.dir) ≡ true = ground arith in
      (
        omega (arith, c, small),
        omega arith,
        omega (arith, small),
        rw own (omega (arith, same)),
        omega (arith, rs),
        omega (arith, ws),
        ex,
      )

  -- A thread of the inode has the address of its node.
  pub Matches-own :
      (o : Option (Nodo L)) (a r w x : ℕ) (b : ℕ → ℕ)
      → ((d : ℕ) → b d ≤ a)
      → Matches o (1 + a) (λ d. uno (x == d) + b d) r w
      → (n : Nodo L) × (o ≡ some n) × (n.dir ≡ x)
  Matches-own none a r w x b le h = absurd (omega (arith, h))
  Matches-own (some n) a r w x b le (c, pos, small, own, rs, ws, ex) = (
    n,
    refl,
    elim (Bool-cases (x == n.dir)) [
      | inl t ↦ ground (arith, t)
      | inr f ↦
          let less : uno false + b n.dir ≡ 1 + a = ap (λ y. uno y + b n.dir) (sym f) ∙ own in
          absurd (omega (arith, less, le n.dir))
    ],
  )

  -- A reader gets its turn, a writer gets its turn.
  pub Matches-reader :
      (n : Nodo L) (m : L) (a r w : ℕ) (b : ℕ → ℕ)
      → rwlock.rdlock n.mt_inodo ≡ some m
      → Matches (some n) a b (0 + r) (0 + w)
      → Matches (some (record n { mt_inodo = m })) a b (1 + r) (0 + w)
  Matches-reader n m a r w b e (c, pos, small, own, rs, ws, ex) =
      let (free, more, still) = rwlock.rdlock-some n.mt_inodo m e in
      (c, pos, small, own, omega (arith, more, rs), omega (arith, still, free, ws), inl still)

  pub Matches-writer :
      (n : Nodo L) (m : L) (a r w : ℕ) (b : ℕ → ℕ)
      → rwlock.wrlock n.mt_inodo ≡ some m
      → Matches (some n) a b (0 + r) (0 + w)
      → Matches (some (record n { mt_inodo = m })) a b (0 + r) (1 + w)
  Matches-writer n m a r w b e (c, pos, small, own, rs, ws, ex) =
      let (free, free', none_left, one) = rwlock.wrlock-some n.mt_inodo m e in
      (
        c,
        pos,
        small,
        own,
        omega (arith, none_left, free, rs),
        omega (arith, one, free', ws),
        inr (one, none_left),
      )

  Matches-leaves :
      (n : Nodo L) (a r w x : ℕ) (b : ℕ → ℕ)
      → ((d : ℕ) → b d ≤ a)
      → rwlock.lectores (rwlock.unlock n.mt_inodo) ≡ r
      → rwlock.escritores (rwlock.unlock n.mt_inodo) ≡ 0
      → w ≡ 0
      → n.cant_hilos ≡ 1 + a
      → 1 + a < 2 ^ 32
      → uno (x == n.dir) + b n.dir ≡ 1 + a
      → Matches (soltado rwlock (some n)) a b r w
  Matches-leaves n a r w x b le rs es ws c small own =
      let left : decremento 32 n.cant_hilos ≡ a = omega (arith, c, small) in
      let mine : b n.dir ≡ a = omega (arith, own, le n.dir, uno-le_one (x == n.dir)) in
      elim (Bool-cases (decremento 32 n.cant_hilos == 0)) [
        | inl z ↦ rw z (ground (arith, z, left))
        | inr z ↦
            let pos : 0 < a = ground (arith, z, left) in
            rw z (left, pos, omega (arith, small), mine, rs, es ∙ sym ws, inl es)
      ]

  -- A reader leaves, a writer leaves; the node goes with the last one.
  pub Matches-reader_leaves :
      (o : Option (Nodo L)) (a r w x : ℕ) (b : ℕ → ℕ)
      → ((d : ℕ) → b d ≤ a)
      → Matches o (1 + a) (λ d. uno (x == d) + b d) (1 + r) (0 + w)
      → Matches (soltado rwlock o) a b r w
  Matches-reader_leaves none a r w x b le h = absurd (omega (arith, h))
  Matches-reader_leaves (some n) a r w x b le (c, pos, small, own, rs, ws, ex) =
      let none_writes : rwlock.escritores n.mt_inodo ≡ 0 = elim ex [
        | inl z ↦ z
        | inr z ↦ absurd (omega (arith, z.1, rs))
      ] in
      let (fewer, still) = rwlock.unlock-reader n.mt_inodo none_writes in
      Matches-leaves n a r w x b le (omega (arith, fewer, rs)) still
        (omega (arith, ws, none_writes)) c small own

  pub Matches-writer_leaves :
      (o : Option (Nodo L)) (a r w x : ℕ) (b : ℕ → ℕ)
      → ((d : ℕ) → b d ≤ a)
      → Matches o (1 + a) (λ d. uno (x == d) + b d) (0 + r) (1 + w)
      → Matches (soltado rwlock o) a b r w
  Matches-writer_leaves none a r w x b le h = absurd (omega (arith, h))
  Matches-writer_leaves (some n) a r w x b le (c, pos, small, own, rs, ws, ex) =
      let one : rwlock.escritores n.mt_inodo ≡ 1 = elim ex [
        | inl z ↦ absurd (omega (arith, z, ws))
        | inr z ↦ z.0
      ] in
      let (same, still) = rwlock.unlock-writer n.mt_inodo one in
      Matches-leaves n a r w x b le (omega (arith, same, rs)) still (omega (arith, ws, one)) c small
        own
