-- ===== src/Rfs/Locks/Safety.antt =====
-- What the locks of rfs/sincro.c promise to the handlers of the requests.
use tpso_yanero_los_grosos.Base.{
  ℕ, ◌+◌, ◌^◌, ◌<◌, ◌≡◌, refl, subst, ◌∙◌, ◌≢◌, true, false, not, List, ◌∷◌, ◌++◌, Option, none,
  some, inl, inr, arith, Bool-cases, ◌==◌,
}
use tpso_yanero_los_grosos.Rfs.Locks.{
  RwLock, Nodo, Hilo, Sistema, Turno, colgado, sigue, Step, toma, Reach, vacio, lock_de, tomar,
  operacion_de,
}
use tpso_yanero_los_grosos.Rfs.Locks.Lookup.{nodo_de}
use tpso_yanero_los_grosos.Rfs.Locks.Turns.{Turns}
use tpso_yanero_los_grosos.Rfs.Locks.Threads.{uno, cuantos, de, en, leyendo, escribiendo}
use tpso_yanero_los_grosos.Rfs.Locks.Counts.{Excludes}
use tpso_yanero_los_grosos.Rfs.Locks.Invariant.{With, Reach-IsKept, own_node, own_turn, Keeps}

module _ {L : Type 0} (rwlock : RwLock L) where
  alone :
      (h : Hilo) (n : Nodo L) (hs : List Hilo)
      → h.escribe ≡ true
      → With rwlock h (some n) true hs
      → (cuantos (leyendo h.nro) hs ≡ 0) × (cuantos (escribiendo h.nro) hs ≡ 0)
  alone h n hs writes w =
      let (c, pos, small, own, rs, ws, ex) =
        subst
          (λ b.
            (n.cant_hilos ≡ 1 + cuantos (de h.nro) hs)
            × (0 < 1 + cuantos (de h.nro) hs)
            × (1 + cuantos (de h.nro) hs < 2 ^ 32)
            × (uno (h.nodo == n.dir) + cuantos (en h.nro n.dir) hs ≡ 1 + cuantos (de h.nro) hs)
            × (rwlock.lectores n.mt_inodo ≡ uno (not b) + cuantos (leyendo h.nro) hs)
            × (rwlock.escritores n.mt_inodo ≡ uno b + cuantos (escribiendo h.nro) hs)
            × Excludes rwlock n.mt_inodo)
          writes w in
      elim ex [
        | inl z ↦ absurd (omega (arith, z, ws))
        | inr z ↦ (omega (arith, z.1, rs), omega (arith, z.0, ws))
      ]

  -- Whatever threads lock and unlock inodes, in any order, while one has an inode for writing, no
  -- other thread has it for reading or writing.
  pub writer-alone :
      (s : Sistema L) (hs₁ hs₂ : List Hilo) (h : Hilo)
      → Reach rwlock vacio s
      → s.hilos ≡ hs₁ ++ h ∷ hs₂
      → h.dentro ≡ true
      → h.escribe ≡ true
      → (cuantos (leyendo h.nro) (hs₁ ++ hs₂) ≡ 0) × (cuantos (escribiendo h.nro) (hs₁ ++ hs₂) ≡ 0)
  writer-alone s hs₁ hs₂ h r e inside writes =
      let (n, found, place, w) = own_node rwlock s hs₁ hs₂ h e (Reach-IsKept rwlock s r) in
      alone h n (hs₁ ++ hs₂) writes (subst (λ b. With rwlock h (some n) b (hs₁ ++ hs₂)) inside w)

  turn-live :
      (nro : ℕ) (n : Nodo L) (ns : List (Nodo L)) (r : Option L) (t : Turno L)
      → Turns rwlock nro n ns r t
      → t ≢ colgado
  turn-live nro n ns none t e c = cc
  turn-live nro n ns (some m) t (ms, e, _) c = cc

  -- Whatever threads lock and unlock inodes, in any order, a thread that took the address of a node
  -- under the mutex finds the node of its inode there, not freed, at its turn and at its unlock.
  pub tomar-live :
      (s : Sistema L) (hs₁ hs₂ : List Hilo) (h : Hilo)
      → Reach rwlock vacio s
      → s.hilos ≡ hs₁ ++ h ∷ hs₂
      → ((n : Nodo L) × (nodo_de h.nro s.lista ≡ some n) × (n.dir ≡ h.nodo))
        × (tomar rwlock (operacion_de h) h.nodo s.lista ≢ colgado)
  tomar-live s hs₁ hs₂ h r e =
      let kept = Reach-IsKept rwlock s r in
      let (n, found, place, w) = own_node rwlock s hs₁ hs₂ h e kept in
      (
        (n, found, place),
        turn-live h.nro n s.lista (lock_de rwlock (operacion_de h) n.mt_inodo)
            (tomar rwlock (operacion_de h) h.nodo s.lista)
            (own_turn rwlock s h n kept.0 found place),
      )

  free-lock :
      (h : Hilo) (l : L)
      → rwlock.lectores l ≡ 0
      → rwlock.escritores l ≡ 0
      → (m : L) × (lock_de rwlock (operacion_de h) l ≡ some m)
  free-lock h l rs ws = elim (Bool-cases h.escribe) [
    | inl t ↦ rw t (rwlock.wrlock-free l rs ws)
    | inr f ↦ rw f (rwlock.rdlock-free l rs ws)
  ]

  turn-given :
      (nro : ℕ) (n : Nodo L) (ns : List (Nodo L)) (r : Option L) (t : Turno L)
      → (m : L) × (r ≡ some m)
      → Turns rwlock nro n ns r t
      → (l : List (Nodo L)) × (t ≡ sigue l)
  turn-given nro n ns none t (m, e) h = cc
  turn-given nro n ns (some m) t _ (l, e, _) = (l, e)

  -- Whatever threads lock and unlock inodes, in any order, a thread that waits for an inode which no
  -- thread has can go on.
  pub waiting-goes_on :
      (s : Sistema L) (hs₁ hs₂ : List Hilo) (h : Hilo)
      → Reach rwlock vacio s
      → s.hilos ≡ hs₁ ++ h ∷ hs₂
      → h.dentro ≡ false
      → cuantos (leyendo h.nro) s.hilos ≡ 0
      → cuantos (escribiendo h.nro) s.hilos ≡ 0
      → (t : Sistema L) × Step rwlock s t × (t.hilos ≡ hs₁ ++ record h { dentro = true } ∷ hs₂)
  waiting-goes_on s hs₁ hs₂ h r e out no_reader no_writer =
      let kept = Reach-IsKept rwlock s r in
      let (n, found, place, w) = own_node rwlock s hs₁ hs₂ h e kept in
      let keeps = subst (λ o. Keeps rwlock h.nro o s.hilos) found (kept.1 h.nro) in
      let (l, taken) =
        turn-given h.nro n s.lista (lock_de rwlock (operacion_de h) n.mt_inodo)
          (tomar rwlock (operacion_de h) h.nodo s.lista)
          (free-lock h n.mt_inodo (keeps.4 ∙ no_reader) (keeps.5 ∙ no_writer))
          (own_turn rwlock s h n kept.0 found place) in
      (
        record { lista = l; hilos = hs₁ ++ record h { dentro = true } ∷ hs₂ },
        toma hs₁ hs₂ h l e out taken refl,
        refl,
      )
