-- ===== src/Rfs/Locks/Invariant.antt =====
-- The invariant of rfs/sincro.c: the list has at most one node for each inode, which counts the
-- threads that use it.
use tpso_yanero_los_grosos.Base.{
  ℕ, ◌+◌, ◌^◌, ◌<◌, ◌≡◌, refl, sym, subst, ◌∙◌, ◌≢◌, Bool, true, false, ◌&&◌, not, List, [], ◌∷◌,
  ◌++◌, Option, none, some, inl, inr, arith, Bool-cases, ◌==◌, if◌then◌else◌, length,
}
use tpso_yanero_los_grosos.Rfs.Locks.{
  RwLock, Nodo, Hilo, Sistema, sigue, Step, entra, toma, sale, Reach, here, next, vacio, lock_de,
  tomar, IsFresh, registrar, monitor_unlock, operacion_de,
}
use tpso_yanero_los_grosos.Rfs.Locks.Lookup.{
  nodo_de, AreDistinct, registrado, nodo_de-registrar, nodo_de-registrar_ne, AreDistinct-registrar,
}
use tpso_yanero_los_grosos.Rfs.Locks.Turns.{
  soltado, nodo_de-monitor_unlock, nodo_de-monitor_unlock_ne, AreDistinct-monitor_unlock, HasLock,
  Turns, tomar_lem,
}
use tpso_yanero_los_grosos.Rfs.Locks.Threads.{
  uno, cuantos, de, en, leyendo, escribiendo, cuantos-le, cuantos-length, count_own, count_other,
  all_own, all_other,
}
use tpso_yanero_los_grosos.Rfs.Locks.Counts.{
  Matches, Matches-ext, Matches-registrado, Matches-own, Matches-reader, Matches-writer,
  Matches-reader_leaves, Matches-writer_leaves,
}

pub by_inode : (P : ℕ → Type 0) (n : ℕ) → P n → ((m : ℕ) → n ≢ m → P m) → (m : ℕ) → P m
by_inode P n own others m = elim (Bool-cases (n == m)) [
  | inl t ↦ let same : n ≡ m = ground (arith, t) in subst P same own
  | inr f ↦ others m (λ e. ground (arith, f, e))
]

module _ {L : Type 0} (rwlock : RwLock L) where
  -- The node of an inode is as the threads that use the inode say; without one there is no node.
  abbrev pub Keeps : ℕ → Option (Nodo L) → List Hilo → Type 0
  Keeps nro o hs =
      Matches rwlock o (cuantos (de nro) hs) (λ d. cuantos (en nro d) hs) (cuantos (leyendo nro) hs)
        (cuantos (escribiendo nro) hs)

  abbrev pub IsKept : Sistema L → Type 0
  IsKept s = AreDistinct s.lista × ((nro : ℕ) → Keeps nro (nodo_de nro s.lista) s.hilos)

  -- The counts with the thread `h` and without it, for its inode.
  abbrev pub With : Hilo → Option (Nodo L) → Bool → List Hilo → Type 0
  With h o dentro hs =
      Matches rwlock o (1 + cuantos (de h.nro) hs)
        (λ d. uno (h.nodo == d) + cuantos (en h.nro d) hs)
        (uno (dentro && not h.escribe) + cuantos (leyendo h.nro) hs)
        (uno (dentro && h.escribe) + cuantos (escribiendo h.nro) hs)

  pub With-of_Keeps :
      (h : Hilo) (o : Option (Nodo L)) (hs₁ hs₂ : List Hilo)
      → Keeps h.nro o (hs₁ ++ h ∷ hs₂)
      → With h o h.dentro (hs₁ ++ hs₂)
  With-of_Keeps h o hs₁ hs₂ k =
      Matches-ext rwlock o _ _ _ _ _ _ _ _ (all_own h hs₁ hs₂)
        (λ d. count_own h (λ g. g.nodo == d) hs₁ hs₂)
        (count_own h (λ g. g.dentro && not g.escribe) hs₁ hs₂)
        (count_own h (λ g. g.dentro && g.escribe) hs₁ hs₂) k

  Keeps-of_With :
      (h : Hilo) (o : Option (Nodo L)) (hs₁ hs₂ : List Hilo)
      → With h o h.dentro (hs₁ ++ hs₂)
      → Keeps h.nro o (hs₁ ++ h ∷ hs₂)
  Keeps-of_With h o hs₁ hs₂ k =
      Matches-ext rwlock o _ _ _ _ _ _ _ _ (sym (all_own h hs₁ hs₂))
        (λ d. sym (count_own h (λ g. g.nodo == d) hs₁ hs₂))
        (sym (count_own h (λ g. g.dentro && not g.escribe) hs₁ hs₂))
        (sym (count_own h (λ g. g.dentro && g.escribe) hs₁ hs₂)) k

  Keeps-drop :
      (h : Hilo) (nro : ℕ) (o : Option (Nodo L)) (hs₁ hs₂ : List Hilo)
      → h.nro ≢ nro
      → Keeps nro o (hs₁ ++ h ∷ hs₂)
      → Keeps nro o (hs₁ ++ hs₂)
  Keeps-drop h nro o hs₁ hs₂ ne k =
      Matches-ext rwlock o _ _ _ _ _ _ _ _ (all_other h nro hs₁ hs₂ ne)
        (λ d. count_other h nro (λ g. g.nodo == d) hs₁ hs₂ ne)
        (count_other h nro (λ g. g.dentro && not g.escribe) hs₁ hs₂ ne)
        (count_other h nro (λ g. g.dentro && g.escribe) hs₁ hs₂ ne) k

  Keeps-add :
      (h : Hilo) (nro : ℕ) (o : Option (Nodo L)) (hs₁ hs₂ : List Hilo)
      → h.nro ≢ nro
      → Keeps nro o (hs₁ ++ hs₂)
      → Keeps nro o (hs₁ ++ h ∷ hs₂)
  Keeps-add h nro o hs₁ hs₂ ne k =
      Matches-ext rwlock o _ _ _ _ _ _ _ _ (sym (all_other h nro hs₁ hs₂ ne))
        (λ d. sym (count_other h nro (λ g. g.nodo == d) hs₁ hs₂ ne))
        (sym (count_other h nro (λ g. g.dentro && not g.escribe) hs₁ hs₂ ne))
        (sym (count_other h nro (λ g. g.dentro && g.escribe) hs₁ hs₂ ne)) k

  Keeps-entra_own :
      (s : Sistema L) (nuevo : ℕ) (h : Hilo)
      → h.dentro ≡ false
      → h.nodo ≡ (registrar rwlock h.nro nuevo s.lista).1
      → length s.hilos + 1 < 2 ^ 32
      → IsKept s
      → Keeps h.nro (nodo_de h.nro (registrar rwlock h.nro nuevo s.lista).0) (h ∷ s.hilos)
  Keeps-entra_own s nuevo h out there small (distinct, keeps) =
      let (found, place) = nodo_de-registrar rwlock h.nro nuevo s.lista in
      let all = cuantos-length (de h.nro) s.hilos in
      let o = nodo_de h.nro s.lista in
      let more : With h (some (registrado rwlock h.nro nuevo o)) false s.hilos =
        subst
          (λ x.
            Matches rwlock (some (registrado rwlock h.nro nuevo o)) (1 + cuantos (de h.nro) s.hilos)
              (λ d. uno (x == d) + cuantos (en h.nro d) s.hilos)
              (0 + cuantos (leyendo h.nro) s.hilos) (0 + cuantos (escribiendo h.nro) s.hilos))
          (sym (there ∙ place))
          (Matches-registrado rwlock h.nro nuevo o _ _ _ _
            (λ d. cuantos-le h.nro (λ g. g.nodo == d) s.hilos)
            (cuantos-le h.nro (λ g. g.dentro && not g.escribe) s.hilos)
            (cuantos-le h.nro (λ g. g.dentro && g.escribe) s.hilos) (omega (arith, all, small))
            (keeps h.nro)) in
      let there_is : With h (some (registrado rwlock h.nro nuevo o)) h.dentro s.hilos =
        subst (λ b. With h (some (registrado rwlock h.nro nuevo o)) b s.hilos) (sym out) more in
      subst (λ x. Keeps h.nro x (h ∷ s.hilos)) (sym found)
        (Keeps-of_With h (some (registrado rwlock h.nro nuevo o)) [] s.hilos there_is)

  IsKept-entra :
      (s : Sistema L) (nuevo : ℕ) (h : Hilo)
      → h.dentro ≡ false
      → h.nodo ≡ (registrar rwlock h.nro nuevo s.lista).1
      → IsFresh nuevo s.lista
      → length s.hilos + 1 < 2 ^ 32
      → IsKept s
      → IsKept (record { lista = (registrar rwlock h.nro nuevo s.lista).0; hilos = h ∷ s.hilos })
  IsKept-entra s nuevo h out there fresh small kept =
      let ns = (registrar rwlock h.nro nuevo s.lista).0 in
      (
        AreDistinct-registrar rwlock h.nro nuevo s.lista fresh kept.0,
        by_inode (λ m. Keeps m (nodo_de m ns) (h ∷ s.hilos)) h.nro
            (Keeps-entra_own s nuevo h out there small kept)
            (λ m ne.
              subst (λ x. Keeps m x (h ∷ s.hilos))
                (sym (nodo_de-registrar_ne rwlock h.nro nuevo m s.lista ne))
                (Keeps-add h m (nodo_de m s.lista) [] s.hilos ne (kept.1 m))),
      )

  -- The node of a thread.
  pub own_node :
      (s : Sistema L) (hs₁ hs₂ : List Hilo) (h : Hilo)
      → s.hilos ≡ hs₁ ++ h ∷ hs₂
      → IsKept s
      → (n : Nodo L) × (nodo_de h.nro s.lista ≡ some n)
        × (n.dir ≡ h.nodo)
        × With h (some n) h.dentro (hs₁ ++ hs₂)
  own_node s hs₁ hs₂ h e kept =
      let o = nodo_de h.nro s.lista in
      let w = With-of_Keeps h o hs₁ hs₂ (subst (λ x. Keeps h.nro o x) e (kept.1 h.nro)) in
      let (n, found, place) =
        Matches-own rwlock o _ _ _ h.nodo (λ d. cuantos (en h.nro d) (hs₁ ++ hs₂))
          (λ d. cuantos-le h.nro (λ g. g.nodo == d) (hs₁ ++ hs₂)) w in
      (n, found, place, subst (λ x. With h x h.dentro (hs₁ ++ hs₂)) found w)

  With-toma :
      (h : Hilo) (n : Nodo L) (m : L) (hs : List Hilo)
      → lock_de rwlock (operacion_de h) n.mt_inodo ≡ some m
      → With h (some n) false hs
      → With h (some (record n { mt_inodo = m })) true hs
  With-toma h n m hs e w = elim (Bool-cases h.escribe) [
    | inl t ↦
        let locked = subst (λ b. lock_de rwlock (if b then 6 else 5) n.mt_inodo ≡ some m) t e in
        rw t (
          Matches-writer rwlock n m _ _ _ (λ d. uno (h.nodo == d) + cuantos (en h.nro d) hs) locked
            w)
    | inr f ↦
        let locked = subst (λ b. lock_de rwlock (if b then 6 else 5) n.mt_inodo ≡ some m) f e in
        rw f (
          Matches-reader rwlock n m _ _ _ (λ d. uno (h.nodo == d) + cuantos (en h.nro d) hs) locked
            w)
  ]

  With-sale :
      (h : Hilo) (o : Option (Nodo L)) (hs : List Hilo)
      → With h o true hs
      → Keeps h.nro (soltado rwlock o) hs
  With-sale h o hs w = elim (Bool-cases h.escribe) [
    | inl t ↦
        let w' =
          subst
            (λ b.
              Matches rwlock o (1 + cuantos (de h.nro) hs)
                (λ d. uno (h.nodo == d) + cuantos (en h.nro d) hs)
                (uno (not b) + cuantos (leyendo h.nro) hs) (uno b + cuantos (escribiendo h.nro) hs))
            t w in
        Matches-writer_leaves rwlock o _ _ _ h.nodo (λ d. cuantos (en h.nro d) hs)
          (λ d. cuantos-le h.nro (λ g. g.nodo == d) hs) w'
    | inr f ↦
        let w' =
          subst
            (λ b.
              Matches rwlock o (1 + cuantos (de h.nro) hs)
                (λ d. uno (h.nodo == d) + cuantos (en h.nro d) hs)
                (uno (not b) + cuantos (leyendo h.nro) hs) (uno b + cuantos (escribiendo h.nro) hs))
            f w in
        Matches-reader_leaves rwlock o _ _ _ h.nodo (λ d. cuantos (en h.nro d) hs)
          (λ d. cuantos-le h.nro (λ g. g.nodo == d) hs) w'
  ]

  sigue-inj : {l ms : List (Nodo L)} → sigue l ≡ sigue ms → l ≡ ms
  sigue-inj e = cc

  -- The turn of a thread, after what its lock answers.
  pub own_turn :
      (s : Sistema L) (h : Hilo) (n : Nodo L)
      → AreDistinct s.lista
      → nodo_de h.nro s.lista ≡ some n
      → n.dir ≡ h.nodo
      → Turns rwlock h.nro n s.lista
          (lock_de rwlock (operacion_de h) n.mt_inodo)
          (tomar rwlock (operacion_de h) h.nodo s.lista)
  own_turn s h n distinct found place =
      subst
        (λ x.
          Turns rwlock h.nro n s.lista (lock_de rwlock (operacion_de h) n.mt_inodo)
            (tomar rwlock (operacion_de h) x s.lista))
        place (tomar_lem rwlock h.nro (operacion_de h) n s.lista distinct found)

  turn_taken :
      (nro : ℕ) (n : Nodo L) (ns l : List (Nodo L)) (r : Option L)
      → Turns rwlock nro n ns r (sigue l)
      → (m : L) × (r ≡ some m) × HasLock rwlock nro n m ns l
  turn_taken nro n ns l none e = cc
  turn_taken nro n ns l (some m) (ms, e, has) =
      (m, refl, subst (λ x. HasLock rwlock nro n m ns x) (sym (sigue-inj e)) has)

  IsKept-toma :
      (s : Sistema L) (hs₁ hs₂ : List Hilo) (h : Hilo) (l : List (Nodo L))
      → s.hilos ≡ hs₁ ++ h ∷ hs₂
      → h.dentro ≡ false
      → tomar rwlock (operacion_de h) h.nodo s.lista ≡ sigue l
      → IsKept s
      → IsKept (record { lista = l; hilos = hs₁ ++ record h { dentro = true } ∷ hs₂ })
  IsKept-toma s hs₁ hs₂ h l e out taken kept =
      let (n, found, place, w) = own_node s hs₁ hs₂ h e kept in
      let turn = own_turn s h n kept.0 found place in
      let (m, locked, has) =
        turn_taken h.nro n s.lista l (lock_de rwlock (operacion_de h) n.mt_inodo) (
          subst (λ r. Turns rwlock h.nro n s.lista (lock_de rwlock (operacion_de h) n.mt_inodo) r)
            taken turn) in
      let g = record h { dentro = true } in
      let w' =
        With-toma h n m (hs₁ ++ hs₂) locked (subst (λ b. With h (some n) b (hs₁ ++ hs₂)) out w) in
      (
        has.4 kept.0,
        by_inode (λ k. Keeps k (nodo_de k l) (hs₁ ++ g ∷ hs₂)) h.nro
            (subst (λ x. Keeps h.nro x (hs₁ ++ g ∷ hs₂)) (sym has.0)
              (Keeps-of_With g (some (record n { mt_inodo = m })) hs₁ hs₂ w'))
            (λ k ne.
              subst (λ x. Keeps k x (hs₁ ++ g ∷ hs₂)) (sym (has.1 k ne))
                (Keeps-add g k (nodo_de k s.lista) hs₁ hs₂ ne (
                  Keeps-drop h k (nodo_de k s.lista) hs₁ hs₂ ne
                    (subst (λ x. Keeps k (nodo_de k s.lista) x) e (kept.1 k))))),
      )

  IsKept-sale :
      (s : Sistema L) (hs₁ hs₂ : List Hilo) (h : Hilo)
      → s.hilos ≡ hs₁ ++ h ∷ hs₂
      → h.dentro ≡ true
      → IsKept s
      → IsKept (record { lista = monitor_unlock rwlock h.nro s.lista; hilos = hs₁ ++ hs₂ })
  IsKept-sale s hs₁ hs₂ h e inside kept =
      let o = nodo_de h.nro s.lista in
      let w = With-of_Keeps h o hs₁ hs₂ (subst (λ x. Keeps h.nro o x) e (kept.1 h.nro)) in
      let w' = subst (λ b. With h o b (hs₁ ++ hs₂)) inside w in
      let ns = monitor_unlock rwlock h.nro s.lista in
      (
        AreDistinct-monitor_unlock rwlock h.nro s.lista kept.0,
        by_inode (λ k. Keeps k (nodo_de k ns) (hs₁ ++ hs₂)) h.nro
            (subst (λ x. Keeps h.nro x (hs₁ ++ hs₂))
              (sym (nodo_de-monitor_unlock rwlock h.nro s.lista kept.0))
              (With-sale h o (hs₁ ++ hs₂) w'))
            (λ k ne.
              subst (λ x. Keeps k x (hs₁ ++ hs₂))
                (sym (nodo_de-monitor_unlock_ne rwlock h.nro k s.lista ne))
                (Keeps-drop h k (nodo_de k s.lista) hs₁ hs₂ ne
                  (subst (λ x. Keeps k (nodo_de k s.lista) x) e (kept.1 k)))),
      )

  Step-IsKept : (s t : Sistema L) → Step rwlock s t → IsKept s → IsKept t
  Step-IsKept s t (entra nro nuevo escribe fresh small e) kept = subst IsKept (sym e) (
      IsKept-entra s nuevo
        (record {
          nro = nro;
          escribe = escribe;
          nodo = (registrar rwlock nro nuevo s.lista).1;
          dentro = false;
        })
        refl refl fresh small kept)
  Step-IsKept s t (toma hs₁ hs₂ h l e out taken e') kept =
      subst IsKept (sym e') (IsKept-toma s hs₁ hs₂ h l e out taken kept)
  Step-IsKept s t (sale hs₁ hs₂ h e inside e') kept =
      subst IsKept (sym e') (IsKept-sale s hs₁ hs₂ h e inside kept)

  IsKept-along : {s t : Sistema L} → IsKept s → Reach rwlock s t → IsKept t
  IsKept-along k here = k
  IsKept-along k (next r st) = Step-IsKept _ _ st (IsKept-along k r)

  -- Whatever threads lock and unlock inodes, in any order, the list has at most one node for an inode
  -- and for an address; an inode has a node exactly while threads use it, and then cantHilos is their
  -- number, they all have the address of that node, and the node's lock is held by those of them
  -- that read, or by the one that writes. No 2^32 threads do so at once.
  pub Reach-IsKept : (s : Sistema L) → Reach rwlock vacio s → IsKept s
  Reach-IsKept s r = IsKept-along (tt, λ nro. refl) r
