-- ===== src/Rfs/Dir/Joining.antt =====
-- `Dir_borrarEntrada` on a block with the entry: what the block holds afterwards.
use tpso_yanero_los_grosos.Base.{
  ℕ, zero, suc, ◌+◌, ◌%◌, ◌^◌, ◌<◌, ◌≤◌, ◌≡◌, refl, ap, sym, ◌∙◌, subst, ◌⊎◌, true, false, List, [],
  ◌∷◌, some, inl, inr, arith, Bool-cases, ltb, ◌==◌, if◌then◌else◌,
}
use tpso_yanero_los_grosos.Rfs.Disk.{Volumen, escribir, comienzo_bloque, block_size}
use tpso_yanero_los_grosos.Rfs.Dir.{Dir, cabecera, leer_cabecera, lugar_en_bloque}
use tpso_yanero_los_grosos.Rfs.Dir.Deletion.{borrar_loop}
use tpso_yanero_los_grosos.Rfs.Dir.Layout.{
  AreLaid, AreLaid-le, leer_cabecera-IsEntry, lugar_en_bloque_lem,
}
use tpso_yanero_los_grosos.Rfs.Dir.Writing.{IsEntry-escribir, AreLaid-escribir, IsEntry-cabecera}

-- The entries of a block after a removal: the first entry of the block loses its inode, another one
-- is joined to the entry before it.
abbrev pub quitar_tras : ℕ → Dir → List Dir → List Dir
quitar_tras nro p [] = p ∷ []
quitar_tras nro p (d ∷ ds) =
    if d.d_inode == nro
    then record p { d_rec_len = p.d_rec_len + d.d_rec_len } ∷ ds
    else p ∷ quitar_tras nro d ds

abbrev pub quitar : ℕ → List Dir → List Dir
quitar nro [] = []
quitar nro (d ∷ ds) =
    if d.d_inode == nro then record d { d_inode = 0 } ∷ ds else quitar_tras nro d ds

-- An entry has the inode.
abbrev pub HasInode : ℕ → List Dir → Type 0
HasInode nro [] = ⊥
HasInode nro (d ∷ ds) = (d.d_inode ≡ nro) ⊎ HasInode nro ds

abbrev pub sin_nombre : Dir → Dir
sin_nombre d = record d { d_name = [] }

abbrev unida : Dir → Dir → Dir
unida p d = record p { d_rec_len = (p.d_rec_len + d.d_rec_len) % 2 ^ 16 }

borrar_here :
    (n : ℕ) (v : Volumen) (bloque nro ant offset : ℕ) (p d : Dir)
    → ltb offset (block_size v.sb) ≡ true
    → leer_cabecera v.disk (lugar_en_bloque v.sb bloque offset) ≡ sin_nombre d
    → (d.d_inode == nro) ≡ true
    → borrar_loop (suc n) v bloque nro ant p offset ≡ some (some (ant, unida p d))
unfolding borrar_loop
borrar_here n v bloque nro ant offset p d t e =
    subst
      (λ c.
        (c.d_inode == nro) ≡ true
        → borrar_loop (suc n) v bloque nro ant p offset ≡ some (some (ant, unida p c)))
      e (λ h. rw (t, h))

borrar_after :
    (n : ℕ) (v : Volumen) (bloque nro ant offset : ℕ) (p d : Dir)
    → ltb offset (block_size v.sb) ≡ true
    → leer_cabecera v.disk (lugar_en_bloque v.sb bloque offset) ≡ sin_nombre d
    → (d.d_inode == nro) ≡ false
    → borrar_loop (suc n) v bloque nro ant p offset
      ≡ borrar_loop n v bloque nro offset (sin_nombre d) ((offset + d.d_rec_len) % 2 ^ 32)
unfolding borrar_loop
borrar_after n v bloque nro ant offset p d t e =
    subst
      (λ c.
        (c.d_inode == nro) ≡ false
        → borrar_loop (suc n) v bloque nro ant p offset
          ≡ borrar_loop n v bloque nro offset c ((offset + c.d_rec_len) % 2 ^ 32))
      e (λ h. rw (t, h))

-- What the walk behind the first entry answers, and what the write makes of the entries from `p` on.
abbrev pub Joins : ℕ → Volumen → ℕ → ℕ → ℕ → Dir → List Dir → Type 0
Joins n v bloque nro ant p ds =
    let a = comienzo_bloque v.sb bloque in
    (at : ℕ) × (c : Dir) × (borrar_loop n v bloque nro ant (sin_nombre p) (ant + p.d_rec_len)
      ≡ some (some (at, sin_nombre c)))
    × (ant ≤ at)
    × (at < block_size v.sb)
    × AreLaid (escribir (cabecera c) (a + at) v.disk) (a + ant) (quitar_tras nro p ds)
        (a + block_size v.sb)

quitar_here :
    (nro : ℕ) (p d : Dir) (ds : List Dir)
    → (d.d_inode == nro) ≡ true
    → quitar_tras nro p (d ∷ ds) ≡ record p { d_rec_len = p.d_rec_len + d.d_rec_len } ∷ ds
quitar_here nro p d ds t = rw t

quitar_after :
    (nro : ℕ) (p d : Dir) (ds : List Dir)
    → (d.d_inode == nro) ≡ false
    → quitar_tras nro p (d ∷ ds) ≡ p ∷ quitar_tras nro d ds
quitar_after nro p d ds f = rw f

AreLaid-join :
    (disk : ℕ → ℕ) (a e : ℕ) (p d : Dir) (ds : List Dir)
    → p.d_rec_len + d.d_rec_len < 2 ^ 16
    → AreLaid disk a (p ∷ d ∷ ds) e
    → AreLaid
        (escribir (cabecera (unida p d)) a disk)
        a
        (record p { d_rec_len = p.d_rec_len + d.d_rec_len } ∷ ds)
        e
AreLaid-join disk a e p d ds small (entry, whole, four, (entry', whole', four', rest)) =
    let same : (p.d_rec_len + d.d_rec_len) % 2 ^ 16 ≡ p.d_rec_len + d.d_rec_len =
      omega (arith, small) in
    let c : Dir = record p { d_rec_len = p.d_rec_len + d.d_rec_len } in
    subst (λ x. AreLaid (escribir (cabecera (record p { d_rec_len = x })) a disk) a (c ∷ ds) e)
      (sym same)
      (
        IsEntry-cabecera disk a p c entry refl refl entry.5 small entry.8,
        omega (arith, whole),
        omega (arith, four, four'),
        AreLaid-escribir disk (a + (p.d_rec_len + d.d_rec_len)) a e ds (cabecera c)
            (inr (omega (arith, whole))) (subst (λ x. AreLaid disk x ds e) (omega arith) rest),
      )

pub join_lem :
    (n : ℕ) (v : Volumen) (bloque nro ant : ℕ) (p : Dir) (ds : List Dir)
    → block_size v.sb ≤ n + (ant + p.d_rec_len)
    → comienzo_bloque v.sb bloque + block_size v.sb < 2 ^ 32
    → block_size v.sb < 2 ^ 16
    → AreLaid v.disk
        (comienzo_bloque v.sb bloque + ant)
        (p ∷ ds)
        (comienzo_bloque v.sb bloque + block_size v.sb)
    → HasInode nro ds
    → Joins n v bloque nro ant p ds
join_lem n v bloque nro ant p [] fuel le short h has = absurd has
join_lem zero v bloque nro ant p (d ∷ ds) fuel le short h has =
    let inside = AreLaid-le v.disk _ _ ds h.3.3 in absurd (omega (arith, fuel, inside, h.3.1))
join_lem (suc n) v bloque nro ant p (d ∷ ds) fuel le short h has =
    let (entry, whole, four, next) = h in
    let (entry', whole', four', rest) = next in
    let a = comienzo_bloque v.sb bloque in
    let offset = ant + p.d_rec_len in
    let inside = AreLaid-le v.disk _ _ ds rest in
    let lt : offset < block_size v.sb = omega (arith, inside, whole') in
    let test : ltb offset (block_size v.sb) ≡ true = ground (arith, lt) in
    let here : leer_cabecera v.disk (lugar_en_bloque v.sb bloque offset) ≡ sin_nombre d =
      ap (leer_cabecera v.disk) (lugar_en_bloque_lem v.sb bloque offset lt le ∙ omega arith)
      ∙ leer_cabecera-IsEntry v.disk (a + ant + p.d_rec_len) d entry' in
    elim (Bool-cases (d.d_inode == nro)) [
      | inl t ↦ (
        ant,
        unida p d,
        borrar_here n v bloque nro ant offset (sin_nombre p) d test here t,
        omega arith,
        omega (arith, lt),
        subst
            (λ ls.
              AreLaid (escribir (cabecera (unida p d)) (a + ant) v.disk) (a + ant) ls
                (a + block_size v.sb))
            (sym (quitar_here nro p d ds t))
            (AreLaid-join v.disk (a + ant) (a + block_size v.sb) p d ds
              (omega (arith, inside, short)) h),
      )
      | inr f ↦
          let small : (offset + d.d_rec_len) % 2 ^ 32 ≡ offset + d.d_rec_len =
            omega (arith, inside, le) in
          let (at, c, e, o₁, o₂, laid) =
            join_lem n v bloque nro offset d ds (omega (arith, fuel, whole')) le short
              (subst (λ x. AreLaid v.disk x (d ∷ ds) (a + block_size v.sb)) (omega arith) next)
              (elim has [ inl l ↦ absurd (ground (arith, l, f)) | inr r ↦ r ]) in
          (
            at,
            c,
            borrar_after n v bloque nro ant offset (sin_nombre p) d test here f
                ∙ ap (borrar_loop n v bloque nro offset (sin_nombre d)) small
                ∙ e,
            omega (arith, o₁),
            o₂,
            subst
                (λ ls.
                  AreLaid (escribir (cabecera c) (a + at) v.disk) (a + ant) ls
                    (a + block_size v.sb))
                (sym (quitar_after nro p d ds f))
                (
                  IsEntry-escribir v.disk (a + ant) (a + at) p (cabecera c)
                      (inl (omega (arith, o₁, whole))) entry,
                  whole,
                  four,
                  subst
                      (λ x.
                        AreLaid (escribir (cabecera c) (a + at) v.disk) x (quitar_tras nro d ds)
                          (a + block_size v.sb))
                      (omega arith) laid,
                ),
          )
    ]
