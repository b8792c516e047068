-- ===== src/Rfs/Dir/Removal.antt =====
-- `Dir_borrarEntrada` on a directory: which entries are listed afterwards.
use tpso_yanero_los_grosos.Base.{
  ℕ, ◌+◌, ◌^◌, ◌<◌, ◌≡◌, refl, ap, sym, ◌∙◌, ◌≢◌, subst, true, false, List, [], ◌∷◌, some, inl, inr,
  arith, Bool-cases, ◌==◌, if◌then◌else◌,
}
use tpso_yanero_los_grosos.Rfs.Disk.{Volumen, escribir, comienzo_bloque, block_size}
use tpso_yanero_los_grosos.Rfs.Dir.{Dir, cabecera, leer_cabecera, lugar_en_bloque, entradas_loop}
use tpso_yanero_los_grosos.Rfs.Dir.Creation.{escribir_en_bloque}
use tpso_yanero_los_grosos.Rfs.Dir.Deletion.{
  borrar_loop, borrar_en_bloque, borrar_en_bloques, borrar_entrada,
}
use tpso_yanero_los_grosos.Rfs.Dir.Layout.{
  AreLaid, HasEntries, IsDirectory, AreLaid-le, leer_cabecera-IsEntry, lugar_en_bloque_lem, vivas,
  entradas_loop-HasEntries,
}
use tpso_yanero_los_grosos.Rfs.Dir.Writing.{AreLaid-escribir, IsEntry-cabecera}
use tpso_yanero_los_grosos.Rfs.Dir.Joining.{quitar, quitar_tras, HasInode, sin_nombre, join_lem}

-- The inode and the name of each entry.
abbrev pub pares : List Dir → List (ℕ × List ℕ)
pares [] = []
pares (d ∷ ds) = (d.d_inode, d.d_name) ∷ pares ds

-- The list without the first pair of an inode.
abbrev pub sin : ℕ → List (ℕ × List ℕ) → List (ℕ × List ℕ)
sin nro [] = []
sin nro (x ∷ xs) = let rest = sin nro xs in if x.0 == nro then xs else x ∷ rest

pares-quitar_tras :
    (nro : ℕ) (p : Dir) (ds : List Dir)
    → nro ≢ 0
    → (p.d_inode == nro) ≡ false
    → pares (vivas (quitar_tras nro p ds)) ≡ sin nro (pares (vivas (p ∷ ds)))
pares-quitar_tras nro p [] ne f = elim (Bool-cases (p.d_inode == 0)) [
  | inl z ↦ rw z
  | inr z ↦ rw (z, f)
]
pares-quitar_tras nro p (d ∷ ds) ne f = elim (Bool-cases (d.d_inode == nro)) [
  | inl t ↦
      let zero_no : (d.d_inode == 0) ≡ false = ground (arith, t, ne) in
      elim (Bool-cases (p.d_inode == 0)) [
        | inl z ↦ rw (t, z, zero_no, t)
        | inr z ↦ rw (t, z, zero_no, f, t)
      ]
  | inr g ↦
      let after = pares-quitar_tras nro d ds ne g in
      elim (Bool-cases (p.d_inode == 0)) [
        | inl z ↦ rw (g, z) after
        | inr z ↦ rw (g, z, f) (ap (◌∷◌ (p.d_inode, p.d_name)) after)
      ]
]

pub pares-quitar :
    (nro : ℕ) (ds : List Dir) → nro ≢ 0 → pares (vivas (quitar nro ds)) ≡ sin nro (pares (vivas ds))
pares-quitar nro [] ne = refl
pares-quitar nro (d ∷ ds) ne = elim (Bool-cases (d.d_inode == nro)) [
  | inl t ↦ let zero_no : (d.d_inode == 0) ≡ false = ground (arith, t, ne) in rw (t, zero_no, t)
  | inr f ↦ rw f (pares-quitar_tras nro d ds ne f)
]

-- What `borrarEntrada` finds in a block, and what the write makes of its entries.
abbrev Removes : Volumen → ℕ → ℕ → List Dir → Type 0
Removes v bloque nro ds =
    let a = comienzo_bloque v.sb bloque in
    (at : ℕ) × (c : Dir) × (borrar_en_bloque v bloque nro ≡ some (some (at, sin_nombre c)))
    × (at < block_size v.sb)
    × AreLaid (escribir (cabecera c) (a + at) v.disk) a (quitar nro ds) (a + block_size v.sb)

quitar_first :
    (nro : ℕ) (d : Dir) (ds : List Dir)
    → (d.d_inode == nro) ≡ true
    → quitar nro (d ∷ ds) ≡ record d { d_inode = 0 } ∷ ds
quitar_first nro d ds t = rw t

quitar_other :
    (nro : ℕ) (d : Dir) (ds : List Dir)
    → (d.d_inode == nro) ≡ false
    → quitar nro (d ∷ ds) ≡ quitar_tras nro d ds
quitar_other nro d ds f = rw f

borrar_first :
    (v : Volumen) (bloque nro : ℕ) (d : Dir)
    → leer_cabecera v.disk (lugar_en_bloque v.sb bloque 0) ≡ sin_nombre d
    → (d.d_inode == nro) ≡ true
    → borrar_en_bloque v bloque nro ≡ some (some (0, sin_nombre (record d { d_inode = 0 })))
unfolding borrar_en_bloque
borrar_first v bloque nro d e =
    subst
      (λ c.
        (c.d_inode == nro) ≡ true
        → borrar_en_bloque v bloque nro ≡ some (some (0, record c { d_inode = 0 })))
      e (λ h. rw h)

borrar_other :
    (v : Volumen) (bloque nro : ℕ) (d : Dir)
    → leer_cabecera v.disk (lugar_en_bloque v.sb bloque 0) ≡ sin_nombre d
    → (d.d_inode == nro) ≡ false
    → borrar_en_bloque v bloque nro
      ≡ borrar_loop (block_size v.sb) v bloque nro 0 (sin_nombre d) d.d_rec_len
unfolding borrar_en_bloque
borrar_other v bloque nro d e =
    subst
      (λ c.
        (c.d_inode == nro) ≡ false
        → borrar_en_bloque v bloque nro
          ≡ borrar_loop (block_size v.sb) v bloque nro 0 c c.d_rec_len)
      e (λ h. rw h)

removal_lem :
    (v : Volumen) (bloque nro : ℕ) (ds : List Dir)
    → HasEntries v bloque ds
    → block_size v.sb < 2 ^ 16
    → HasInode nro ds
    → Removes v bloque nro ds
removal_lem v bloque nro [] (le, h) short has = absurd has
removal_lem v bloque nro (d ∷ ds) (le, h) short has =
    let (entry, whole, four, rest) = h in
    let a = comienzo_bloque v.sb bloque in
    let inside = AreLaid-le v.disk _ _ ds rest in
    let here : leer_cabecera v.disk (lugar_en_bloque v.sb bloque 0) ≡ sin_nombre d =
      ap (leer_cabecera v.disk)
        (lugar_en_bloque_lem v.sb bloque 0 (omega (arith, inside, whole)) le ∙ omega arith)
      ∙ leer_cabecera-IsEntry v.disk a d entry in
    elim (Bool-cases (d.d_inode == nro)) [
      | inl t ↦
          let c : Dir = record d { d_inode = 0 } in
          (
            0,
            c,
            borrar_first v bloque nro d here t,
            omega (arith, inside, whole),
            subst (λ ls. AreLaid (escribir (cabecera c) (a + 0) v.disk) a ls (a + block_size v.sb))
                (sym (quitar_first nro d ds t))
                (subst
                  (λ x. AreLaid (escribir (cabecera c) x v.disk) a (c ∷ ds) (a + block_size v.sb))
                  (omega arith)
                  (
                    IsEntry-cabecera v.disk a d c entry refl refl (omega arith) entry.6 entry.8,
                    whole,
                    four,
                    AreLaid-escribir v.disk (a + d.d_rec_len) a (a + block_size v.sb) ds
                        (cabecera c) (inr (omega (arith, whole))) rest,
                  )),
          )
      | inr f ↦
          let (at, c, e, o₁, o₂, laid) =
            join_lem (block_size v.sb) v bloque nro 0 d ds (omega arith) le short
              (subst (λ x. AreLaid v.disk x (d ∷ ds) (a + block_size v.sb)) (omega arith) h)
              (elim has [ inl l ↦ absurd (ground (arith, l, f)) | inr r ↦ r ]) in
          (
            at,
            c,
            borrar_other v bloque nro d here f
                ∙ ap (borrar_loop (block_size v.sb) v bloque nro 0 (sin_nombre d)) (omega arith)
                ∙ e,
            o₂,
            subst (λ ls. AreLaid (escribir (cabecera c) (a + at) v.disk) a ls (a + block_size v.sb))
                (sym (quitar_other nro d ds f))
                (subst
                  (λ x.
                    AreLaid (escribir (cabecera c) (a + at) v.disk) x (quitar_tras nro d ds)
                      (a + block_size v.sb))
                  (omega arith) laid),
          )
    ]

borrar_found :
    (v : Volumen) (dir nro bloque at : ℕ) (c : Dir)
    → IsDirectory v dir bloque
    → borrar_en_bloque v bloque nro ≡ some (some (at, c))
    → borrar_entrada v dir nro ≡ some (0, escribir_en_bloque v bloque at (cabecera c))
unfolding borrar_entrada borrar_en_bloques
borrar_found v dir nro bloque at c is e =
    rw (is.there, is.mode, is.size, is.used, is.blocks, is.first, e)

-- Where the first block of a directory, of less than 2^16 bytes and ending below 2^32, is full of
-- entries, each inside its length, and one has the inode, which is not 0, Dir_borrarEntrada answers 0
-- and the block is again full of entries; it lists the same inodes and names in their order, but for
-- the first of that inode.
pub borrar_entrada-HasEntries :
    (v : Volumen) (dir nro bloque : ℕ) (ds : List Dir)
    → IsDirectory v dir bloque
    → HasEntries v bloque ds
    → block_size v.sb < 2 ^ 16
    → HasInode nro ds
    → nro ≢ 0
    → (v' : Volumen) × (ds' : List Dir) × (borrar_entrada v dir nro ≡ some (0, v'))
      × HasEntries v' bloque ds'
      × (entradas_loop (block_size v.sb) v' bloque 0 ≡ some (vivas ds'))
      × (pares (vivas ds') ≡ sin nro (pares (vivas ds)))
borrar_entrada-HasEntries v dir nro bloque ds is has short there ne =
    let (at, c, e, lt, laid) = removal_lem v bloque nro ds has short there in
    let v' = escribir_en_bloque v bloque at (cabecera (sin_nombre c)) in
    let a = comienzo_bloque v.sb bloque in
    let place : lugar_en_bloque v.sb bloque at ≡ a + at =
      lugar_en_bloque_lem v.sb bloque at lt has.0 in
    let full : HasEntries v' bloque (quitar nro ds) = (
      has.0,
      subst (λ x. AreLaid (escribir (cabecera c) x v.disk) a (quitar nro ds) (a + block_size v.sb))
          (sym place) laid,
    ) in
    (
      v',
      quitar nro ds,
      borrar_found v dir nro bloque at (sin_nombre c) is e,
      full,
      entradas_loop-HasEntries v' bloque (quitar nro ds) full,
      pares-quitar nro ds ne,
    )
