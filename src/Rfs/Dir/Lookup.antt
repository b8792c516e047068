-- ===== src/Rfs/Dir/Lookup.antt =====
-- A name that `Dir_crearNuevaEntrada` put in a directory is found, and the other names as before.
use tpso_yanero_los_grosos.Base.{
  ℕ, ◌^◌, ◌<◌, ◌≡◌, refl, ap, ◌∙◌, ◌≢◌, true, false, List, [], ◌∷◌, some, inl, inr, arith,
  Bool-cases, leb, ◌==◌, length,
}
use tpso_yanero_los_grosos.Rfs.Disk.{Volumen, block_size}
use tpso_yanero_los_grosos.Rfs.Bitmap.{Bitarray}
use tpso_yanero_los_grosos.Rfs.Dir.{Dir, mismo_nombre, buscar_nombre_en_lista, entradas_loop}
use tpso_yanero_los_grosos.Rfs.Dir.Creation.{tam_entrada, nueva_entrada, crear_nueva_entrada}
use tpso_yanero_los_grosos.Rfs.Dir.Layout.{HasEntries, IsDirectory, vivas, entradas_loop-HasEntries}
use tpso_yanero_los_grosos.Rfs.Dir.Splitting.{sobra, insertar, HasRoom}
use tpso_yanero_los_grosos.Rfs.Dir.Insertion.{crear_nueva_entrada-HasEntries}

-- No entry has the name.
abbrev pub LacksName : List ℕ → List Dir → Type 0
LacksName nombre [] = Unit
LacksName nombre (d ∷ ds) = (mismo_nombre d.d_name nombre ≡ false) × LacksName nombre ds

pub mismo_nombre_refl : (s : List ℕ) → mismo_nombre s s ≡ true
mismo_nombre_refl [] = refl
mismo_nombre_refl (b ∷ s) =
    let own : (b == b) ≡ true = ground arith in
    elim (Bool-cases (b == 0)) [ inl z ↦ rw (own, z) | inr z ↦ rw (own, z) (mismo_nombre_refl s) ]

-- The lookup passes over an entry with another name, or that was removed.
buscar-skip :
    (d : Dir) (ds : List Dir) (s : List ℕ)
    → mismo_nombre d.d_name s ≡ false
    → buscar_nombre_en_lista (vivas (d ∷ ds)) s ≡ buscar_nombre_en_lista (vivas ds) s
buscar-skip d ds s f = elim (Bool-cases (d.d_inode == 0)) [ inl z ↦ rw z | inr z ↦ rw (z, f) ]

-- What comes first in two directories does not matter where the rest answers the same.
buscar-cons :
    (d c : Dir) (ds cs : List Dir) (s : List ℕ)
    → d.d_inode ≡ c.d_inode
    → d.d_name ≡ c.d_name
    → buscar_nombre_en_lista (vivas ds) s ≡ buscar_nombre_en_lista (vivas cs) s
    → buscar_nombre_en_lista (vivas (d ∷ ds)) s ≡ buscar_nombre_en_lista (vivas (c ∷ cs)) s
buscar-cons d c ds cs s e₁ e₂ h =
    let same : mismo_nombre d.d_name s ≡ mismo_nombre c.d_name s = ap (λ x. mismo_nombre x s) e₂ in
    elim (Bool-cases (c.d_inode == 0)) [
      | inl z ↦ let z' : (d.d_inode == 0) ≡ true = ap (λ x. x == 0) e₁ ∙ z in rw (z, z') h
      | inr z ↦
          let z' : (d.d_inode == 0) ≡ false = ap (λ x. x == 0) e₁ ∙ z in
          elim (Bool-cases (mismo_nombre c.d_name s)) [
            | inl t ↦ let t' : mismo_nombre d.d_name s ≡ true = same ∙ t in rw (z, z', t, t') e₁
            | inr f ↦ let f' : mismo_nombre d.d_name s ≡ false = same ∙ f in rw (z, z', f, f') h
          ]
    ]

module _ (tam : ℕ) (nueva : Dir) where
  insertar_found :
      (ds : List Dir)
      → HasRoom tam ds
      → LacksName nueva.d_name ds
      → nueva.d_inode ≢ 0
      → buscar_nombre_en_lista (vivas (insertar tam nueva ds)) nueva.d_name ≡ nueva.d_inode
  insertar_found [] room lacks ne = absurd room
  insertar_found (d ∷ ds) room lacks ne = elim (Bool-cases (leb tam (sobra d))) [
    | inl t ↦
        let own = mismo_nombre_refl nueva.d_name in
        let here : (nueva.d_inode == 0) ≡ false = ground (arith, ne) in
        let g : Dir = record nueva { d_rec_len = sobra d } in
        let c : Dir = record d { d_rec_len = tam_entrada d.d_name_len } in
        rw t (buscar-skip c (g ∷ ds) nueva.d_name lacks.0 ∙ found_first g ds here own)
    | inr f ↦ rw f (
        buscar-skip d (insertar tam nueva ds) nueva.d_name lacks.0
        ∙ insertar_found ds (elim room [ inl l ↦ absurd (ground (arith, l, f)) | inr r ↦ r ])
            lacks.1 ne)
  ]
    where
      found_first :
          (g : Dir) (ds : List Dir)
          → (g.d_inode == 0) ≡ false
          → mismo_nombre g.d_name nueva.d_name ≡ true
          → buscar_nombre_en_lista (vivas (g ∷ ds)) nueva.d_name ≡ g.d_inode
      found_first g ds z t = rw (z, t)

  insertar_other :
      (ds : List Dir) (s : List ℕ)
      → mismo_nombre nueva.d_name s ≡ false
      → buscar_nombre_en_lista (vivas (insertar tam nueva ds)) s
        ≡ buscar_nombre_en_lista (vivas ds) s
  insertar_other [] s f = refl
  insertar_other (d ∷ ds) s f = elim (Bool-cases (leb tam (sobra d))) [
    | inl t ↦
        let g : Dir = record nueva { d_rec_len = sobra d } in
        let c : Dir = record d { d_rec_len = tam_entrada d.d_name_len } in
        rw t (buscar-cons c d (g ∷ ds) ds s refl refl (buscar-skip g ds s f))
    | inr f' ↦
        rw f' (buscar-cons d d (insertar tam nueva ds) ds s refl refl (insertar_other ds s f))
  ]

-- Where the first block of a directory, which ends below 2^32, is full of entries, each inside its
-- length, where one has place behind its name for a name of less than 256 bytes, and none has that
-- name, Dir_crearNuevaEntrada answers 0 and the block is again full of entries. In their listing the
-- name has the inode that it was created with, which is not 0, and every other name has the inode
-- that it had.
pub buscar-crear_nueva_entrada :
    (bits : Bitarray) (v : Volumen) (nombre : List ℕ) (dir creado bloque : ℕ) (ds : List Dir)
    → IsDirectory v dir bloque
    → HasEntries v bloque ds
    → length nombre < 2 ^ 8
    → creado < 2 ^ 32
    → creado ≢ 0
    → HasRoom (tam_entrada (length nombre)) ds
    → LacksName nombre ds
    → (v' : Volumen) × (ds' : List Dir) × (crear_nueva_entrada bits v nombre dir creado
        ≡ some (0, v'))
      × HasEntries v' bloque ds'
      × (entradas_loop (block_size v'.sb) v' bloque 0 ≡ some (vivas ds'))
      × (buscar_nombre_en_lista (vivas ds') nombre ≡ creado)
      × ((s : List ℕ)
          → mismo_nombre nombre s ≡ false
          → buscar_nombre_en_lista (vivas ds') s ≡ buscar_nombre_en_lista (vivas ds) s)
buscar-crear_nueva_entrada bits v nombre dir creado bloque ds is has short small ne room lacks =
    let nueva = nueva_entrada nombre creado in
    let tam = tam_entrada (length nombre) in
    let (v', e, has') =
      crear_nueva_entrada-HasEntries bits v nombre dir creado bloque ds is has short small room in
    let ds' = insertar tam nueva ds in
    (
      v',
      ds',
      e,
      has',
      entradas_loop-HasEntries v' bloque ds' has',
      insertar_found tam nueva ds room lacks ne,
      insertar_other tam nueva ds,
    )
