-- ===== src/Rfs/Files/Reading.antt =====
-- `Dir_leerArchivo` against the blocks of the file on the disk: the cache does not change what is
-- read, and the number of blocks bounds it.
use tpso_yanero_los_grosos.Base.{
  some-inj, take-length, >>=-eq-some, ℕ, zero, suc, ◌+◌, ◌*◌, ◌/◌, ◌%◌, ◌≡◌, refl, ap, sym, ◌∙◌,
  true, false, List, [], ◌++◌, Option, none, some, inl, inr, arith, Bool-cases, Option-cases, ◌>>=◌,
  leb, ◌==◌, if◌then◌else◌, length, length-append, take, drop,
}
use tpso_yanero_los_grosos.Nipc.Bytes.{slice}
use tpso_yanero_los_grosos.Rfs.Disk.{Volumen, length-leer, block_size, comienzo_bloque}
use tpso_yanero_los_grosos.Rfs.Inode.{leer_bloque}
use tpso_yanero_los_grosos.Rfs.Inode.Blocks.{cant_bloques}
use tpso_yanero_los_grosos.Rfs.Files.{Cache, en_disco, traer, leer_loop, leer_archivo}

-- The bytes of `n` blocks of a file from the block `k` on, on the disk.
abbrev pub contenido : ℕ → ℕ → Volumen → List ℕ → Option (List ℕ)
contenido zero k v inodo = some []
contenido (suc n) k v inodo = do
  bloque ← leer_bloque v.disk k inodo (block_size v.sb)
  rest ← contenido n (k + 1) v inodo
  some (en_disco v bloque ++ rest)

pub length-contenido :
    (n k : ℕ) (v : Volumen) (inodo bs : List ℕ)
    → contenido n k v inodo ≡ some bs
    → length bs ≡ n * block_size v.sb
length-contenido zero k v inodo bs e =
    let none_read : [] ≡ bs = some-inj e in
    let same : 0 ≡ length bs = ap length none_read in omega (arith, same)
length-contenido (suc n) k v inodo bs e =
    let (bloque, _, e₁) = >>=-eq-some (leer_bloque v.disk k inodo (block_size v.sb)) _ e in
    let (rest, found, e₂) = >>=-eq-some (contenido n (k + 1) v inodo) _ e₁ in
    let same : length (en_disco v bloque ++ rest) ≡ length bs = ap length (some-inj e₂) in
    let after = length-contenido n (k + 1) v inodo rest found in
    let here = length-leer (block_size v.sb) (comienzo_bloque v.sb bloque) v.disk in
    let whole = length-append (en_disco v bloque) rest in
    let step : suc n * block_size v.sb ≡ block_size v.sb + n * block_size v.sb = grind arith in
    sym same ∙ whole ∙ omega (arith, here, after, step)

module _ {C : Type 0} (cache : Cache C) where
  -- What the cache has under the number of a block are the bytes of that block on the disk.
  abbrev pub IsCoherent : C → Volumen → Type 0
  IsCoherent c v =
      (bloque : ℕ) (datos : List ℕ) → cache.bajar c bloque ≡ some datos → datos ≡ en_disco v bloque

  traer_lem :
      (c : C) (v : Volumen) (bloque : ℕ)
      → IsCoherent c v
      → ((traer cache c v bloque (cache.bajar c bloque)).0 ≡ en_disco v bloque)
        × IsCoherent (traer cache c v bloque (cache.bajar c bloque)).1 v
  traer_lem c v bloque co = elim (Option-cases (cache.bajar c bloque)) [
    | inl e ↦ rw e (refl, subida)
    | inr (datos, e) ↦
        let whole = length-leer (block_size v.sb) (comienzo_bloque v.sb bloque) v.disk in
        rw e (
          ap (take (block_size v.sb)) (co bloque datos e)
              ∙ ap (λ n. take n (en_disco v bloque)) (sym whole)
              ∙ take-length (en_disco v bloque),
          co,
        )
  ]
    where
      subida : IsCoherent (cache.subir c bloque (en_disco v bloque)) v
      subida j otros e = elim (Bool-cases (bloque == j)) [
        | inl t ↦
            let same : bloque ≡ j = ground (arith, t) in
            cache.bajar-subir c bloque (en_disco v bloque) otros
              (ap (cache.bajar (cache.subir c bloque (en_disco v bloque))) same ∙ e)
            ∙ ap (en_disco v) same
        | inr f ↦ co j otros (
            cache.bajar-subir_ne c bloque j (en_disco v bloque) otros (λ s. ground (arith, f, s)) e)
      ]

  leer_loop_lem :
      (n k : ℕ) (c : C) (v : Volumen) (inodo bs : List ℕ)
      → IsCoherent c v
      → contenido n k v inodo ≡ some bs
      → (c' : C) × (leer_loop cache n k c v inodo ≡ some (bs, c')) × IsCoherent c' v
  unfolding leer_loop
  leer_loop_lem zero k c v inodo bs co e = (c, ap (λ x. some (x, c)) (some-inj e), co)
  leer_loop_lem (suc n) k c v inodo bs co e =
      let (bloque, here, e₁) = >>=-eq-some (leer_bloque v.disk k inodo (block_size v.sb)) _ e in
      let (rest, found, e₂) = >>=-eq-some (contenido n (k + 1) v inodo) _ e₁ in
      let (same, co') = traer_lem c v bloque co in
      let (c', read, co'') =
        leer_loop_lem n (k + 1) (traer cache c v bloque (cache.bajar c bloque)).1 v inodo rest co'
          found in
      (
        c',
        rw (here, read)
            (ap (λ x. some (x ++ rest, c')) same ∙ ap (λ x. some (x, c')) (some-inj e₂)),
        co'',
      )

  -- Of a file whose blocks are there, from the block of the offset on, with a cache that agrees with
  -- the disk: where the offset in its block and the size reach no further than as many whole blocks
  -- as the size needs, Dir_leerArchivo reads the bytes of the disk; otherwise it copies memory that it
  -- did not write. The cache still agrees with the disk.
  pub leer_archivo_lem :
      (c : C) (v : Volumen) (inodo bs : List ℕ) (offset size : ℕ)
      → IsCoherent c v
      → contenido (cant_bloques v size) (offset / block_size v.sb) v inodo ≡ some bs
      → (c' : C) × (leer_archivo cache c v inodo offset size ≡ (
          if leb (offset % block_size v.sb + size) (cant_bloques v size * block_size v.sb)
          then some (take size (drop (offset % block_size v.sb) bs), c')
          else none))
        × IsCoherent c' v
  unfolding leer_archivo slice
  leer_archivo_lem c v inodo bs offset size co e =
      let off = offset % block_size v.sb in
      let cant = cant_bloques v size in
      let (c', read, co') = leer_loop_lem cant (offset / block_size v.sb) c v inodo bs co e in
      let whole = length-contenido cant (offset / block_size v.sb) v inodo bs e in
      (
        c',
        elim (Bool-cases (leb (off + size) (cant * block_size v.sb))) [
          | inl t ↦
              let t' : leb (off + size) (length bs) ≡ true = ap (leb (off + size)) whole ∙ t in
              rw (read, t, t')
          | inr f ↦
              let f' : leb (off + size) (length bs) ≡ false = ap (leb (off + size)) whole ∙ f in
              rw (read, f, f')
        ],
        co',
      )
