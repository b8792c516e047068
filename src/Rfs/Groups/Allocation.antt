-- ===== src/Rfs/Groups/Allocation.antt =====
-- `Grupos_pedirBloqueLibre` and `Grupos_liberarBloqueEnBitmap`: which block is given, and what is
-- marked.
use tpso_yanero_los_grosos.Base.{
  ℕ, zero, suc, ◌+◌, ◌*◌, ◌%◌, ◌^◌, ◌<◌, ◌≤◌, ◌≡◌, refl, ap, ◌∙◌, ◌≢◌, Bool, true, false, List,
  some, inl, inr, arith, Bool-cases, Option-cases, ltb, ◌==◌, length, get_elem?, get_elem?-set_self,
  lt_of_get_elem?, get_elem?_total,
}
use tpso_yanero_los_grosos.Rfs.Disk.{GroupDescriptor, Volumen, decremento}
use tpso_yanero_los_grosos.Rfs.Bitmap.{
  Bitarray, buscar_posicion_libre, buscar_posicion_libre_lem, IsFirstFree,
}
use tpso_yanero_los_grosos.Rfs.Groups.{
  cant_grupos, leer_block_bitmap, buscar_bloque_libre, buscar_bloque_libre_por_grupo, bloques_loop,
  pedir_bloque_libre,
}
use tpso_yanero_los_grosos.Rfs.Groups.Marking.{nro_de, con_bitmap, leer-con_bitmap, utilizar_lem}

-- The bitmap `bs'` is `bs` but for the bit `k`, which is now `b`.
abbrev pub SameBut : Bitarray → ℕ → Bool → List ℕ → List ℕ → Type 0
SameBut bits k b bs bs' =
    (length bs' ≡ length bs)
    × (bits.test_bit bs' k ≡ b)
    × ((j : ℕ) → j < 8 * length bs → k ≢ j → bits.test_bit bs' j ≡ bits.test_bit bs j)

-- The counts of free blocks, of the superblock and of the group `g`.
abbrev pub HasCounts : Volumen → ℕ → ℕ → ℕ → Type 0
HasCounts v g total group =
    (v.sb.s_free_blocks_count ≡ total)
    × (d : GroupDescriptor) × (get_elem? v.bgdt g ≡ some d)
    × (d.bg_free_blocks_count ≡ group)

-- The first group whose count is not 0, and a clear bit of its bitmap.
pub record HasFreeBlock (bits : Bitarray) (v : Volumen) : Type 0 where
  pub cant : ℕ
  pub groups : cant_grupos v.sb ≡ some cant
  pub g : ℕ
  pub in_table : g < cant
  pub d : GroupDescriptor
  pub there : get_elem? v.bgdt g ≡ some d
  pub counted : 0 < d.bg_free_blocks_count
  pub before :
      (j : ℕ) (e : GroupDescriptor)
      → j < g
      → get_elem? v.bgdt j ≡ some e
      → e.bg_free_blocks_count ≡ 0
  pub bs : List ℕ
  pub bitmap : leer_block_bitmap v g ≡ some bs
  pub k : ℕ
  pub inside : k < 8 * length bs
  pub clear : bits.test_bit bs k ≡ false
  pub in_group : k < v.sb.s_blocks_per_group
  pub small : nro_de v.sb g k < 2 ^ 32

module _ (bits : Bitarray) where
  -- A bitmap with a clear bit has a first one, at that place or before it.
  pub first_free :
      (bs : List ℕ) (k : ℕ)
      → k < 8 * length bs
      → bits.test_bit bs k ≡ false
      → (i : ℕ) × (buscar_posicion_libre bits bs ≡ some i) × IsFirstFree bits bs i × (i ≤ k)
  first_free bs k inside clear = elim (Option-cases (buscar_posicion_libre bits bs)) [
    | inl e ↦ absurd (cc ((buscar_posicion_libre_lem bits bs).1 e k inside))
    | inr (i, e) ↦ let f = (buscar_posicion_libre_lem bits bs).0 i e in (i, e, f, not_after f)
  ]
    where
      not_after : {i : ℕ} → IsFirstFree bits bs i → i ≤ k
      not_after {i} f = elim (Bool-cases (ltb k i)) [
        | inl t ↦ absurd (cc (f.first k (ground arith)))
        | inr t ↦ ground arith
      ]

  -- The loop passes the groups whose count is 0.
  bloques_loop-skip :
      (m n g₀ : ℕ) (v : Volumen) (d : GroupDescriptor) (p : ℕ)
      → ((j : ℕ) (e : GroupDescriptor)
          → j < g₀ + m
          → get_elem? v.bgdt j ≡ some e
          → e.bg_free_blocks_count ≡ 0)
      → m < n
      → get_elem? v.bgdt (g₀ + m) ≡ some d
      → 0 < d.bg_free_blocks_count
      → buscar_bloque_libre_por_grupo bits v (g₀ + m) ≡ some p
      → bloques_loop bits n g₀ v
        ≡ some (((g₀ + m) * v.sb.s_blocks_per_group + p + v.sb.s_first_data_block) % 2 ^ 32)
  unfolding bloques_loop
  bloques_loop-skip m zero g₀ v d p empty lt there counted found = absurd (omega arith)
  bloques_loop-skip zero (suc n) g₀ v d p empty lt there counted found =
      let here : g₀ + 0 ≡ g₀ = omega arith in
      let there' : get_elem? v.bgdt g₀ ≡ some d = rw here at there in
      let found' : buscar_bloque_libre_por_grupo bits v g₀ ≡ some p = rw here at found in
      let test : (d.bg_free_blocks_count == 0) ≡ false = ground arith in
      rw (there', test, found', here)
  bloques_loop-skip (suc m) (suc n) g₀ v d p empty lt there counted found =
      let next : g₀ + suc m ≡ g₀ + 1 + m = omega arith in
      let (e, at) =
        get_elem?_total v.bgdt g₀ (omega (arith, lt_of_get_elem? v.bgdt (g₀ + suc m) d there)) in
      let test : (e.bg_free_blocks_count == 0) ≡ true =
        ground (arith, empty g₀ e (omega arith) at) in
      rw (at, test, next)
        (bloques_loop-skip m n (g₀ + 1) v d p (λ j e' l. empty j e' (omega arith)) (omega arith)
          (rw next at there) counted (rw next at found))

  set-SameBut :
      (bs : List ℕ) (k : ℕ) → k < 8 * length bs → SameBut bits k true bs (bits.set_bit bs k)
  set-SameBut bs k inside = (
    bits.length-set_bit bs k,
    bits.test-set bs k inside,
    λ j l ne. bits.test-set_ne bs k j inside l ne,
  )

  clean-SameBut :
      (bs : List ℕ) (k : ℕ) → k < 8 * length bs → SameBut bits k false bs (bits.clean_bit bs k)
  clean-SameBut bs k inside = (
    bits.length-clean_bit bs k,
    bits.test-clean bs k inside,
    λ j l ne. bits.test-clean_ne bs k j inside l ne,
  )

  -- The counts after a change.
  pub HasCounts-con_bitmap :
      (f : ℕ → ℕ → ℕ) (v : Volumen) (g : ℕ) (d : GroupDescriptor) (bs : List ℕ)
      → get_elem? v.bgdt g ≡ some d
      → HasCounts
          (con_bitmap f v g d bs)
          g
          (f 32 v.sb.s_free_blocks_count)
          (f 16 d.bg_free_blocks_count)
  HasCounts-con_bitmap f v g d bs there = (
    refl,
    record d { bg_free_blocks_count = f 16 d.bg_free_blocks_count },
    get_elem?-set_self v.bgdt g _ (lt_of_get_elem? v.bgdt g d there),
    refl,
  )

  -- The block that is given: the first clear bit of the first group with a count, which is marked,
  -- and counted off.
  pub record Gives (v : Volumen) (h : HasFreeBlock bits v) (bloque : ℕ) (v' : Volumen)
      : Type 0 where
    pub k : ℕ
    pub number : bloque ≡ nro_de v.sb h.g k
    pub first : IsFirstFree bits h.bs k
    pub bs' : List ℕ
    pub bitmap : leer_block_bitmap v' h.g ≡ some bs'
    pub marked : SameBut bits k true h.bs bs'
    pub counts :
        HasCounts v' h.g
          (decremento 32 v.sb.s_free_blocks_count)
          (decremento 16 h.d.bg_free_blocks_count)

  por_grupo_lem :
      (v : Volumen) (g i : ℕ) (bs : List ℕ)
      → leer_block_bitmap v g ≡ some bs
      → buscar_posicion_libre bits bs ≡ some i
      → buscar_bloque_libre_por_grupo bits v g ≡ some i
  unfolding buscar_bloque_libre_por_grupo
  por_grupo_lem v g i bs bitmap found = rw (bitmap, found)

  pub buscar_bloque_libre_lem :
      (v : Volumen) (h : HasFreeBlock bits v) (i : ℕ)
      → buscar_posicion_libre bits h.bs ≡ some i
      → i ≤ h.k
      → buscar_bloque_libre bits v ≡ some (nro_de v.sb h.g i)
  unfolding buscar_bloque_libre
  buscar_bloque_libre_lem v h i found le =
      let from_zero : 0 + h.g ≡ h.g = omega arith in
      let kept : ((0 + h.g) * v.sb.s_blocks_per_group + i + v.sb.s_first_data_block) % 2 ^ 32
          ≡ nro_de v.sb h.g i =
        rw from_zero (omega (arith, h.small)) in
      rw h.groups (
        bloques_loop-skip h.g h.cant 0 v h.d i (λ j e l. h.before j e (omega arith)) h.in_table
          (rw from_zero h.there) h.counted
          (rw from_zero (por_grupo_lem v h.g i h.bs h.bitmap found))
        ∙ ap some kept)

  -- Where a group has a count above 0, and the bitmap of the first such group has a clear bit whose
  -- block belongs to the group, `Grupos_pedirBloqueLibre` returns: it gives the block of the first
  -- clear bit of that bitmap, which it marks, leaving the others, and takes one from both counts.
  pub pedir_bloque_libre_lem :
      (v : Volumen) (h : HasFreeBlock bits v)
      → (bloque : ℕ) × (v' : Volumen) × (pedir_bloque_libre bits v ≡ some (bloque, v'))
        × Gives v h bloque v'
  unfolding pedir_bloque_libre
  pedir_bloque_libre_lem v h =
      let (i, found, first, le) = first_free h.bs h.k h.inside h.clear in
      let search = buscar_bloque_libre_lem v h i found le in
      let mark =
        utilizar_lem bits v h.g i h.d h.bs (omega (arith, h.in_group)) (omega (arith, h.small))
          h.there h.bitmap first.inside in
      (
        nro_de v.sb h.g i,
        con_bitmap decremento v h.g h.d (bits.set_bit h.bs i),
        rw (search, mark),
        record {
          k = i;
          number = refl;
          first = first;
          bs' = bits.set_bit h.bs i;
          bitmap =
              leer-con_bitmap decremento v h.g h.d h.bs (bits.set_bit h.bs i) h.there h.bitmap
                (bits.length-set_bit h.bs i);
          marked = set-SameBut h.bs i first.inside;
          counts = HasCounts-con_bitmap decremento v h.g h.d (bits.set_bit h.bs i) h.there;
        },
      )
