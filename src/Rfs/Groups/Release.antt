-- ===== src/Rfs/Groups/Release.antt =====
-- A block that is given out and taken back.
use tpso_yanero_los_grosos.Base.{
  ℕ, ◌*◌, ◌^◌, ◌<◌, ◌≡◌, sym, ◌∙◌, subst, ◌≢◌, ◌⊎◌, false, List, some, inl, inr, arith, Bool-cases,
  ◌>>=◌, ◌==◌, length, get_elem?, get_elem?-set_self, lt_of_get_elem?,
}
use tpso_yanero_los_grosos.Rfs.Disk.{GroupDescriptor, Volumen, incremento, decremento}
use tpso_yanero_los_grosos.Rfs.Bitmap.{Bitarray}
use tpso_yanero_los_grosos.Rfs.Groups.{
  leer_block_bitmap, pedir_bloque_libre, liberar_bloque_en_bitmap,
}
use tpso_yanero_los_grosos.Rfs.Groups.Marking.{
  nro_de, con_bitmap, leer-con_bitmap, utilizar_lem, liberar_lem,
}
use tpso_yanero_los_grosos.Rfs.Groups.Allocation.{
  HasCounts, HasFreeBlock, first_free, buscar_bloque_libre_lem, HasCounts-con_bitmap,
}

eq_or_ne : (a b : ℕ) → (a ≡ b) ⊎ (a ≢ b)
eq_or_ne a b = elim (Bool-cases (a == b)) [
  | inl t ↦ inl (ground arith)
  | inr f ↦ inr (λ e. absurd (ground arith))
]

module _ (bits : Bitarray) where
  -- A bit that was clear, is set, and cleared again: every bit is as before.
  clean-set_lem :
      (bs : List ℕ) (k j : ℕ)
      → k < 8 * length bs
      → j < 8 * length bs
      → bits.test_bit bs k ≡ false
      → bits.test_bit (bits.clean_bit (bits.set_bit bs k) k) j ≡ bits.test_bit bs j
  clean-set_lem bs k j inside l clear =
      let size = bits.length-set_bit bs k in
      let inside' : k < 8 * length (bits.set_bit bs k) = omega (arith, size) in
      let l' : j < 8 * length (bits.set_bit bs k) = omega (arith, size) in
      elim (eq_or_ne k j) [
        | inl e ↦ rw (← e) (bits.test-clean (bits.set_bit bs k) k inside' ∙ sym clear)
        | inr ne ↦
            bits.test-clean_ne (bits.set_bit bs k) k j inside' l' ne
            ∙ bits.test-set_ne bs k j inside l ne
      ]

  -- Where a group has a count above 0, and the bitmap of the first such group has a clear bit whose
  -- block belongs to the group, a block that `Grupos_pedirBloqueLibre` gives and
  -- `Grupos_liberarBloqueEnBitmap` takes back leaves every bit of the group's bitmap and both counts
  -- as they were, where the counts fit their types and the superblock's is above 0.
  pub liberar-pedir :
      (v : Volumen) (h : HasFreeBlock bits v)
      → 0 < v.sb.s_free_blocks_count
      → v.sb.s_free_blocks_count < 2 ^ 32
      → h.d.bg_free_blocks_count < 2 ^ 16
      → (v' : Volumen) × (bs' : List ℕ) × ((do
        (bloque, w) ← pedir_bloque_libre bits v
        liberar_bloque_en_bitmap bits w bloque)
          ≡ some v')
        × (leer_block_bitmap v' h.g ≡ some bs')
        × ((j : ℕ) → j < 8 * length h.bs → bits.test_bit bs' j ≡ bits.test_bit h.bs j)
        × HasCounts v' h.g v.sb.s_free_blocks_count h.d.bg_free_blocks_count
  unfolding pedir_bloque_libre
  liberar-pedir v h some_left fits fits_group =
      let (i, found, first, le) = first_free bits h.bs h.k h.inside h.clear in
      let bs₁ = bits.set_bit h.bs i in
      let size = bits.length-set_bit h.bs i in
      let w = con_bitmap decremento v h.g h.d bs₁ in
      let d₁ : GroupDescriptor = record (h.d) {
        bg_free_blocks_count = decremento 16 h.d.bg_free_blocks_count;
      } in
      let there₁ : get_elem? w.bgdt h.g ≡ some d₁ =
        get_elem?-set_self v.bgdt h.g d₁ (lt_of_get_elem? v.bgdt h.g h.d h.there) in
      let bitmap₁ : leer_block_bitmap w h.g ≡ some bs₁ =
        leer-con_bitmap decremento v h.g h.d h.bs bs₁ h.there h.bitmap size in
      let in_group : i < v.sb.s_blocks_per_group = omega (arith, h.in_group) in
      let small : nro_de v.sb h.g i < 2 ^ 32 = omega (arith, h.small) in
      let search = buscar_bloque_libre_lem bits v h i found le in
      let mark = utilizar_lem bits v h.g i h.d h.bs in_group small h.there h.bitmap first.inside in
      let free =
        liberar_lem bits w h.g i d₁ bs₁ in_group small there₁ bitmap₁
          (omega (arith, first.inside, size)) in
      let bs₂ = bits.clean_bit bs₁ i in
      let v' = con_bitmap incremento w h.g d₁ bs₂ in
      (
        v',
        bs₂,
        rw (search, mark) free,
        leer-con_bitmap incremento w h.g d₁ bs₁ bs₂ there₁ bitmap₁ (bits.length-clean_bit bs₁ i),
        λ j l. clean-set_lem h.bs i j first.inside l first.free,
        subst (λ x. HasCounts v' h.g x h.d.bg_free_blocks_count) (omega (arith, some_left, fits))
            (subst (λ y. HasCounts v' h.g (incremento 32 w.sb.s_free_blocks_count) y)
              (omega (arith, h.counted, fits_group))
              (HasCounts-con_bitmap bits incremento w h.g d₁ bs₂ there₁)),
      )
