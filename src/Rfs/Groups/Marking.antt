-- ===== src/Rfs/Groups/Marking.antt =====
-- Marking a block of a group as used or free, in the group's bitmap and in the counts.
use native.Mathlib.Nat.{mul-add-div_right, div-eq_of_lt}
use tpso_yanero_los_grosos.Base.{
  ℕ, ◌+◌, ◌-◌, ◌*◌, ◌/◌, ◌^◌, ◌<◌, ◌≡◌, ap, sym, ◌∙◌, true, List, some, arith, >>=-eq-some, ltb,
  length, get_elem?, set, get_elem?-set_self, lt_of_get_elem?,
}
use tpso_yanero_los_grosos.Rfs.Disk.{
  Superblock, GroupDescriptor, Volumen, leer, escribir, leer-escribir, length-leer, resta,
  incremento, decremento, div?, comienzo_bloque,
}
use tpso_yanero_los_grosos.Rfs.Bitmap.{Bitarray}
use tpso_yanero_los_grosos.Rfs.Groups.{
  tam_block_bitmap, leer_block_bitmap, escribir_block_bitmap, utilizar_bloque_en_bitmap,
  liberar_bloque_en_bitmap, contar_bloques,
}

-- The number of the block at the place `k` of the group `g`.
abbrev pub nro_de : Superblock → ℕ → ℕ → ℕ
nro_de sb g k = g * sb.s_blocks_per_group + k + sb.s_first_data_block

-- The volume with the bitmap `bs` in the group `g`, and its counts changed by `f`.
abbrev pub con_bitmap : (ℕ → ℕ → ℕ) → Volumen → ℕ → GroupDescriptor → List ℕ → Volumen
con_bitmap f v g d bs = record {
  disk = escribir bs (comienzo_bloque v.sb d.bg_block_bitmap) v.disk;
  sb = record (v.sb) { s_free_blocks_count = f 32 v.sb.s_free_blocks_count };
  bgdt = set v.bgdt g (record d { bg_free_blocks_count = f 16 d.bg_free_blocks_count });
}

-- A bitmap that is written is read back, in the place of one of its length.
pub leer-con_bitmap :
    (f : ℕ → ℕ → ℕ) (v : Volumen) (g : ℕ) (d : GroupDescriptor) (bs bs' : List ℕ)
    → get_elem? v.bgdt g ≡ some d
    → leer_block_bitmap v g ≡ some bs
    → length bs' ≡ length bs
    → leer_block_bitmap (con_bitmap f v g d bs') g ≡ some bs'
unfolding leer_block_bitmap
leer-con_bitmap f v g d bs bs' there h same =
    let (tam, e, h₁) = >>=-eq-some (tam_block_bitmap v.sb g) _ h in
    let (d', there', h₂) = >>=-eq-some (get_elem? v.bgdt g) _ h₁ in
    let start = comienzo_bloque v.sb d'.bg_block_bitmap in
    let same_bs : leer tam start v.disk ≡ bs = cc in
    let size : tam ≡ length bs' =
      sym (length-leer tam start v.disk) ∙ ap length same_bs ∙ sym same in
    rw (
      e,
      get_elem?-set_self v.bgdt g (record d { bg_free_blocks_count = f 16 d.bg_free_blocks_count })
          (lt_of_get_elem? v.bgdt g d there),
      size,
      leer-escribir bs' (comienzo_bloque v.sb d.bg_block_bitmap) v.disk,
    )

module _ (bits : Bitarray) (v : Volumen) (g k : ℕ) (d : GroupDescriptor) (bs : List ℕ)
    (in_group : k < v.sb.s_blocks_per_group) (small : nro_de v.sb g k < 2 ^ 32)
    (there : get_elem? v.bgdt g ≡ some d) (bitmap : leer_block_bitmap v g ≡ some bs)
    (inside : k < 8 * length bs) where
  nro : resta 32 (nro_de v.sb g k) v.sb.s_first_data_block ≡ g * v.sb.s_blocks_per_group + k
  nro = omega (arith, small)

  grupo : div? (g * v.sb.s_blocks_per_group + k) v.sb.s_blocks_per_group ≡ some g
  grupo =
      let q : (g * v.sb.s_blocks_per_group + k) / v.sb.s_blocks_per_group ≡ g =
        mul-add-div_right (omega (arith, in_group)) g k ∙ omega (arith, div-eq_of_lt in_group) in
      ground (arith, q, in_group)

  lugar : g * v.sb.s_blocks_per_group + k - g * v.sb.s_blocks_per_group ≡ k
  lugar = omega arith

  cabe : ltb k (8 * length bs) ≡ true
  cabe = ground (arith, inside)

  contar_lem :
      (f : ℕ → ℕ → ℕ) (bs' : List ℕ)
      → contar_bloques f
          (record v { disk = escribir bs' (comienzo_bloque v.sb d.bg_block_bitmap) v.disk })
          g
        ≡ some (con_bitmap f v g d bs')
  unfolding contar_bloques
  contar_lem f bs' = rw there

  pub utilizar_lem :
      utilizar_bloque_en_bitmap bits v (nro_de v.sb g k)
      ≡ some (con_bitmap decremento v g d (bits.set_bit bs k))
  unfolding utilizar_bloque_en_bitmap escribir_block_bitmap
  utilizar_lem =
      rw (nro, grupo, bitmap, lugar, cabe, there) (contar_lem decremento (bits.set_bit bs k))

  pub liberar_lem :
      liberar_bloque_en_bitmap bits v (nro_de v.sb g k)
      ≡ some (con_bitmap incremento v g d (bits.clean_bit bs k))
  unfolding liberar_bloque_en_bitmap escribir_block_bitmap
  liberar_lem =
      rw (nro, grupo, bitmap, lugar, cabe, there) (contar_lem incremento (bits.clean_bit bs k))
