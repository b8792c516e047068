-- ===== src/Rfs/Groups/Full.antt =====
-- `Grupos_pedirBloqueLibre` on a full disk.
use tpso_yanero_los_grosos.Base.{
  ℕ, zero, suc, ◌+◌, ◌/◌, ◌<◌, ◌≤◌, ◌≡◌, refl, none, some, inl, inr, arith, true, false,
  Option-cases, ◌==◌, length, get_elem?, get_elem?_total, lt_of_get_elem?,
}
use tpso_yanero_los_grosos.Rfs.Disk.{GroupDescriptor, Volumen, resta}
use tpso_yanero_los_grosos.Rfs.Bitmap.{Bitarray}
use tpso_yanero_los_grosos.Rfs.Groups.{
  cant_grupos, menos_uno, leer_block_bitmap, bloques_loop, buscar_bloque_libre,
  utilizar_bloque_en_bitmap, pedir_bloque_libre,
}

-- The table has all the groups, and no group counts a free block.
pub record IsFull (v : Volumen) : Type 0 where
  pub groups : cant_grupos v.sb ≡ some (length v.bgdt)
  pub per_group : 0 < v.sb.s_blocks_per_group
  pub nothing :
      (j : ℕ) (d : GroupDescriptor) → get_elem? v.bgdt j ≡ some d → d.bg_free_blocks_count ≡ 0

module _ (bits : Bitarray) (v : Volumen) (full : IsFull v) where
  bloques_loop-full : (n g : ℕ) → g + n ≤ length v.bgdt → bloques_loop bits n g v ≡ some menos_uno
  unfolding bloques_loop
  bloques_loop-full zero g le = refl
  bloques_loop-full (suc n) g le =
      let (d, e) = get_elem?_total v.bgdt g (omega arith) in
      let test : (d.bg_free_blocks_count == 0) ≡ true = ground (arith, full.nothing g d e) in
      rw (e, test, bloques_loop-full n (g + 1) (omega arith))

  buscar-full : buscar_bloque_libre bits v ≡ some menos_uno
  unfolding buscar_bloque_libre
  buscar-full = rw full.groups (bloques_loop-full (length v.bgdt) 0 (omega arith))

  out_of_table : (g : ℕ) → length v.bgdt ≤ g → leer_block_bitmap v g ≡ none
  unfolding leer_block_bitmap
  out_of_table g le = elim (Option-cases (get_elem? v.bgdt g)) [
    | inl e ↦ rw (full.groups, e)
    | inr (d, e) ↦ absurd (omega (arith, le, lt_of_get_elem? v.bgdt g d e))
  ]

  -- On a disk where no group counts a free block, `Grupos_pedirBloqueLibre` marks the block -1 that its
  -- search answers: where the group of that number is not in the table, this is a read past its end.
  pub pedir_bloque_libre-full :
      length v.bgdt ≤ resta 32 menos_uno v.sb.s_first_data_block / v.sb.s_blocks_per_group
      → pedir_bloque_libre bits v ≡ none
  unfolding pedir_bloque_libre utilizar_bloque_en_bitmap
  pedir_bloque_libre-full outside =
      let test : (v.sb.s_blocks_per_group == 0) ≡ false = ground (arith, full.per_group) in
      let past =
        out_of_table (resta 32 menos_uno v.sb.s_first_data_block / v.sb.s_blocks_per_group)
          outside in
      rw (buscar-full, test, past)
