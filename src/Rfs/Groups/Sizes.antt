-- ===== src/Rfs/Groups/Sizes.antt =====
-- What `Grupos_pedirBloqueLibre` leaves as it is: the size of a block.
use tpso_yanero_los_grosos.Base.{
  some-inj, ℕ, zero, suc, ◌+◌, ◌%◌, ◌^◌, ◌<◌, ◌==◌, subst, inl, inr, arith, Bool-cases, ◌≡◌, ap,
  sym, ◌∙◌, some, >>=-eq-some, ◌>>=◌, ◌-◌, ◌*◌, get_elem?, List,
}
use tpso_yanero_los_grosos.Rfs.Disk.{Volumen, resta, decremento, div?}
use tpso_yanero_los_grosos.Rfs.Bitmap.{Bitarray, con_bit_puesto}
use tpso_yanero_los_grosos.Rfs.Groups.{
  leer_block_bitmap, escribir_block_bitmap, contar_bloques, utilizar_bloque_en_bitmap,
  buscar_bloque_libre, buscar_bloque_libre_por_grupo, bloques_loop, menos_uno, cant_grupos,
  pedir_bloque_libre,
}

-- The volumes have blocks of one size.
abbrev pub SameSize : Volumen → Volumen → Type 0
SameSize v w = w.sb.s_log_block_size ≡ v.sb.s_log_block_size

contar_bloques-SameSize :
    (f : ℕ → ℕ → ℕ) (v w : Volumen) (g : ℕ) → contar_bloques f v g ≡ some w → SameSize v w
unfolding contar_bloques
contar_bloques-SameSize f v w g e =
    let (d, _, e₁) = >>=-eq-some (get_elem? v.bgdt g) _ e in
    ap {A = Volumen} (λ x. x.sb.s_log_block_size) (sym (some-inj e₁))

escribir_block_bitmap-SameSize :
    (v w : Volumen) (g : ℕ) (bs : List ℕ) → escribir_block_bitmap v g bs ≡ some w → SameSize v w
unfolding escribir_block_bitmap
escribir_block_bitmap-SameSize v w g bs e =
    let (d, _, e₁) = >>=-eq-some (get_elem? v.bgdt g) _ e in
    ap {A = Volumen} (λ x. x.sb.s_log_block_size) (sym (some-inj e₁))

utilizar-SameSize :
    (bits : Bitarray) (v w : Volumen) (nro_bloque : ℕ)
    → utilizar_bloque_en_bitmap bits v nro_bloque ≡ some w
    → SameSize v w
unfolding utilizar_bloque_en_bitmap
utilizar-SameSize bits v w nro_bloque e =
    let (g, _, e₁) =
      >>=-eq-some (div? (resta 32 nro_bloque v.sb.s_first_data_block) v.sb.s_blocks_per_group) _
        e in
    let (bs, _, e₂) = >>=-eq-some (leer_block_bitmap v g) _ e₁ in
    let (bs', _, e₃) =
      >>=-eq-some
        (con_bit_puesto bits bs
          (resta 32 nro_bloque v.sb.s_first_data_block - g * v.sb.s_blocks_per_group))
        _ e₂ in
    let (v₁, w₁, e₄) = >>=-eq-some (escribir_block_bitmap v g bs') _ e₃ in
    contar_bloques-SameSize decremento v₁ w g e₄ ∙ escribir_block_bitmap-SameSize v v₁ g bs' w₁

pub pedir_bloque_libre-SameSize :
    (bits : Bitarray) (v w : Volumen) (bloque : ℕ)
    → pedir_bloque_libre bits v ≡ some (bloque, w)
    → SameSize v w
unfolding pedir_bloque_libre
pedir_bloque_libre-SameSize bits v w bloque e =
    let (b, _, e₁) = >>=-eq-some (buscar_bloque_libre bits v) _ e in
    let (w', used, e₂) = >>=-eq-some (utilizar_bloque_en_bitmap bits v b) _ e₁ in
    ap {A = ℕ × Volumen} (λ x. x.1.sb.s_log_block_size) (sym (some-inj e₂))
    ∙ utilizar-SameSize bits v w' b used

bloques_loop-small :
    (bits : Bitarray) (n g : ℕ) (v : Volumen) (bloque : ℕ)
    → bloques_loop bits n g v ≡ some bloque
    → bloque < 2 ^ 32
unfolding bloques_loop
bloques_loop-small bits zero g v bloque e =
    let same : menos_uno ≡ bloque = some-inj e in omega (arith, same)
bloques_loop-small bits (suc n) g v bloque e =
    let (d, _, e₁) = >>=-eq-some (get_elem? v.bgdt g) _ e in
    elim (Bool-cases (d.bg_free_blocks_count == 0)) [
      | inl t ↦ bloques_loop-small bits n (g + 1) v bloque (rw t at e₁)
      | inr f ↦
          let (k, _, e₂) = >>=-eq-some (buscar_bloque_libre_por_grupo bits v g) _ (rw f at e₁) in
          let same : (g * v.sb.s_blocks_per_group + k + v.sb.s_first_data_block) % 2 ^ 32 ≡ bloque =
            some-inj e₂ in
          omega (arith, same)
    ]

pub pedir_bloque_libre-small :
    (bits : Bitarray) (v w : Volumen) (bloque : ℕ)
    → pedir_bloque_libre bits v ≡ some (bloque, w)
    → bloque < 2 ^ 32
unfolding pedir_bloque_libre buscar_bloque_libre
pedir_bloque_libre-small bits v w bloque e =
    let (b, found, e₁) = >>=-eq-some (do cant ← cant_grupos v.sb; bloques_loop bits cant 0 v) _ e in
    let (cant, _, found') = >>=-eq-some (cant_grupos v.sb) _ found in
    let (w', _, e₂) = >>=-eq-some (utilizar_bloque_en_bitmap bits v b) _ e₁ in
    let same : b ≡ bloque = ap {A = ℕ × Volumen} (λ x. x.0) (some-inj e₂) in
    subst (λ x. x < 2 ^ 32) same (bloques_loop-small bits cant 0 v b found')
