-- ===== src/Rfs/Inode/Growth.antt =====
-- What is read of a file where a pointer to a block was written.
use tpso_yanero_los_grosos.Base.{
  ℕ, ◌+◌, ◌-◌, ◌*◌, ◌/◌, ◌%◌, ◌^◌, ◌<◌, ◌≤◌, ◌≡◌, refl, ap, sym, ◌∙◌, subst, true, false, List,
  some, arith, ltb, length, length-take, take, drop,
}
use tpso_yanero_los_grosos.Nipc.Bytes.{le_bytes, of_le, of_le-le_bytes_four, read_le-append}
use tpso_yanero_los_grosos.Rfs.Disk.{Volumen, leer-escribir, block_size}
use tpso_yanero_los_grosos.Rfs.Groups.Sizes.{SameSize}
use tpso_yanero_los_grosos.Rfs.Inode.{i_block, buscar_bloque, leer_simple, leer_bloque}
use tpso_yanero_los_grosos.Rfs.Inode.Blocks.{con_i_block, escribir_ptro}

-- A pointer that was written is read.
buscar_bloque-escribir_ptro :
    (v : Volumen) (bloque pos x : ℕ)
    → buscar_bloque (escribir_ptro v bloque pos x).disk bloque pos (block_size v.sb) ≡ x % 2 ^ 32
buscar_bloque-escribir_ptro v bloque pos x =
    ap of_le (leer-escribir (le_bytes 4 x) ((bloque * block_size v.sb + pos * 4) % 2 ^ 32) v.disk)
    ∙ of_le-le_bytes_four x

pub i_block-con_i_block :
    (inodo : List ℕ) (k x : ℕ)
    → length inodo ≡ 128
    → k < 15
    → i_block (con_i_block k x inodo) k ≡ some (x % 2 ^ 32)
i_block-con_i_block inodo k x whole lt =
    let test : ltb k 15 ≡ true = ground (arith, lt) in
    let off = 40 + 4 * k in
    let before : off ≡ length (take off inodo) = omega (arith, length-take off inodo, whole, lt) in
    rw test (
      read_le-append (take off inodo) (le_bytes 4 x) (drop (off + 4) inodo) off 4 before refl
      ∙ ap some (of_le-le_bytes_four x))

pub leer_direct :
    (disk : ℕ → ℕ) (n tam : ℕ) (inodo : List ℕ)
    → ltb n 12 ≡ true
    → leer_bloque disk n inodo tam ≡ i_block inodo n
unfolding leer_bloque
leer_direct disk n tam inodo t = rw t

leer_single :
    (disk : ℕ → ℕ) (n tam p : ℕ) (inodo : List ℕ)
    → ltb n 12 ≡ false
    → ltb (n - 12) (tam / 4) ≡ true
    → i_block inodo 12 ≡ some p
    → leer_bloque disk n inodo tam ≡ some (buscar_bloque disk p (n - 12) tam)
unfolding leer_bloque leer_simple
leer_single disk n tam p inodo f t e = rw (f, t, e)

pub pointed :
    (n raiz x : ℕ) (v : Volumen) (inodo : List ℕ)
    → 12 ≤ n
    → n - 12 < block_size v.sb / 4
    → x < 2 ^ 32
    → i_block inodo 12 ≡ some raiz
    → leer_bloque (escribir_ptro v raiz (n - 12) x).disk n inodo (block_size v.sb) ≡ some x
pointed n raiz x v inodo le lt small e =
    leer_single (escribir_ptro v raiz (n - 12) x).disk n (block_size v.sb) raiz inodo
      (ground (arith, le)) (ground (arith, lt)) e
    ∙ ap some (buscar_bloque-escribir_ptro v raiz (n - 12) x ∙ omega (arith, small))

pub same_place :
    (v w : Volumen) (k : ℕ) → SameSize v w → k < block_size v.sb / 4 → k < block_size w.sb / 4
same_place v w k same lt = subst (λ s. k < 1024 * 2 ^ s / 4) (sym same) lt
