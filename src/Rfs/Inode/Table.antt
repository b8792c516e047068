-- ===== src/Rfs/Inode/Table.antt =====
-- Writing and reading the inodes of a group's table.
use native.Mathlib.Nat.{mod-lt, div-add-mod'}
use tpso_yanero_los_grosos.Base.{
  ℕ, ◌+◌, ◌-◌, ◌*◌, ◌/◌, ◌%◌, ◌^◌, ◌<◌, ◌≤◌, ◌≡◌, ap, sym, ◌∙◌, subst, ◌≢◌, ◌⊎◌, List, some, inl,
  inr, arith, Bool-cases, ltb, length, get_elem?,
}
use tpso_yanero_los_grosos.Rfs.Disk.{
  GroupDescriptor, Volumen, leer, escribir, leer-escribir, leer-escribir_ne, decremento, div?,
  comienzo_bloque,
}
use tpso_yanero_los_grosos.Rfs.Inode.{lugar_inodo, leer_inodo, escribir_inodo}

-- The inode `n` belongs to the group `g`, whose table, `d`, lies below 2^32.
pub record InGroup (v : Volumen) (g : ℕ) (d : GroupDescriptor) (n : ℕ) : Type 0 where
  pub there : get_elem? v.bgdt g ≡ some d
  pub some_inodes : 0 < v.sb.s_inodes_per_group
  pub table : comienzo_bloque v.sb d.bg_inode_table + v.sb.s_inodes_per_group * 128 ≤ 2 ^ 32
  pub positive : 0 < n
  pub small : n < 2 ^ 32
  pub group : (n - 1) / v.sb.s_inodes_per_group ≡ g

abbrev place : Volumen → GroupDescriptor → ℕ → ℕ
place v d n = comienzo_bloque v.sb d.bg_inode_table + (n - 1) % v.sb.s_inodes_per_group * 128

lugar_inodo_lem :
    (v : Volumen) (g : ℕ) (d : GroupDescriptor) (n : ℕ)
    → InGroup v g d n
    → lugar_inodo v n ≡ some (place v d n)
unfolding lugar_inodo
lugar_inodo_lem v g d n h =
    let before : decremento 32 n ≡ n - 1 = omega (arith, h.positive, h.small) in
    let quotient : div? (n - 1) v.sb.s_inodes_per_group ≡ some g =
      ground (arith, h.some_inodes, h.group) in
    let inside = mod-lt (n - 1) h.some_inodes in
    rw (before, quotient, h.there) (ap some (omega (arith, inside, h.table)))

-- Two inodes of a group stand apart.
apart :
    (v : Volumen) (g : ℕ) (d : GroupDescriptor) (n m : ℕ)
    → InGroup v g d n
    → InGroup v g d m
    → n ≢ m
    → (place v d m + 128 ≤ place v d n) ⊎ (place v d n + 128 ≤ place v d m)
apart v g d n m h k ne =
    let p = v.sb.s_inodes_per_group in
    let a : (n - 1) / p * p + (n - 1) % p ≡ n - 1 = div-add-mod' (n - 1) p in
    let b : (m - 1) / p * p + (m - 1) % p ≡ m - 1 = div-add-mod' (m - 1) p in
    let same : (n - 1) / p * p ≡ (m - 1) / p * p = ap (λ x. x * p) (h.group ∙ sym k.group) in
    let differ : (n - 1) % p ≢ (m - 1) % p =
      λ e. ne (omega (arith, a, b, same, h.positive, k.positive)) in
    elim (Bool-cases (ltb ((m - 1) % p) ((n - 1) % p))) [
      | inl t ↦
          let less : (m - 1) % p < (n - 1) % p = ground (arith, t) in inl (omega (arith, less))
      | inr f ↦
          let more : (n - 1) % p ≤ (m - 1) % p = ground (arith, f) in
          inr (omega (arith, more, differ))
    ]

leer_inodo_lem :
    (v : Volumen) (g : ℕ) (d : GroupDescriptor) (n : ℕ)
    → InGroup v g d n
    → leer_inodo v n ≡ some (leer 128 (place v d n) v.disk)
unfolding leer_inodo
leer_inodo_lem v g d n h = rw (lugar_inodo_lem v g d n h)

-- The group is the same with other bytes on the disk.
with_disk :
    (disk : ℕ → ℕ) (v : Volumen) (g : ℕ) (d : GroupDescriptor) (n : ℕ)
    → InGroup v g d n
    → InGroup (record v { disk = disk }) g d n
with_disk disk v g d n h = record {
  there = h.there;
  some_inodes = h.some_inodes;
  table = h.table;
  positive = h.positive;
  small = h.small;
  group = h.group;
}

read_back :
    (inodo : List ℕ) (a : ℕ) (disk : ℕ → ℕ)
    → length inodo ≡ 128
    → leer 128 a (escribir inodo a disk) ≡ inodo
read_back inodo a disk size =
    subst (λ k. leer k a (escribir inodo a disk) ≡ inodo) size (leer-escribir inodo a disk)

read_other :
    (inodo : List ℕ) (a b : ℕ) (disk : ℕ → ℕ)
    → length inodo ≡ 128
    → (b + 128 ≤ a) ⊎ (a + 128 ≤ b)
    → leer 128 b (escribir inodo a disk) ≡ leer 128 b disk
read_other inodo a b disk size h =
    leer-escribir_ne 128 b a inodo disk
      (elim h [ inl l ↦ inl l | inr l ↦ inr (omega (arith, size, l)) ])

-- What `Inode_escribirInodo` writes, 128 bytes, `Inode_leerInodo` reads back, and every other inode of
-- the same group is read as before, where the group's table lies below 2^32.
pub leer_inodo-escribir_inodo :
    (v : Volumen) (g : ℕ) (d : GroupDescriptor) (n : ℕ) (inodo : List ℕ)
    → InGroup v g d n
    → length inodo ≡ 128
    → (v' : Volumen) × (escribir_inodo v n inodo ≡ some v')
      × (leer_inodo v' n ≡ some inodo)
      × ((m : ℕ) → InGroup v g d m → n ≢ m → leer_inodo v' m ≡ leer_inodo v m)
unfolding escribir_inodo
leer_inodo-escribir_inodo v g d n inodo h size =
    let w = escribir inodo (place v d n) v.disk in
    (
      record v { disk = w },
      rw (lugar_inodo_lem v g d n h),
      leer_inodo_lem (record v { disk = w }) g d n (with_disk w v g d n h)
          ∙ ap some (read_back inodo (place v d n) v.disk size),
      λ m k ne.
          leer_inodo_lem (record v { disk = w }) g d m (with_disk w v g d m k)
          ∙ ap some
              (read_other inodo (place v d n) (place v d m) v.disk size (apart v g d n m h k ne))
          ∙ sym (leer_inodo_lem v g d m k),
    )
