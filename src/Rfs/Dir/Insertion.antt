-- ===== src/Rfs/Dir/Insertion.antt =====
-- `Dir_crearNuevaEntrada` on the blocks of a directory: the walk finds the first entry with place, and
-- the block holds the new entry behind it.
use tpso_yanero_los_grosos.Base.{
  ℕ, zero, suc, ◌+◌, ◌-◌, ◌%◌, ◌^◌, ◌<◌, ◌≤◌, ◌≡◌, ap, sym, ◌∙◌, subst, true, false, List, [], ◌∷◌,
  some, inl, inr, arith, Bool-cases, ltb, leb, length,
}
use tpso_yanero_los_grosos.Rfs.Disk.{Volumen, escribir, resta, comienzo_bloque, block_size}
use tpso_yanero_los_grosos.Rfs.Bitmap.{Bitarray}
use tpso_yanero_los_grosos.Rfs.Dir.{Dir, cabecera, serializar_dir, leer_cabecera, lugar_en_bloque}
use tpso_yanero_los_grosos.Rfs.Dir.Creation.{
  tam_entrada, nueva_entrada, lugar_loop, partir_entrada, crear_nueva_entrada, buscar_lugar,
}
use tpso_yanero_los_grosos.Rfs.Dir.Layout.{
  AreLaid, HasEntries, IsDirectory, AreLaid-le, leer_cabecera-IsEntry, lugar_en_bloque_lem,
}
use tpso_yanero_los_grosos.Rfs.Dir.Splitting.{
  tam_entrada_lem, sobra, insertar, HasRoom, escritura, Fits, AreLaid-split, IsEntry-escritura,
}

resta_lem : (a b : ℕ) → a < 2 ^ 16 → b ≤ a → resta 32 a b ≡ a - b
resta_lem a b small le = omega (arith, small, le)

-- What the walk answers, and what the two writes make of the entries.
abbrev Splits : ℕ → ℕ → Volumen → ℕ → ℕ → Dir → List Dir → Type 0
Splits n tam v bloque offset nueva ds =
    let a = comienzo_bloque v.sb bloque in
    let e = a + block_size v.sb in
    (off : ℕ) × (d : Dir) × (lugar_loop n tam v bloque offset
      ≡ some (some (off, record d { d_name = [] })))
    × (offset ≤ off)
    × (off + d.d_rec_len ≤ block_size v.sb)
    × (tam ≤ sobra d)
    × (d.d_rec_len < 2 ^ 16)
    × (8 + d.d_name_len ≤ d.d_rec_len)
    × AreLaid (escritura v.disk (a + off) d nueva) (a + offset) (insertar tam nueva ds) e

insertar_here :
    (tam : ℕ) (nueva d : Dir) (ds : List Dir)
    → leb tam (sobra d) ≡ true
    → insertar tam nueva (d ∷ ds)
      ≡ record d { d_rec_len = tam_entrada d.d_name_len }
        ∷ record nueva { d_rec_len = sobra d }
        ∷ ds
insertar_here tam nueva d ds t = rw t

insertar_after :
    (tam : ℕ) (nueva d : Dir) (ds : List Dir)
    → leb tam (sobra d) ≡ false
    → insertar tam nueva (d ∷ ds) ≡ d ∷ insertar tam nueva ds
insertar_after tam nueva d ds f = rw f

lugar_here :
    (n tam : ℕ) (v : Volumen) (bloque offset : ℕ) (d : Dir)
    → ltb offset (block_size v.sb) ≡ true
    → leer_cabecera v.disk (lugar_en_bloque v.sb bloque offset) ≡ record d { d_name = [] }
    → leb tam (resta 32 d.d_rec_len (tam_entrada d.d_name_len)) ≡ true
    → lugar_loop (suc n) tam v bloque offset ≡ some (some (offset, record d { d_name = [] }))
unfolding lugar_loop
lugar_here n tam v bloque offset d t e =
    subst
      (λ c.
        leb tam (resta 32 c.d_rec_len (tam_entrada c.d_name_len)) ≡ true
        → lugar_loop (suc n) tam v bloque offset ≡ some (some (offset, c)))
      e (λ h. rw (t, h))

lugar_after :
    (n tam : ℕ) (v : Volumen) (bloque offset : ℕ) (d : Dir)
    → ltb offset (block_size v.sb) ≡ true
    → leer_cabecera v.disk (lugar_en_bloque v.sb bloque offset) ≡ record d { d_name = [] }
    → leb tam (resta 32 d.d_rec_len (tam_entrada d.d_name_len)) ≡ false
    → lugar_loop (suc n) tam v bloque offset
      ≡ lugar_loop n tam v bloque ((offset + d.d_rec_len) % 2 ^ 32)
unfolding lugar_loop
lugar_after n tam v bloque offset d t e =
    subst
      (λ c.
        leb tam (resta 32 c.d_rec_len (tam_entrada c.d_name_len)) ≡ false
        → lugar_loop (suc n) tam v bloque offset
          ≡ lugar_loop n tam v bloque ((offset + c.d_rec_len) % 2 ^ 32))
      e (λ h. rw (t, h))

insertion_lem :
    (n tam : ℕ) (v : Volumen) (bloque offset : ℕ) (nueva : Dir) (ds : List Dir)
    → block_size v.sb ≤ n + offset
    → comienzo_bloque v.sb bloque + block_size v.sb < 2 ^ 32
    → AreLaid v.disk
        (comienzo_bloque v.sb bloque + offset)
        ds
        (comienzo_bloque v.sb bloque + block_size v.sb)
    → Fits nueva tam
    → HasRoom tam ds
    → Splits n tam v bloque offset nueva ds
insertion_lem n tam v bloque offset nueva [] fuel le h fits room = absurd room
insertion_lem zero tam v bloque offset nueva (d ∷ ds) fuel le h fits room =
    let inside = AreLaid-le v.disk _ _ ds h.3 in absurd (omega (arith, fuel, inside, h.1))
insertion_lem (suc n) tam v bloque offset nueva (d ∷ ds) fuel le h fits room =
    let (entry, whole, four, rest) = h in
    let inside = AreLaid-le v.disk _ _ ds rest in
    let (more, less, times) = tam_entrada_lem d.d_name_len in
    let lt : offset < block_size v.sb = omega (arith, inside, whole) in
    let test : ltb offset (block_size v.sb) ≡ true = ground (arith, lt) in
    let a = comienzo_bloque v.sb bloque in
    let here : leer_cabecera v.disk (lugar_en_bloque v.sb bloque offset)
        ≡ record d { d_name = [] } =
      ap (leer_cabecera v.disk) (lugar_en_bloque_lem v.sb bloque offset lt le)
      ∙ leer_cabecera-IsEntry v.disk (a + offset) d entry in
    let place : resta 32 d.d_rec_len (tam_entrada d.d_name_len) ≡ sobra d =
      resta_lem d.d_rec_len (tam_entrada d.d_name_len) entry.6
        (omega (arith, less, times, whole, four)) in
    elim (Bool-cases (leb tam (sobra d))) [
      | inl t ↦
          let room' : tam ≤ sobra d = ground (arith, t) in
          (
            offset,
            d,
            lugar_here n tam v bloque offset d test here (ap (leb tam) place ∙ t),
            omega arith,
            omega (arith, inside),
            room',
            entry.6,
            whole,
            subst
                (λ ls.
                  AreLaid (escritura v.disk (a + offset) d nueva) (a + offset) ls
                    (a + block_size v.sb))
                (sym (insertar_here tam nueva d ds t))
                (AreLaid-split v.disk (a + offset) (a + block_size v.sb) d nueva ds tam h fits
                  room'),
          )
      | inr f ↦
          let small : (offset + d.d_rec_len) % 2 ^ 32 ≡ offset + d.d_rec_len =
            omega (arith, inside, le) in
          let (off, g, e, o₁, o₂, o₃, o₄, o₅, laid) =
            insertion_lem n tam v bloque (offset + d.d_rec_len) nueva ds
              (omega (arith, fuel, whole)) le
              (subst (λ x. AreLaid v.disk x ds (a + block_size v.sb)) (omega arith) rest) fits
              (elim room [ inl l ↦ absurd (ground (arith, l, f)) | inr r ↦ r ]) in
          (
            off,
            g,
            lugar_after n tam v bloque offset d test here (ap (leb tam) place ∙ f)
                ∙ ap (lugar_loop n tam v bloque) small
                ∙ e,
            omega (arith, o₁),
            o₂,
            o₃,
            o₄,
            o₅,
            subst
                (λ ls.
                  AreLaid (escritura v.disk (a + off) g nueva) (a + offset) ls
                    (a + block_size v.sb))
                (sym (insertar_after tam nueva d ds f))
                (
                  IsEntry-escritura v.disk (a + offset) (a + off) d g nueva
                      (omega (arith, o₁, whole)) entry,
                  whole,
                  four,
                  subst
                      (λ x.
                        AreLaid (escritura v.disk (a + off) g nueva) x (insertar tam nueva ds)
                          (a + block_size v.sb))
                      (omega arith) laid,
                ),
          )
    ]

partir_entrada_lem :
    (v : Volumen) (bloque off : ℕ) (d nueva : Dir)
    → comienzo_bloque v.sb bloque + block_size v.sb < 2 ^ 32
    → off + d.d_rec_len ≤ block_size v.sb
    → 8 + d.d_name_len ≤ d.d_rec_len
    → d.d_rec_len < 2 ^ 16
    → 8 ≤ sobra d
    → (partir_entrada v bloque off (record d { d_name = [] }) nueva).disk
      ≡ escritura v.disk (comienzo_bloque v.sb bloque + off) d nueva
partir_entrada_lem v bloque off d nueva le inside whole small left =
    let tam = tam_entrada d.d_name_len in
    let a = comienzo_bloque v.sb bloque in
    let (more, less, times) = tam_entrada_lem d.d_name_len in
    let e₁ : lugar_en_bloque v.sb bloque off ≡ a + off =
      lugar_en_bloque_lem v.sb bloque off (omega (arith, inside, whole)) le in
    let e₂ : lugar_en_bloque v.sb bloque ((off + tam) % 2 ^ 32) ≡ a + off + tam =
      ap (lugar_en_bloque v.sb bloque) (omega (arith, inside, left, le))
      ∙ lugar_en_bloque_lem v.sb bloque (off + tam) (omega (arith, inside, left)) le
      ∙ omega arith in
    let e₃ : resta 16 d.d_rec_len tam ≡ sobra d = omega (arith, small, left) in
    let disk₁ = escribir (cabecera (record d { d_rec_len = tam })) (a + off) v.disk in
    ap
      (λ x.
        escribir (serializar_dir (record nueva { d_rec_len = resta 16 d.d_rec_len tam }))
          (lugar_en_bloque v.sb bloque ((off + tam) % 2 ^ 32))
          (escribir (cabecera (record d { d_rec_len = tam })) x v.disk))
      e₁
    ∙ ap
        (λ x.
          escribir (serializar_dir (record nueva { d_rec_len = resta 16 d.d_rec_len tam })) x disk₁)
        e₂
    ∙ ap (λ x. escribir (serializar_dir (record nueva { d_rec_len = x })) (a + off + tam) disk₁) e₃

module _ (bits : Bitarray) where
  crear_found :
      (v : Volumen) (nombre : List ℕ) (dir creado bloque off : ℕ) (d : Dir)
      → IsDirectory v dir bloque
      → lugar_loop (block_size v.sb) (tam_entrada (length nombre % 2 ^ 8)) v bloque 0
        ≡ some (some (off, d))
      → crear_nueva_entrada bits v nombre dir creado
        ≡ some (0, partir_entrada v bloque off d (nueva_entrada nombre creado))
  unfolding crear_nueva_entrada buscar_lugar
  crear_found v nombre dir creado bloque off d is e =
      rw (is.there, is.mode, is.size, is.used, is.blocks, is.first, e)

  -- Where the first block of a directory is full of entries, each inside its length and in a block
  -- that ends below 2^32, and one has place behind its name for a name of less than 256 bytes,
  -- Dir_crearNuevaEntrada answers 0: the first such entry is cut to its own size, the new entry
  -- follows it with the rest of its length, and the other entries of the block are as they were.
  pub crear_nueva_entrada-HasEntries :
      (v : Volumen) (nombre : List ℕ) (dir creado bloque : ℕ) (ds : List Dir)
      → IsDirectory v dir bloque
      → HasEntries v bloque ds
      → length nombre < 2 ^ 8
      → creado < 2 ^ 32
      → HasRoom (tam_entrada (length nombre)) ds
      → (v' : Volumen) × (crear_nueva_entrada bits v nombre dir creado ≡ some (0, v'))
        × HasEntries v' bloque
            (insertar (tam_entrada (length nombre)) (nueva_entrada nombre creado) ds)
  crear_nueva_entrada-HasEntries v nombre dir creado bloque ds is (le, laid) short small room =
      let nueva = nueva_entrada nombre creado in
      let tam = tam_entrada (length nombre) in
      let own : length nombre % 2 ^ 8 ≡ length nombre = omega (arith, short) in
      let (more, less, times) = tam_entrada_lem (length nombre) in
      let (off, d, e, o₁, o₂, o₃, o₄, o₅, after) =
        insertion_lem (block_size v.sb) tam v bloque 0 nueva ds (omega arith) le
          (subst (λ a. AreLaid v.disk a ds (comienzo_bloque v.sb bloque + block_size v.sb))
            (omega arith) laid)
          (sym own, small, omega arith, omega arith, omega (arith, more, own)) room in
      let d' : Dir = record d { d_name = [] } in
      let a = comienzo_bloque v.sb bloque in
      (
        partir_entrada v bloque off d' nueva,
        crear_found v nombre dir creado bloque off d' is
            (ap (λ n. lugar_loop (block_size v.sb) (tam_entrada n) v bloque 0) own ∙ e),
        (
          le,
          subst (λ disk. AreLaid disk a (insertar tam nueva ds) (a + block_size v.sb))
              (sym (partir_entrada_lem v bloque off d nueva le o₂ o₅ o₄ (omega (arith, o₃, more))))
              (subst
                (λ x.
                  AreLaid (escritura v.disk (a + off) d nueva) x (insertar tam nueva ds)
                    (a + block_size v.sb))
                (omega arith) after),
        ),
      )
