-- ===== src/Nipc/Answers.antt =====
-- The answers of rfs, as fsc reads them.
use tpso_yanero_los_grosos.Base.{
  ℕ, zero, suc, ◌+◌, ◌/◌, ◌^◌, ◌<◌, ◌≤◌, ◌≡◌, refl, ap, sym, ◌∙◌, subst, List, [], ◌∷◌, ◌++◌, some,
  true, arith, ltb, length, length-append,
}
use mathlib.Core.List.{append-nil, append_assoc}
use tpso_yanero_los_grosos.Nipc.Bytes.{
  le_bytes, length-le_bytes, le_bytes-add, slice, read_le, IsText, c_string-append, slice-append,
}
use tpso_yanero_los_grosos.Nipc.Packet.{Abi, tipo_getattr, tipo_readdir}
use tpso_yanero_los_grosos.Nipc.Client.{
  deserializar_gettattr_rta, deserializar_result_rta, leer_nombres,
}
use tpso_yanero_los_grosos.Nipc.Server.{
  serializar_gettattr_rta, serializar_result_rta, escribir_nombres, serializar_readdir_rta,
}
use tpso_yanero_los_grosos.Nipc.Requests.{Arrives, arrives, number_in}

-- The result of an operation, the 32 bits of an `int`, is sent and read as it is, under any type
-- below 256.
pub result_rta-Arrives :
    (rta tipo : ℕ) (rest : List ℕ)
    → rta < 2 ^ 32
    → tipo < 256
    → Arrives (serializar_result_rta rta tipo) rest tipo deserializar_result_rta rta
unfolding serializar_result_rta deserializar_result_rta
result_rta-Arrives rta tipo rest small kind =
    arrives _ rest deserializar_result_rta rta kind (omega (arith, length-le_bytes 4 rta))
      (number_in (le_bytes 4 rta) [] [] 0 4 rta (sym (append-nil _)) refl small)

-- The attributes of a file are sent and read as they are, where the mode and the number of links fit
-- their types, the size is below 2^32, the server's `off_t` has at least the 4 bytes of the size that
-- the client reads, and the three types have less than 2^16 bytes together.
pub gettattr_rta-Arrives :
    (abi : Abi) (modo nlink total_size more : ℕ) (rest : List ℕ)
    → abi.off_t_rfs ≡ 4 + more
    → modo < 256 ^ abi.mode_t
    → nlink < 256 ^ abi.nlink_t
    → total_size < 2 ^ 32
    → abi.mode_t + abi.nlink_t + abi.off_t_rfs < 2 ^ 16
    → Arrives
        (serializar_gettattr_rta abi modo nlink total_size)
        rest
        tipo_getattr
        (deserializar_gettattr_rta abi)
        (record { modo = modo; nlink = nlink; total_size = total_size })
unfolding serializar_gettattr_rta deserializar_gettattr_rta
gettattr_rta-Arrives abi modo nlink total_size more rest longer m n t short =
    arrives _ rest (deserializar_gettattr_rta abi) _ (omega arith)
      (omega (arith, size, length-le_bytes abi.off_t_rfs total_size))
      (rw (read_modo, read_nlink, read_size))
  where
    a : List ℕ
    a = le_bytes abi.mode_t modo

    b : List ℕ
    b = le_bytes abi.nlink_t nlink

    c : List ℕ
    c = le_bytes abi.off_t_rfs total_size

    size : length (a ++ (b ++ c)) ≡ abi.mode_t + abi.nlink_t + length c
    size = omega (
      arith,
      length-append a (b ++ c),
      length-append b c,
      length-le_bytes abi.mode_t modo,
      length-le_bytes abi.nlink_t nlink,
    )

    read_modo : read_le 0 abi.mode_t (a ++ (b ++ c)) ≡ some modo
    read_modo = number_in (a ++ (b ++ c)) [] (b ++ c) 0 abi.mode_t modo refl refl m

    read_nlink : read_le abi.mode_t abi.nlink_t (a ++ (b ++ c)) ≡ some nlink
    read_nlink =
        number_in (a ++ (b ++ c)) a c _ abi.nlink_t nlink refl
          (sym (length-le_bytes abi.mode_t modo)) n

    read_size : read_le (abi.mode_t + abi.nlink_t) 4 (a ++ (b ++ c)) ≡ some total_size
    read_size =
        number_in (a ++ (b ++ c)) (a ++ b) (le_bytes more (total_size / 256 ^ 4)) _ 4 total_size
          (ap (λ xs. a ++ (b ++ xs))
              (ap (λ k. le_bytes k total_size) longer ∙ le_bytes-add 4 more total_size)
            ∙ sym (append_assoc a b _))
          (omega (
            arith,
            length-append a b,
            length-le_bytes abi.mode_t modo,
            length-le_bytes abi.nlink_t nlink,
          ))
          t

-- Names of files: texts of at most 254 bytes.
abbrev pub AreNames : List (List ℕ) → Type 0
AreNames [] = Unit {0}
AreNames (name ∷ names) = IsText name × (length name < 255) × AreNames names

-- The bytes of a directory's names.
abbrev pub names_bytes : List (List ℕ) → List ℕ
names_bytes [] = []
names_bytes (name ∷ names) =
    le_bytes 1 (length name + 1) ++ ((name ++ (0 ∷ [])) ++ names_bytes names)

escribir_nombres_lem :
    (names : List (List ℕ)) → AreNames names → escribir_nombres names ≡ some (names_bytes names)
unfolding escribir_nombres
escribir_nombres_lem [] h = refl
escribir_nombres_lem (name ∷ names) h = rw (escribir_nombres_lem names h.2) (ground arith)

leer_nombres_lem :
    (before : List ℕ) (names : List (List ℕ)) (rounds off : ℕ)
    → AreNames names
    → length names ≤ rounds
    → off ≡ length before
    → leer_nombres rounds off (before ++ names_bytes names) ≡ some names
unfolding leer_nombres
leer_nombres_lem before [] zero off h r e = ground (arith, length-append before [])
leer_nombres_lem before [] (suc rounds) off h r e = ground (arith, length-append before [])
leer_nombres_lem before (name ∷ names) zero off h r e = absurd (omega arith)
leer_nombres_lem before (name ∷ names) (suc rounds) off h r e = rw (
  more,
  read_size,
  raw,
  c_string-append name [] h.0,
  rest (
      leer_nombres_lem ((before ++ le_bytes 1 (length name + 1)) ++ (name ++ (0 ∷ []))) names rounds
        (off + 1 + (length name + 1)) h.2 (omega arith)),
)
  where
    tail : List ℕ
    tail = names_bytes names

    part : List ℕ
    part = le_bytes 1 (length name + 1)

    text : List ℕ
    text = name ++ (0 ∷ [])

    payload : List ℕ
    payload = before ++ (part ++ (text ++ tail))

    more : ltb off (length payload) ≡ true
    more = ground (arith, length-append before (part ++ (text ++ tail)))

    read_size : read_le off 1 payload ≡ some (length name + 1)
    read_size =
        number_in payload before (text ++ tail) off 1 (length name + 1) refl e (omega (arith, h.1))

    shape : payload ≡ (before ++ part) ++ (text ++ tail)
    shape = sym (append_assoc before part (text ++ tail))

    raw : slice (off + 1) (length name + 1) payload ≡ some text
    raw = rw shape (
        slice-append (before ++ part) text tail _ _ (omega (arith, length-append before part))
          (omega (arith, length-append name (0 ∷ []))))

    rest :
        (off + 1 + (length name + 1) ≡ length ((before ++ part) ++ text)
          → leer_nombres rounds (off + 1 + (length name + 1)) (((before ++ part) ++ text) ++ tail)
            ≡ some names)
        → leer_nombres rounds (off + 1 + (length name + 1)) payload ≡ some names
    rest later =
        subst (λ xs. leer_nombres rounds (off + 1 + (length name + 1)) xs ≡ some names)
          (append_assoc (before ++ part) text tail ∙ append_assoc before part (text ++ tail))
          (later (
            omega (
              arith,
              e,
              length-append (before ++ part) text,
              length-append before part,
              length-append name (0 ∷ []),
            )))

-- The names of a directory, each of at most 254 bytes and with no zero byte, are sent and read in
-- their order, where they have less than 2^16 bytes together; a round for each name is enough for the
-- client's loop.
pub readdir_rta-Arrives :
    (names : List (List ℕ)) (rest : List ℕ) (rounds : ℕ)
    → AreNames names
    → length names ≤ rounds
    → length (names_bytes names) < 2 ^ 16
    → Arrives (serializar_readdir_rta names) rest tipo_readdir (leer_nombres rounds 0) names
unfolding serializar_readdir_rta
readdir_rta-Arrives names rest rounds h enough short = rw (escribir_nombres_lem names h) (
    arrives _ rest (leer_nombres rounds 0) names (omega arith) short
      (leer_nombres_lem [] names rounds 0 h enough refl))
