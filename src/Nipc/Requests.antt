-- ===== src/Nipc/Requests.antt =====
-- The requests of fsc, as rfs reads them.
use tpso_yanero_los_grosos.Base.{
  ℕ, ◌+◌, ◌^◌, ◌<◌, ◌≡◌, refl, ap, sym, ◌∙◌, List, [], ◌∷◌, ◌++◌, Option, some, arith, length,
  length-append,
}
use mathlib.Core.List.{append-nil, append_assoc}
use tpso_yanero_los_grosos.Nipc.Bytes.{
  le_bytes, length-le_bytes, le_bytes-add, of_le-le_bytes, slice, read_le, c_string, IsText,
  c_string-append, slice-append, read_le-append,
}
use tpso_yanero_los_grosos.Nipc.Packet.{
  Abi, Message, serializar_nipc, recibir, tipo_read, tipo_write, tipo_truncate,
}
use tpso_yanero_los_grosos.Nipc.Client.{
  serializar_path, serializar_read_pedido, serializar_write_pedido, serializar_truncate_pedido,
}
use tpso_yanero_los_grosos.Nipc.Server.{
  deserializar_read_pedido, deserializar_write_pedido, deserializar_truncate_pedido,
}
use tpso_yanero_los_grosos.Nipc.RoundTrip.{recibir-serializar_nipc}

-- A request that is sent, arrives with anything behind it, and is read as `answer`.
abbrev pub Arrives : {A : Type 0} → Option (List ℕ) → List ℕ → ℕ → (List ℕ → Option A) → A → Type 0
Arrives sent rest tipo parse answer =
    (packet : List ℕ) × (m : Message) × (sent ≡ some packet)
    × (recibir (packet ++ rest) ≡ some m)
    × (m.tipo ≡ tipo)
    × (parse m.payload ≡ some answer)

pub arrives :
    {A : Type 0} (m : Message) (rest : List ℕ) (parse : List ℕ → Option A) (answer : A)
    → m.tipo < 256
    → length m.payload < 2 ^ 16
    → parse m.payload ≡ some answer
    → Arrives (serializar_nipc m) rest m.tipo parse answer
arrives m rest parse answer small short parsed =
    let (packet, sent, _, received) = recibir-serializar_nipc m rest small short in
    (packet, m, sent, received, refl, parsed)

-- A number behind a prefix and before the rest.
number_at :
    (before after : List ℕ) (off n v : ℕ)
    → off ≡ length before
    → v < 256 ^ n
    → read_le off n (before ++ (le_bytes n v ++ after)) ≡ some v
number_at before after off n v e small =
    read_le-append before (le_bytes n v) after off n e (sym (length-le_bytes n v))
    ∙ ap some (of_le-le_bytes n v small)

text_zero : (path : List ℕ) (rest : List ℕ) → path ++ (0 ∷ rest) ≡ (path ++ (0 ∷ [])) ++ rest
text_zero path rest = sym (append_assoc path (0 ∷ []) rest)

length-text_zero : (path : List ℕ) → length path + 1 ≡ length (path ++ (0 ∷ []))
length-text_zero path = omega (arith, length-append path (0 ∷ []))

-- A number at `off` in a payload that has a given shape.
pub number_in :
    (payload before after : List ℕ) (off n v : ℕ)
    → payload ≡ before ++ (le_bytes n v ++ after)
    → off ≡ length before
    → v < 256 ^ n
    → read_le off n payload ≡ some v
number_in payload before after off n v shape e small =
    rw shape (number_at before after off n v e small)

module _ (abi : Abi) (path : List ℕ) (text : IsText path) where
  read_parse :
      (w off size : ℕ)
      → abi.off_t_rfs ≡ w
      → off < 256 ^ w
      → size < 256 ^ abi.size_t
      → deserializar_read_pedido abi (path ++ (0 ∷ (le_bytes w off ++ le_bytes abi.size_t size)))
        ≡ some (record { path = path; offset = off; size = size })
  unfolding deserializar_read_pedido
  read_parse w off size same small fits = rw (c_string-append path _ text, offset, size_read)
    where
      payload : List ℕ
      payload = path ++ (0 ∷ (le_bytes w off ++ le_bytes abi.size_t size))

      offset : read_le (length path + 1) abi.off_t_rfs payload ≡ some off
      offset = rw same (
          number_in payload (path ++ (0 ∷ [])) (le_bytes abi.size_t size) (length path + 1) w off
            (text_zero path _) (length-text_zero path) small)

      size_read : read_le (length path + 1 + abi.off_t_rfs) abi.size_t payload ≡ some size
      size_read =
          number_in payload ((path ++ (0 ∷ [])) ++ le_bytes w off) [] _ abi.size_t size
            (text_zero path _
              ∙ ap (λ xs. (path ++ (0 ∷ [])) ++ (le_bytes w off ++ xs)) (sym (append-nil _))
              ∙ sym (append_assoc (path ++ (0 ∷ [])) (le_bytes w off) _))
            (omega (
              arith,
              length-append (path ++ (0 ∷ [])) (le_bytes w off),
              length-text_zero path,
              length-le_bytes w off,
            ))
            fits

  truncate_parse :
      (w off : ℕ) (more : List ℕ)
      → abi.off_t_rfs ≡ w
      → off < 256 ^ w
      → deserializar_truncate_pedido abi (path ++ (0 ∷ (le_bytes w off ++ more)))
        ≡ some (record { path = path; offset = off })
  unfolding deserializar_truncate_pedido
  truncate_parse w off more same small = rw (c_string-append path _ text, offset)
    where
      offset :
          read_le (length path + 1) abi.off_t_rfs (path ++ (0 ∷ (le_bytes w off ++ more)))
          ≡ some off
      offset = rw same (
          number_in _ (path ++ (0 ∷ [])) more (length path + 1) w off (text_zero path _)
            (length-text_zero path) small)

  write_parse :
      (w off : ℕ) (buf : List ℕ)
      → abi.off_t_rfs ≡ 4
      → w ≡ 4
      → off < 256 ^ w
      → length buf < 256 ^ abi.size_t
      → deserializar_write_pedido abi
          (path ++ (0 ∷ (le_bytes abi.size_t (length buf) ++ (buf ++ le_bytes w off))))
        ≡ some (record { path = path; size = length buf; buf = buf; offset = off })
  unfolding deserializar_write_pedido
  write_parse w off buf same four small fits =
      rw (c_string-append path _ text, size_read, buf_read, offset, same)
    where
      size_bytes : List ℕ
      size_bytes = le_bytes abi.size_t (length buf)

      payload : List ℕ
      payload = path ++ (0 ∷ (size_bytes ++ (buf ++ le_bytes w off)))

      head : List ℕ
      head = (path ++ (0 ∷ [])) ++ size_bytes

      length-head : length path + 1 + abi.size_t ≡ length head
      length-head = omega (
        arith,
        length-append (path ++ (0 ∷ [])) size_bytes,
        length-text_zero path,
        length-le_bytes abi.size_t (length buf),
      )

      shape : payload ≡ head ++ (buf ++ le_bytes w off)
      shape = text_zero path _ ∙ sym (append_assoc (path ++ (0 ∷ [])) size_bytes _)

      size_read : read_le (length path + 1) abi.size_t payload ≡ some (length buf)
      size_read =
          number_in payload (path ++ (0 ∷ [])) (buf ++ le_bytes w off) _ abi.size_t (length buf)
            (text_zero path _) (length-text_zero path) fits

      buf_read : slice (length path + 1 + abi.size_t) (length buf) payload ≡ some buf
      buf_read = rw shape (slice-append head buf (le_bytes w off) _ (length buf) length-head refl)

      offset : read_le (length path + 1 + abi.size_t + length buf) 4 payload ≡ some off
      offset = rw (← four) (
          number_in payload (head ++ buf) [] _ w off
            (shape
              ∙ ap (λ xs. head ++ (buf ++ xs)) (sym (append-nil _))
              ∙ sym (append_assoc head buf _))
            (omega (arith, length-append head buf, length-head)) small)

-- The path has no zero byte.
module _ (abi : Abi) (path rest : List ℕ) (text : IsText path) where
  -- A read request for a path with no zero byte is sent and read with its path, offset and size,
  -- where the server's `off_t` has the 4 bytes in which the client sends an offset below 2^32, the
  -- size fits a `size_t`, and the payload has less than 2^16 bytes.
  pub read_pedido-Arrives :
      (off size : ℕ)
      → abi.off_t_rfs ≡ 4
      → off < 2 ^ 32
      → size < 256 ^ abi.size_t
      → length path + 5 + abi.size_t < 2 ^ 16
      → Arrives
          (serializar_read_pedido abi path off size)
          rest
          tipo_read
          (deserializar_read_pedido abi)
          (record { path = path; offset = off; size = size })
  unfolding serializar_read_pedido
  read_pedido-Arrives off size four small fits short =
      arrives _ rest (deserializar_read_pedido abi) _ (omega arith)
        (omega (
          arith,
          length-append path (0 ∷ (le_bytes 4 off ++ le_bytes abi.size_t size)),
          length-le_bytes abi.size_t size,
        ))
        (read_parse abi path text 4 off size four small fits)

  -- A write request for a path with no zero byte is sent and read with its path, bytes and offset,
  -- where the server's `off_t` has 4 bytes, the offset is below 2^32, the number of bytes fits a
  -- `size_t`, and the payload has less than 2^16 bytes.
  pub write_pedido-Arrives :
      (buf : List ℕ) (off : ℕ)
      → abi.off_t_rfs ≡ 4
      → off < 2 ^ 32
      → length buf < 256 ^ abi.size_t
      → length path + 5 + abi.size_t + length buf < 2 ^ 16
      → Arrives
          (serializar_write_pedido abi path buf off)
          rest
          tipo_write
          (deserializar_write_pedido abi)
          (record { path = path; size = length buf; buf = buf; offset = off })
  unfolding serializar_write_pedido
  write_pedido-Arrives buf off four small fits short =
      arrives _ rest (deserializar_write_pedido abi) _ (omega arith)
        (omega (
          arith,
          length-append path (0 ∷ (le_bytes abi.size_t (length buf) ++ (buf ++ le_bytes 4 off))),
          length-append (le_bytes abi.size_t (length buf)) (buf ++ le_bytes 4 off),
          length-append buf (le_bytes 4 off),
          length-le_bytes abi.size_t (length buf),
        ))
        (write_parse abi path text 4 off buf four refl small fits)

  -- A truncate request for a path with no zero byte is sent and read with its path and length, where
  -- the server's `off_t` is no longer than the client's and holds the length, and the payload has
  -- less than 2^16 bytes.
  pub truncate_pedido-Arrives :
      (off more : ℕ)
      → abi.off_t_fsc ≡ abi.off_t_rfs + more
      → off < 256 ^ abi.off_t_rfs
      → length path + 1 + abi.off_t_fsc < 2 ^ 16
      → Arrives
          (serializar_truncate_pedido abi path off)
          rest
          tipo_truncate
          (deserializar_truncate_pedido abi)
          (record { path = path; offset = off })
  unfolding serializar_truncate_pedido
  truncate_pedido-Arrives off more longer small short =
      arrives _ rest (deserializar_truncate_pedido abi) _ (omega arith)
        (omega (
          arith,
          length-append path (0 ∷ le_bytes abi.off_t_fsc off),
          length-le_bytes abi.off_t_fsc off,
        ))
        (rw (ap (λ n. le_bytes n off) longer ∙ le_bytes-add abi.off_t_rfs more off)
          (truncate_parse abi path text abi.off_t_rfs off _ refl small))

  -- A request of a path alone, with no zero byte and with less than 2^16 bytes of payload, is sent
  -- and read with its path, whatever its type below 256.
  pub path_pedido-Arrives :
      (tipo : ℕ)
      → tipo < 256
      → length path + 1 < 2 ^ 16
      → Arrives (serializar_path path tipo) rest tipo c_string path
  unfolding serializar_path
  path_pedido-Arrives tipo small short =
      arrives _ rest c_string _ small (omega (arith, length-append path (0 ∷ [])))
        (c_string-append path [] text)
