-- ===== src/Nipc/RoundTrip.antt =====
-- What one program sends is what the other reads.
use tpso_yanero_los_grosos.Base.{
  ℕ, ◌+◌, ◌^◌, ◌<◌, ◌≡◌, refl, ap, ◌∙◌, List, [], ◌++◌, some, arith, length,
}
use tpso_yanero_los_grosos.Nipc.Bytes.{
  le_bytes, length-le_bytes, slice, read_le, slice-append, read_le-append,
}
use tpso_yanero_los_grosos.Nipc.Packet.{Message, serializar_nipc, recibir}

-- A message whose type is below 256 and whose payload has less than 2^16 bytes is sent, in 3 bytes
-- more than its payload, and the receiver reads the same message, whatever stands behind it in the
-- socket.
pub recibir-serializar_nipc :
    (m : Message) (rest : List ℕ)
    → m.tipo < 256
    → length m.payload < 2 ^ 16
    → (packet : List ℕ) × (serializar_nipc m ≡ some packet)
      × (length packet ≡ 3 + length m.payload)
      × (recibir (packet ++ rest) ≡ some m)
unfolding serializar_nipc recibir
recibir-serializar_nipc m rest small short = (
  packet,
  ground arith,
  omega (arith, length-le_bytes 1 m.tipo),
  rw (shape, read_tipo, read_length, read_payload),
)
  where
    n : ℕ
    n = length m.payload

    packet : List ℕ
    packet = le_bytes 1 m.tipo ++ (le_bytes 2 n ++ m.payload)

    shape : packet ++ rest ≡ le_bytes 1 m.tipo ++ (le_bytes 2 n ++ (m.payload ++ rest))
    shape = refl

    read_tipo :
        read_le 0 1 (le_bytes 1 m.tipo ++ (le_bytes 2 n ++ (m.payload ++ rest))) ≡ some m.tipo
    read_tipo = read_le-append [] (le_bytes 1 m.tipo) _ 0 1 refl refl ∙ ap some (omega arith)

    read_length : read_le 1 2 (le_bytes 1 m.tipo ++ (le_bytes 2 n ++ (m.payload ++ rest))) ≡ some n
    read_length =
        read_le-append (le_bytes 1 m.tipo) (le_bytes 2 n) _ 1 2 refl refl ∙ ap some (omega arith)

    read_payload :
        slice 3 n (le_bytes 1 m.tipo ++ (le_bytes 2 n ++ (m.payload ++ rest))) ≡ some m.payload
    read_payload = slice-append (le_bytes 1 m.tipo ++ le_bytes 2 n) m.payload rest 3 n refl refl
