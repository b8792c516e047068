-- ===== src/Nipc/Packet.antt =====
-- The packet that both programs send: a type, a length and a payload (`Nipc`, `serializar_Nipc`),
-- and how the receiver takes it apart (rfs/Main.c, fsc/fsc.c).
use tpso_yanero_los_grosos.Base.{
  ℕ, ◌^◌, List, ◌++◌, Option, none, some, ◌>>=◌, ltb, if◌then◌else◌, length,
}
use tpso_yanero_los_grosos.Nipc.Bytes.{le_bytes, slice, read_le}

-- The sizes of the C types that go over the line: `off_t` as each program is built, and `size_t`,
-- `mode_t` and `nlink_t`. An `int` has 4 bytes.
pub record Abi : Type 0 where
  pub off_t_fsc : ℕ
  pub off_t_rfs : ℕ
  pub size_t : ℕ
  pub mode_t : ℕ
  pub nlink_t : ℕ

-- `Nipc`.
pub record Message : Type 0 where
  pub tipo : ℕ
  pub payload : List ℕ

-- `TIPOGETATTR` to `TIPOMKDIR`.
abbrev pub tipo_getattr : ℕ
tipo_getattr = 1

abbrev pub tipo_readdir : ℕ
tipo_readdir = 2

abbrev pub tipo_read : ℕ
tipo_read = 5

abbrev pub tipo_write : ℕ
tipo_write = 6

abbrev pub tipo_truncate : ℕ
tipo_truncate = 9

-- `serializar_Nipc`, with the allocation that comes before it: `payloadLength` is a `uint16_t`, so
-- a longer payload is written past the end of its buffer, which is a fault.
unfoldable pub serializar_nipc : Message → Option (List ℕ)
serializar_nipc m =
    if ltb (length m.payload) (2 ^ 16)
    then some (le_bytes 1 m.tipo ++ (le_bytes 2 (length m.payload) ++ m.payload))
    else none

-- The receiver: three bytes of header, then `payloadLength` bytes. What follows stays in the
-- socket.
unfoldable pub recibir : List ℕ → Option Message
recibir bs = do
  tipo ← read_le 0 1 bs
  payload_length ← read_le 1 2 bs
  payload ← slice 3 payload_length bs
  some (record { tipo = tipo; payload = payload })

-- `serializar_error`.
unfoldable pub serializar_error : List ℕ
serializar_error = le_bytes 1 0 ++ le_bytes 2 0
