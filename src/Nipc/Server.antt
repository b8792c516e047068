-- ===== src/Nipc/Server.antt =====
-- rfs/serial_rfs.c: the server's reading of the requests, and its answers.
use tpso_yanero_los_grosos.Base.{
  ℕ, ◌+◌, List, [], ◌∷◌, ◌++◌, Option, none, some, ◌>>=◌, ltb, ◌==◌, if◌then◌else◌, length,
}
use tpso_yanero_los_grosos.Nipc.Bytes.{le_bytes, slice, read_le, c_string}
use tpso_yanero_los_grosos.Nipc.Packet.{
  Abi, serializar_nipc, tipo_getattr, tipo_readdir, tipo_read, tipo_write,
}

-- `Desread`.
pub record ReadRequest : Type 0 where
  pub path : List ℕ
  pub offset : ℕ
  pub size : ℕ

-- `Deswrite`.
pub record WriteRequest : Type 0 where
  pub path : List ℕ
  pub size : ℕ
  pub buf : List ℕ
  pub offset : ℕ

-- `Destrunc`.
pub record TruncateRequest : Type 0 where
  pub path : List ℕ
  pub offset : ℕ

module _ (abi : Abi) where
  -- `deserializar_Read_Pedido`: the offset is read as the server's `off_t`.
  unfoldable pub deserializar_read_pedido : List ℕ → Option ReadRequest
  deserializar_read_pedido payload = do
    path ← c_string payload
    let off = length path + 1
    offset ← read_le off abi.off_t_rfs payload
    size ← read_le (off + abi.off_t_rfs) abi.size_t payload
    some (record { path = path; offset = offset; size = size })

  -- `deserializar_Write_Pedido`. Four bytes of the offset are set; with a longer `off_t` the others
  -- never are, which is a fault.
  unfoldable pub deserializar_write_pedido : List ℕ → Option WriteRequest
  deserializar_write_pedido payload = do
    path ← c_string payload
    let off = length path + 1
    size ← read_le off abi.size_t payload
    buf ← slice (off + abi.size_t) size payload
    offset ← read_le (off + abi.size_t + size) 4 payload
    if abi.off_t_rfs == 4
        then some (record { path = path; size = size; buf = buf; offset = offset })
        else none

  -- `deserializar_Truncate_Pedido`.
  unfoldable pub deserializar_truncate_pedido : List ℕ → Option TruncateRequest
  deserializar_truncate_pedido payload = do
    path ← c_string payload
    offset ← read_le (length path + 1) abi.off_t_rfs payload
    some (record { path = path; offset = offset })

  -- `serializar_Gettattr_Rta`.
  unfoldable pub serializar_gettattr_rta : ℕ → ℕ → ℕ → Option (List ℕ)
  serializar_gettattr_rta modo links total_size = serializar_nipc (record {
    tipo = tipo_getattr;
    payload =
        le_bytes abi.mode_t modo
        ++ (le_bytes abi.nlink_t links ++ le_bytes abi.off_t_rfs total_size);
  })

-- `serializar_Read_Rta`, of a `uint16_t` number of bytes.
unfoldable pub serializar_read_rta : List ℕ → Option (List ℕ)
serializar_read_rta buf = serializar_nipc (record { tipo = tipo_read; payload = buf })

-- `serializar_Write_Rta` and `serializar_Result_Rta`: the bits of an `int`.
unfoldable pub serializar_result_rta : ℕ → ℕ → Option (List ℕ)
serializar_result_rta rta tipo = serializar_nipc (record { tipo = tipo; payload = le_bytes 4 rta })

unfoldable pub serializar_write_rta : ℕ → Option (List ℕ)
serializar_write_rta bytes_escritos =
    serializar_nipc (record { tipo = tipo_write; payload = le_bytes 4 bytes_escritos })

-- The second loop of `serializar_readdir_Rta`: the length of each name with its zero, as a
-- `uint8_t`, and as many bytes of it. A name of 255 bytes makes that length wrap, which leaves bytes
-- of the packet unset: a fault.
unfoldable pub escribir_nombres : List (List ℕ) → Option (List ℕ)
escribir_nombres [] = some []
escribir_nombres (name ∷ names) = do
  rest ← escribir_nombres names
  if ltb (length name + 1) 256
      then some (le_bytes 1 (length name + 1) ++ ((name ++ (0 ∷ [])) ++ rest))
      else none

unfoldable pub serializar_readdir_rta : List (List ℕ) → Option (List ℕ)
unfolding escribir_nombres
serializar_readdir_rta names = do
  payload ← escribir_nombres names
  serializar_nipc (record { tipo = tipo_readdir; payload = payload })
