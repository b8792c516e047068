-- ===== src/Nipc/Client.antt =====
-- fsc/serializar_y_deserializar.c: the client's requests, and its reading of the answers. A path is
-- its bytes without the final zero.
use tpso_yanero_los_grosos.Base.{
  ℕ, zero, suc, ◌+◌, List, [], ◌∷◌, ◌++◌, Option, none, some, ◌>>=◌, ltb, if◌then◌else◌, length,
}
use tpso_yanero_los_grosos.Nipc.Bytes.{le_bytes, slice, read_le, c_string}
use tpso_yanero_los_grosos.Nipc.Packet.{Abi, serializar_nipc, tipo_read, tipo_write, tipo_truncate}

-- `serializar_path`.
unfoldable pub serializar_path : List ℕ → ℕ → Option (List ℕ)
serializar_path path tipo = serializar_nipc (record { tipo = tipo; payload = path ++ (0 ∷ []) })

module _ (abi : Abi) where
  -- `serializar_Read_Pedido`: the offset goes as a `uint32_t`.
  unfoldable pub serializar_read_pedido : List ℕ → ℕ → ℕ → Option (List ℕ)
  serializar_read_pedido path off size = serializar_nipc (record {
    tipo = tipo_read;
    payload = path ++ (0 ∷ (le_bytes 4 off ++ le_bytes abi.size_t size));
  })

  -- `serializar_Write_Pedido`: `size` bytes of `buf`.
  unfoldable pub serializar_write_pedido : List ℕ → List ℕ → ℕ → Option (List ℕ)
  serializar_write_pedido path buf off = serializar_nipc (record {
    tipo = tipo_write;
    payload = path ++ (0 ∷ (le_bytes abi.size_t (length buf) ++ (buf ++ le_bytes 4 off)));
  })

  -- `serializar_Truncate_Pedido`: the offset goes as the client's `off_t`.
  unfoldable pub serializar_truncate_pedido : List ℕ → ℕ → Option (List ℕ)
  serializar_truncate_pedido path off =
      serializar_nipc
        (record { tipo = tipo_truncate; payload = path ++ (0 ∷ le_bytes abi.off_t_fsc off) })

  -- `DesAttr_resp` and `deserializar_Gettattr_Rta`: the size is read as a `uint32_t`.
  pub record Attr : Type 0 where
    pub modo : ℕ
    pub nlink : ℕ
    pub total_size : ℕ

  unfoldable pub deserializar_gettattr_rta : List ℕ → Option Attr
  deserializar_gettattr_rta payload = do
    modo ← read_le 0 abi.mode_t payload
    nlink ← read_le abi.mode_t abi.nlink_t payload
    total_size ← read_le (abi.mode_t + abi.nlink_t) 4 payload
    some (record { modo = modo; nlink = nlink; total_size = total_size })

-- `deserializar_Read_Rta`.
unfoldable pub deserializar_read_rta : ℕ → List ℕ → Option (List ℕ)
deserializar_read_rta lectura payload = slice 0 lectura payload

-- `deserializar_Write_Rta` and `deserializar_Result_Rta`, which are the same code: the bits of an
-- `int`.
unfoldable pub deserializar_result_rta : List ℕ → Option ℕ
deserializar_result_rta payload = read_le 0 4 payload

-- The loop of `fsc_readdir` over the names, on as many rounds as there are bytes: each is a length
-- and a text with its zero.
unfoldable pub leer_nombres : ℕ → ℕ → List ℕ → Option (List (List ℕ))
leer_nombres zero off payload = if ltb off (length payload) then none else some []
leer_nombres (suc rounds) off payload =
    let rest = (do
      size ← read_le off 1 payload
      raw ← slice (off + 1) size payload
      name ← c_string raw
      names ← leer_nombres rounds (off + 1 + size) payload
      some (name ∷ names)) in
    if ltb off (length payload) then rest else some []
