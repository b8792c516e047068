-- ===== src/Nipc/Tests.antt =====
-- Small messages, and the theorems on the messages applied to them.
use tpso_yanero_los_grosos.Base.{ℕ, ◌≡◌, refl, List, [], ◌∷◌, some, arith}
use tpso_yanero_los_grosos.Nipc.Bytes.{c_string, read_le, slice}
use tpso_yanero_los_grosos.Nipc.Packet.{
  Abi, Message, recibir, tipo_read, tipo_write, tipo_truncate, tipo_getattr, tipo_readdir,
}
use tpso_yanero_los_grosos.Nipc.Client.{
  serializar_path, serializar_read_pedido, serializar_write_pedido, serializar_truncate_pedido,
  deserializar_gettattr_rta, deserializar_result_rta, leer_nombres,
}
use tpso_yanero_los_grosos.Nipc.Server.{
  deserializar_read_pedido, deserializar_write_pedido, deserializar_truncate_pedido,
  serializar_gettattr_rta, serializar_result_rta, serializar_readdir_rta,
}
use tpso_yanero_los_grosos.Nipc.Requests.{
  Arrives, read_pedido-Arrives, write_pedido-Arrives, truncate_pedido-Arrives, path_pedido-Arrives,
}
use tpso_yanero_los_grosos.Nipc.Answers.{
  result_rta-Arrives, gettattr_rta-Arrives, readdir_rta-Arrives,
}

-- A 32-bit build, the client with long file offsets.
abbrev i386 : Abi
i386 = record { off_t_fsc = 8; off_t_rfs = 4; size_t = 4; mode_t = 4; nlink_t = 4 }

abbrev path : List ℕ
path = 47 ∷ 97 ∷ []

abbrev rest : List ℕ
rest = 7 ∷ []

abbrev saludo : Message
saludo = record { tipo = 5; payload = 47 ∷ 0 ∷ [] }

recibir_stops : recibir (5 ∷ 2 ∷ 0 ∷ 47 ∷ 0 ∷ 9 ∷ []) ≡ some saludo
unfolding recibir read_le slice
recibir_stops = refl

read_pedido-Arrives_example :
    Arrives
      (serializar_read_pedido i386 path 300 4096)
      rest
      tipo_read
      (deserializar_read_pedido i386)
      (record { path = path; offset = 300; size = 4096 })
read_pedido-Arrives_example =
    read_pedido-Arrives i386 path rest (omega arith) 300 4096 refl (omega arith) (omega arith)
      (omega arith)

write_pedido-Arrives_example :
    Arrives
      (serializar_write_pedido i386 path (8 ∷ 9 ∷ []) 300)
      rest
      tipo_write
      (deserializar_write_pedido i386)
      (record { path = path; size = 2; buf = 8 ∷ 9 ∷ []; offset = 300 })
write_pedido-Arrives_example =
    write_pedido-Arrives i386 path rest (omega arith) (8 ∷ 9 ∷ []) 300 refl (omega arith)
      (omega arith) (omega arith)

truncate_pedido-Arrives_example :
    Arrives
      (serializar_truncate_pedido i386 path 300)
      rest
      tipo_truncate
      (deserializar_truncate_pedido i386)
      (record { path = path; offset = 300 })
truncate_pedido-Arrives_example =
    truncate_pedido-Arrives i386 path rest (omega arith) 300 4 refl (omega arith) (omega arith)

path_pedido-Arrives_example : Arrives (serializar_path path 7) rest 7 c_string path
path_pedido-Arrives_example =
    path_pedido-Arrives i386 path rest (omega arith) 7 (omega arith) (omega arith)

result_rta-Arrives_example :
    Arrives (serializar_result_rta 4294967295 3) rest 3 deserializar_result_rta 4294967295
result_rta-Arrives_example = result_rta-Arrives 4294967295 3 rest (omega arith) (omega arith)

gettattr_rta-Arrives_example :
    Arrives
      (serializar_gettattr_rta i386 33188 1 5000)
      rest
      tipo_getattr
      (deserializar_gettattr_rta i386)
      (record { modo = 33188; nlink = 1; total_size = 5000 })
gettattr_rta-Arrives_example =
    gettattr_rta-Arrives i386 33188 1 5000 0 rest refl (omega arith) (omega arith) (omega arith)
      (omega arith)

readdir_rta-Arrives_example :
    Arrives
      (serializar_readdir_rta ((97 ∷ []) ∷ (98 ∷ 99 ∷ []) ∷ []))
      rest
      tipo_readdir
      (leer_nombres 2 0)
      ((97 ∷ []) ∷ (98 ∷ 99 ∷ []) ∷ [])
readdir_rta-Arrives_example =
    readdir_rta-Arrives ((97 ∷ []) ∷ (98 ∷ 99 ∷ []) ∷ []) rest 2 (omega arith) (omega arith)
      (omega arith)
