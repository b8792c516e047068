-- ===== src/Rfs/Tests/Directory.antt =====
-- A disk with a root directory of two entries, and the theorems on directories, paths and blocks of a
-- file applied to it.
use tpso_yanero_los_grosos.Base.{
  ℕ, ◌≡◌, refl, ◌⊎◌, false, List, [], ◌∷◌, ◌++◌, some, inl, inr, arith, ◌>>=◌, replicate,
}
use tpso_yanero_los_grosos.Rfs.Disk.{Volumen, escribir, block_size}
use tpso_yanero_los_grosos.Rfs.Groups.{pedir_bloque_libre}
use tpso_yanero_los_grosos.Rfs.Inode.{leer_bloque, leer_inodo, lugar_inodo}
use tpso_yanero_los_grosos.Rfs.Inode.Blocks.{error}
use tpso_yanero_los_grosos.Rfs.Inode.Assignment.{asignar_bloque}
use tpso_yanero_los_grosos.Rfs.Inode.Grants.{leer_bloque-asignar_bloque}
use tpso_yanero_los_grosos.Nipc.Bytes.{read_le, slice}
use tpso_yanero_los_grosos.Rfs.Dir.{
  Dir, serializar_dir, entradas_loop, mismo_nombre, buscar_nombre_en_lista, buscar_path,
}
use tpso_yanero_los_grosos.Rfs.Dir.Creation.{crear_nueva_entrada}
use tpso_yanero_los_grosos.Rfs.Dir.Deletion.{borrar_entrada}
use tpso_yanero_los_grosos.Rfs.Dir.Layout.{HasEntries, IsDirectory, vivas, entradas_loop-HasEntries}
use tpso_yanero_los_grosos.Rfs.Dir.Lookup.{buscar-crear_nueva_entrada}
use tpso_yanero_los_grosos.Rfs.Dir.Removal.{pares, sin, borrar_entrada-HasEntries}
use tpso_yanero_los_grosos.Rfs.Paths.{separar_path, separado}
use tpso_yanero_los_grosos.Rfs.Paths.Parents.{buscar_en, buscar_path-separar_path}
use tpso_yanero_los_grosos.Rfs.Tests.{volumen, con_libres, inodo}
use tpso_yanero_los_grosos.Rfs.Tests.Bits.{en_bytes}

-- A directory of 1024 bytes, in the block 10.
abbrev pub raiz : List ℕ
raiz = (237 ∷ 65 ∷ 0 ∷ 0 ∷ 0 ∷ 4 ∷ 0 ∷ 0 ∷ replicate 32 0) ++ (10 ∷ replicate 87 0)

abbrev punto : Dir
punto = record { d_inode = 2; d_rec_len = 12; d_name_len = 1; d_filetype = 0; d_name = 46 ∷ [] }

abbrev archivo : Dir
archivo = record {
  d_inode = 11;
  d_rec_len = 1012;
  d_name_len = 1;
  d_filetype = 0;
  d_name = 97 ∷ [];
}

abbrev pub con_raiz : Volumen
con_raiz = record volumen {
  disk =
      escribir (serializar_dir punto) 10240
        (escribir (serializar_dir archivo) 10252 (escribir raiz 5248 volumen.disk));
}

abbrev entradas : List Dir
entradas = punto ∷ archivo ∷ []

con_raiz-HasEntries : HasEntries con_raiz 10 entradas
con_raiz-HasEntries = (
  omega arith,
  (
    (refl, refl, refl, refl, refl, omega arith, omega arith, omega arith, omega arith),
    omega arith,
    refl,
    (
      (refl, refl, refl, refl, refl, omega arith, omega arith, omega arith, omega arith),
      omega arith,
      refl,
      refl,
    ),
  ),
)

pub raiz_leida : leer_inodo con_raiz 2 ≡ some raiz
unfolding leer_inodo lugar_inodo
raiz_leida = refl

pub raiz_bloque : leer_bloque con_raiz.disk 0 raiz 1024 ≡ some 10
unfolding leer_bloque read_le slice
raiz_bloque = refl

con_raiz-IsDirectory : IsDirectory con_raiz 2 10
unfolding read_le slice
con_raiz-IsDirectory = record {
  inodo = raiz;
  there = raiz_leida;
  i_mode = 16877;
  mode = refl;
  used = refl;
  tam = 1024;
  size = refl;
  more = 0;
  blocks = refl;
  first = raiz_bloque;
}

entradas_loop-HasEntries_example : entradas_loop 1024 con_raiz 10 0 ≡ some entradas
entradas_loop-HasEntries_example = entradas_loop-HasEntries con_raiz 10 entradas con_raiz-HasEntries

buscar-crear_nueva_entrada_example :
    (v' : Volumen) × (ds' : List Dir) × (crear_nueva_entrada en_bytes con_raiz (98 ∷ []) 2 12
      ≡ some (0, v'))
    × HasEntries v' 10 ds'
    × (entradas_loop (block_size v'.sb) v' 10 0 ≡ some (vivas ds'))
    × (buscar_nombre_en_lista (vivas ds') (98 ∷ []) ≡ 12)
    × ((s : List ℕ)
        → mismo_nombre (98 ∷ []) s ≡ false
        → buscar_nombre_en_lista (vivas ds') s ≡ buscar_nombre_en_lista (vivas entradas) s)
buscar-crear_nueva_entrada_example =
    buscar-crear_nueva_entrada en_bytes con_raiz (98 ∷ []) 2 12 10 entradas con_raiz-IsDirectory
      con_raiz-HasEntries (omega arith) (omega arith) (λ e. omega (arith, e))
      (inr (inl (omega arith))) (refl, (refl, tt))

borrar_entrada-HasEntries_example :
    (v' : Volumen) × (ds' : List Dir) × (borrar_entrada con_raiz 2 11 ≡ some (0, v'))
    × HasEntries v' 10 ds'
    × (entradas_loop 1024 v' 10 0 ≡ some (vivas ds'))
    × (pares (vivas ds') ≡ sin 11 (pares entradas))
borrar_entrada-HasEntries_example =
    borrar_entrada-HasEntries con_raiz 2 11 10 entradas con_raiz-IsDirectory con_raiz-HasEntries
      (omega arith) (inr (inl refl)) (λ e. omega (arith, e))

buscar_path-separar_path_example :
    (separar_path (47 ∷ 120 ∷ 47 ∷ 97 ∷ []) ≡ some (separado (47 ∷ 120 ∷ []) (97 ∷ [])))
    × (buscar_path con_raiz (47 ∷ 120 ∷ 47 ∷ 97 ∷ [])
        ≡ (do n ← buscar_path con_raiz (47 ∷ 120 ∷ []); buscar_en con_raiz (97 ∷ []) n))
buscar_path-separar_path_example =
    buscar_path-separar_path con_raiz (47 ∷ 120 ∷ []) [] 97 ((λ e. omega (arith, e)), tt)
      (omega arith)

leer_bloque-asignar_bloque_example :
    ((volumen.sb.s_free_blocks_count ≡ 0)
      × (asignar_bloque en_bytes 3 volumen inodo ≡ some (error, volumen, inodo)))
    ⊎ ((v' : Volumen) × (inodo' : List ℕ) × (bloque : ℕ) × (w : Volumen) × (asignar_bloque en_bytes
            3 volumen inodo
          ≡ some (0, v', inodo'))
        × (pedir_bloque_libre en_bytes volumen ≡ some (bloque, w))
        × (leer_bloque v'.disk 3 inodo' (block_size v'.sb) ≡ some bloque))
leer_bloque-asignar_bloque_example =
    leer_bloque-asignar_bloque en_bytes 3 volumen inodo refl (inl (omega arith)) con_libres
