-- ===== src/Rfs/Dir.antt =====
-- rfs/Dir.c: the entries of a directory in the blocks of its file, their listing and the lookup of a
-- path. A walk over the entries of a block takes as many rounds as the block has bytes at most;
-- `none` is a walk that does not end, or a fault.
pub mod Creation
pub mod Deletion
pub mod Layout
pub mod Writing
pub mod Splitting
pub mod Insertion
pub mod Joining
pub mod Removal
pub mod Lookup
use tpso_yanero_los_grosos.Base.{
  ℕ, zero, suc, ◌+◌, ◌*◌, ◌/◌, ◌%◌, ◌^◌, Bool, true, false, ◌&&◌, List, [], ◌∷◌, ◌++◌, Option, none,
  some, ◌>>=◌, ltb, ◌==◌, if◌then◌else◌, length, take,
}
use tpso_yanero_los_grosos.Nipc.Bytes.{le_bytes, of_le}
use tpso_yanero_los_grosos.Rfs.Disk.{Superblock, Volumen, leer, comienzo_bloque, block_size}
use tpso_yanero_los_grosos.Rfs.Inode.{leer_bloque, leer_inodo}
use tpso_yanero_los_grosos.Rfs.Inode.Blocks.{i_size, cant_bloques}

-- `Dir`; a name that is not there (`NULL`) is empty.
pub record Dir : Type 0 where
  pub d_inode : ℕ
  pub d_rec_len : ℕ
  pub d_name_len : ℕ
  pub d_filetype : ℕ
  pub d_name : List ℕ

-- `serializarDir`: the first 8 bytes, then the name.
abbrev pub cabecera : Dir → List ℕ
cabecera d =
    le_bytes 4 d.d_inode
    ++ (le_bytes 2 d.d_rec_len ++ (le_bytes 1 d.d_name_len ++ le_bytes 1 d.d_filetype))

abbrev pub serializar_dir : Dir → List ℕ
serializar_dir d = cabecera d ++ take d.d_name_len d.d_name

-- The first 8 bytes of an entry, read into the struct.
abbrev pub leer_cabecera : (ℕ → ℕ) → ℕ → Dir
leer_cabecera disk a = record {
  d_inode = of_le (leer 4 a disk);
  d_rec_len = of_le (leer 2 (a + 4) disk);
  d_name_len = of_le (leer 1 (a + 6) disk);
  d_filetype = of_le (leer 1 (a + 7) disk);
  d_name = [];
}

abbrev pub leer_entrada : (ℕ → ℕ) → ℕ → Dir
leer_entrada disk a =
    let d = leer_cabecera disk a in record d { d_name = leer d.d_name_len (a + 8) disk }

-- Where a byte of a block stands.
abbrev pub lugar_en_bloque : Superblock → ℕ → ℕ → ℕ
lugar_en_bloque sb bloque offset = (comienzo_bloque sb bloque + offset) % 2 ^ 32

-- The loop of `Dir_listar` over a block, in at most `n` rounds; an entry of the inode 0 was removed.
unfoldable pub entradas_loop : ℕ → Volumen → ℕ → ℕ → Option (List Dir)
entradas_loop zero v bloque offset = if ltb offset (block_size v.sb) then none else some []
entradas_loop (suc n) v bloque offset =
    let d = leer_entrada v.disk (lugar_en_bloque v.sb bloque offset) in
    let rest = entradas_loop n v bloque ((offset + d.d_rec_len) % 2 ^ 32) in
    let here = (do ds ← rest; some (if d.d_inode == 0 then ds else d ∷ ds)) in
    if ltb offset (block_size v.sb) then here else some []

-- The loop of `Dir_listar` over the blocks, on the number of blocks from `i` on.
unfoldable pub listar_loop : ℕ → ℕ → Volumen → List ℕ → Option (List Dir)
unfolding entradas_loop
listar_loop zero i v inodo = some []
listar_loop (suc n) i v inodo = do
  bloque ← leer_bloque v.disk i inodo (block_size v.sb)
  ds ← entradas_loop (block_size v.sb) v bloque 0
  rest ← listar_loop n (i + 1) v inodo
  some (ds ++ rest)

-- `Dir_listar`.
unfoldable pub listar : Volumen → ℕ → Option (List Dir)
listar v nro_inodo = do
  inodo ← leer_inodo v nro_inodo
  tam ← i_size inodo
  listar_loop (cant_bloques v tam) 0 v inodo

-- `Dir_cantDirectorios`.
unfoldable pub cant_directorios : Volumen → List ℕ → Option ℕ
cant_directorios v inodo = do
  tam ← i_size inodo
  ds ← listar_loop (cant_bloques v tam) 0 v inodo
  some (length ds)

-- `strcmp` of two strings that end at their first zero byte, or where the list ends.
abbrev pub mismo_nombre : List ℕ → List ℕ → Bool
mismo_nombre [] [] = true
mismo_nombre [] (c ∷ t) = c == 0
mismo_nombre (b ∷ s) [] = b == 0
mismo_nombre (b ∷ s) (c ∷ t) =
    let rest = mismo_nombre s t in if b == c then (if b == 0 then true else rest) else false

-- `buscarNombreEnLista`; 0 is no inode.
abbrev pub buscar_nombre_en_lista : List Dir → List ℕ → ℕ
buscar_nombre_en_lista [] archivo = 0
buscar_nombre_en_lista (d ∷ ds) archivo =
    let rest = buscar_nombre_en_lista ds archivo in
    if mismo_nombre d.d_name archivo then d.d_inode else rest

-- `strtok_r` with "/": the parts of a path that are not empty.
abbrev pub agregar : List ℕ → List (List ℕ) → List (List ℕ)
agregar [] ts = ts
agregar (b ∷ t) ts = (b ∷ t) ∷ ts

abbrev pub partes_desde : List ℕ → List ℕ → List (List ℕ)
partes_desde t [] = agregar t []
partes_desde t (c ∷ path) =
    let fin = partes_desde [] path in
    let sigue = partes_desde (t ++ c ∷ []) path in if c == 47 then agregar t fin else sigue

abbrev pub partes : List ℕ → List (List ℕ)
partes path = partes_desde [] path

-- The loop of `Dir_buscarPath` from an inode on.
unfoldable pub caminar : Volumen → List (List ℕ) → ℕ → Option ℕ
caminar v [] nro_inodo = some nro_inodo
caminar v (archivo ∷ ts) nro_inodo =
    let paso = (do ds ← listar v nro_inodo; caminar v ts (buscar_nombre_en_lista ds archivo)) in
    if nro_inodo == 0 then some 0 else paso

-- `Dir_buscarPath`, from the root.
unfoldable pub buscar_path : Volumen → List ℕ → Option ℕ
unfolding caminar
buscar_path v path = caminar v (partes path) 2
