-- ===== src/Rfs/Requests.antt =====
-- The handlers of rfs/Rfs.c: what each request does to the volume and what it answers. A handler is
-- one step here, as its locks (Rfs/Locks) keep others from the inodes that it uses; the copies of the
-- superblock and of the table of groups that some handlers write at their end are never read again.
pub mod Reading
pub mod Directories
use tpso_yanero_los_grosos.Base.{
  ℕ, ◌+◌, ◌-◌, ◌%◌, ◌^◌, Bool, true, false, ◌&&◌, ◌||◌, not, List, [], ◌∷◌, Option, none, some,
  ◌>>=◌, ltb, ◌==◌, if◌then◌else◌,
}
use tpso_yanero_los_grosos.Nipc.Bytes.{read_le}
use tpso_yanero_los_grosos.Rfs.Disk.{Volumen, resta}
use tpso_yanero_los_grosos.Rfs.Bitmap.{Bitarray}
use tpso_yanero_los_grosos.Rfs.Groups.{menos_uno, liberar_inodo_en_bitmap}
use tpso_yanero_los_grosos.Rfs.Inode.{leer_inodo, escribir_inodo, asignar_inodo, con_campo}
use tpso_yanero_los_grosos.Rfs.Inode.Blocks.{i_size, error}
use tpso_yanero_los_grosos.Rfs.Inode.Release.{truncar_abajo}
use tpso_yanero_los_grosos.Rfs.Inode.Assignment.{truncar_arriba}
use tpso_yanero_los_grosos.Rfs.Dir.{Dir, listar, buscar_path}
use tpso_yanero_los_grosos.Rfs.Dir.Creation.{crear_nueva_entrada}
use tpso_yanero_los_grosos.Rfs.Dir.Deletion.{borrar_entrada}
use tpso_yanero_los_grosos.Rfs.Files.{Cache, leer_archivo, escribir_archivo}
use tpso_yanero_los_grosos.Rfs.Paths.{PathSeparado, separar_path}

-- What a handler sends: `procesarError`, or the answer of its request.
pub data Envio : Type 0 where
  sin_archivo : Envio
  resultado : ℕ → Envio
  directorio : List Dir → Envio
  atributos : ℕ → ℕ → ℕ → Envio
  leido : List ℕ → Envio
  escrito : ℕ → Envio

-- `-ENOSPC` as an `int`.
abbrev pub menos_enospc : ℕ
menos_enospc = 2 ^ 32 - 28

-- `procesarReaddir`.
unfoldable pub procesar_readdir : Volumen → List ℕ → Option Envio
procesar_readdir v path = do
  nro_inodo ← buscar_path v path
  let responder = (do ds ← listar v nro_inodo; some (directorio ds))
  if nro_inodo == 0 then some sin_archivo else responder

-- `procesarGetattr`.
unfoldable pub procesar_getattr : Volumen → List ℕ → Option Envio
procesar_getattr v path = do
  nro_inodo ← buscar_path v path
  let responder = (do
    inodo ← leer_inodo v nro_inodo
    i_mode ← read_le 0 2 inodo
    i_links_count ← read_le 26 2 inodo
    tam ← i_size inodo
    some (atributos i_mode i_links_count tam))
  if nro_inodo == 0 then some sin_archivo else responder

-- `procesarOpen`.
unfoldable pub procesar_open : Volumen → List ℕ → Option Envio
procesar_open v path = do
  nro_inodo ← buscar_path v path
  some (if nro_inodo == 0 then sin_archivo else resultado 0)

-- `procesarRead`: the size is cut at the end of the file, in 32 bits. `serializar_Read_Rta` takes it
-- as a `uint16_t`, so from 2 ^ 16 bytes on the packet is shorter than what `sockets_send` reads of it.
unfoldable pub procesar_read :
    {C : Type 0} → Cache C → C → Volumen → List ℕ → ℕ → ℕ → Option (Envio × C)
procesar_read cache c v path offset size = do
  nro_inodo ← buscar_path v path
  let responder = (do
    inodo ← leer_inodo v nro_inodo
    tam ← i_size inodo
    let cant = (if ltb tam ((offset + size) % 2 ^ 32) then resta 32 tam offset else size)
    (buffread, c') ← leer_archivo cache c v inodo offset cant
    if ltb cant (2 ^ 16) then some (leido buffread, c') else none)
  if nro_inodo == 0 then some (sin_archivo, c) else responder

module _ (bits : Bitarray) where
  -- `procesarTruncate`: up, down, and the inode is written where there was room.
  unfoldable pub procesar_truncate : Volumen → List ℕ → ℕ → Option (Envio × Volumen)
  procesar_truncate v path offset = do
    nro_inodo ← buscar_path v path
    let truncar = (do
      inodo ← leer_inodo v nro_inodo
      tam ← i_size inodo
      (r, v₁, inodo₁) ←
          (if ltb tam offset then truncar_arriba bits offset v inodo else some (0, v, inodo))
      tam₁ ← i_size inodo₁
      (v₂, inodo₂) ←
          (if ltb offset tam₁ then truncar_abajo bits offset v₁ inodo₁ else some (v₁, inodo₁))
      v₃ ← (if r == 0 then escribir_inodo v₂ nro_inodo inodo₂ else some v₂)
      some (resultado (if r == error then menos_uno else r), v₃))
    if nro_inodo == 0 then some (sin_archivo, v) else truncar

  -- `procesarWrite`: the inode is written where the file grew.
  unfoldable pub procesar_write :
      {C : Type 0} → Cache C → C → Volumen → List ℕ → ℕ → ℕ → List ℕ → Option (Envio × C × Volumen)
  procesar_write cache c v path offset size buf = do
    nro_inodo ← buscar_path v path
    let escribir = (do
      inodo ← leer_inodo v nro_inodo
      tam ← i_size inodo
      (cant, c₁, v₁, inodo₁) ← escribir_archivo cache bits c v inodo offset size buf
      v₂ ←
          (if not (cant == menos_uno) && ltb tam ((offset + size) % 2 ^ 32)
            then escribir_inodo v₁ nro_inodo inodo₁
            else some v₁)
      some (escrito (if cant == menos_uno then menos_enospc else cant), c₁, v₂))
    if nro_inodo == 0 then some (sin_archivo, c, v) else escribir

  -- The end of `procesarCreate` where the file is not created: the inode is given back.
  abbrev pub devolver_inodo : Volumen → ℕ → Option (Envio × Volumen)
  devolver_inodo v nro_inodo_creado = do
    v' ← liberar_inodo_en_bitmap bits v nro_inodo_creado
    some (sin_archivo, v')

  -- `procesarCreate`: `S_IFREG | 0444` is 33060. The entry is made also where the path has an inode.
  unfoldable pub procesar_create : Volumen → List ℕ → Option (Envio × Volumen)
  procesar_create v path = do
    paths ← separar_path path
    (creado, v₁) ← asignar_inodo bits v 33060 1
    let crear = (do
      nro_inodo_dir ← buscar_path v₁ paths.path_dir
      let en_el_dir = (do
        nro_inodo ← buscar_path v₁ path
        (r, v₂) ← crear_nueva_entrada bits v₁ paths.nombre_arch nro_inodo_dir creado
        (if not (nro_inodo == 0) || (r == error)
            then devolver_inodo v₂ creado
            else some (resultado 0, v₂)))
      if nro_inodo_dir == 0 then devolver_inodo v₁ creado else en_el_dir)
    if creado == menos_uno then some (resultado menos_enospc, v₁) else crear

  -- `procesarUnlink`: the entry, the blocks and the inode go.
  unfoldable pub procesar_unlink : Volumen → List ℕ → Option (Envio × Volumen)
  procesar_unlink v path = do
    paths ← separar_path path
    nro_inodo_arch ← buscar_path v path
    nro_inodo_dir ← buscar_path v paths.path_dir
    let borrar = (do
      inodo ← leer_inodo v nro_inodo_arch
      i_mode ← read_le 0 2 inodo
      let quitar = (do
        (r, v₁) ← borrar_entrada v nro_inodo_dir nro_inodo_arch
        (v₂, inodo₂) ← truncar_abajo bits 0 v₁ inodo
        v₃ ← liberar_inodo_en_bitmap bits v₂ nro_inodo_arch
        v₄ ← escribir_inodo v₃ nro_inodo_arch (con_campo 0 0 (con_campo 26 0 inodo₂))
        some (resultado 0, v₄))
      if i_mode == 0 then some (sin_archivo, v) else quitar)
    if not (nro_inodo_arch == 0) && not (nro_inodo_dir == 0) then borrar else some (sin_archivo, v)
