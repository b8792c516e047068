-- ===== src/Rfs/Requests/Directories.antt =====
-- The handlers of rfs/Rfs.c that make and remove directories; they count the directories of a group
-- in the table of groups, at the group `nroInodo / s_inodes_per_group`.
use tpso_yanero_los_grosos.Base.{
  ℕ, ◌-◌, ◌^◌, ◌&&◌, ◌||◌, not, List, [], ◌∷◌, Option, some, ◌>>=◌, ◌==◌, if◌then◌else◌, get_elem?,
  set,
}
use tpso_yanero_los_grosos.Nipc.Bytes.{read_le}
use tpso_yanero_los_grosos.Rfs.Disk.{Volumen, incremento, decremento, div?}
use tpso_yanero_los_grosos.Rfs.Bitmap.{Bitarray}
use tpso_yanero_los_grosos.Rfs.Groups.{menos_uno, liberar_inodo_en_bitmap}
use tpso_yanero_los_grosos.Rfs.Inode.{leer_inodo, escribir_inodo, asignar_inodo, con_campo}
use tpso_yanero_los_grosos.Rfs.Inode.Blocks.{error}
use tpso_yanero_los_grosos.Rfs.Inode.Release.{truncar_abajo}
use tpso_yanero_los_grosos.Rfs.Dir.{cant_directorios, buscar_path}
use tpso_yanero_los_grosos.Rfs.Dir.Creation.{crear_nueva_entrada}
use tpso_yanero_los_grosos.Rfs.Dir.Deletion.{borrar_entrada}
use tpso_yanero_los_grosos.Rfs.Paths.{separar_path}
use tpso_yanero_los_grosos.Rfs.Requests.{
  Envio, sin_archivo, resultado, menos_enospc, devolver_inodo,
}

-- `-ENOTEMPTY` and `-ENOENT` as an `int`.
abbrev menos_enotempty : ℕ
menos_enotempty = 2 ^ 32 - 39

abbrev menos_enoent : ℕ
menos_enoent = 2 ^ 32 - 2

-- The links of an inode, one more or one less in 16 bits.
abbrev contar_links : (ℕ → ℕ → ℕ) → Volumen → ℕ → Option Volumen
contar_links f v nro_inodo = do
  inodo ← leer_inodo v nro_inodo
  i_links_count ← read_le 26 2 inodo
  escribir_inodo v nro_inodo (con_campo 26 (f 16 i_links_count) inodo)

-- The directories of a group.
abbrev contar_dirs : (ℕ → ℕ → ℕ) → Volumen → ℕ → Option Volumen
contar_dirs f v nro_inodo = do
  nro_grupo ← div? nro_inodo v.sb.s_inodes_per_group
  d ← get_elem? v.bgdt nro_grupo
  some (record v {
    bgdt = set v.bgdt nro_grupo (record d { bg_used_dirs_count = f 16 d.bg_used_dirs_count });
  })

module _ (bits : Bitarray) where
  -- What follows the entry of a new directory: its own two entries, and the counts.
  abbrev completar_dir : Volumen → ℕ → ℕ → Option Volumen
  completar_dir v creado nro_inodo_dir = do
    (_, v₁) ← crear_nueva_entrada bits v (46 ∷ []) creado creado
    (_, v₂) ← crear_nueva_entrada bits v₁ (46 ∷ 46 ∷ []) creado nro_inodo_dir
    v₃ ← contar_links incremento v₂ nro_inodo_dir
    contar_dirs incremento v₃ nro_inodo_dir

  -- `procesarMkdir`: `S_IFDIR | 0755` is 16877.
  unfoldable pub procesar_mkdir : Volumen → List ℕ → Option (Envio × Volumen)
  procesar_mkdir v path = do
    paths ← separar_path path
    (creado, v₁) ← asignar_inodo bits v 16877 2
    let crear = (do
      nro_inodo_dir ← buscar_path v₁ paths.path_dir
      let en_el_dir = (do
        nro_inodo ← buscar_path v₁ path
        (r, v₂) ← crear_nueva_entrada bits v₁ paths.nombre_arch nro_inodo_dir creado
        v₃ ←
            (if (r == error) && (nro_inodo == 0)
              then some v₂
              else completar_dir v₂ creado nro_inodo_dir)
        (if not (nro_inodo == 0) || (r == error)
            then devolver_inodo bits v₃ creado
            else some (resultado 0, v₃)))
      if nro_inodo_dir == 0 then devolver_inodo bits v₁ creado else en_el_dir)
    if creado == menos_uno then some (resultado menos_enospc, v₁) else crear

  -- `procesarRmdir`: only a directory with two entries goes.
  unfoldable pub procesar_rmdir : Volumen → List ℕ → Option (Envio × Volumen)
  procesar_rmdir v path = do
    paths ← separar_path path
    nro_inodo_arch ← buscar_path v path
    nro_inodo_dir ← buscar_path v paths.path_dir
    let borrar = (do
      inodo ← leer_inodo v nro_inodo_arch
      i_mode ← read_le 0 2 inodo
      cant ← cant_directorios v inodo
      let quitar = (do
        (r, v₁) ← borrar_entrada v nro_inodo_dir nro_inodo_arch
        (v₂, inodo₂) ← truncar_abajo bits 0 v₁ inodo
        v₃ ← liberar_inodo_en_bitmap bits v₂ nro_inodo_arch
        v₄ ← escribir_inodo v₃ nro_inodo_arch (con_campo 0 0 (con_campo 26 0 inodo₂))
        v₅ ← contar_links decremento v₄ nro_inodo_dir
        v₆ ← contar_dirs decremento v₅ nro_inodo_arch
        some (resultado 0, v₆))
      let queda = (if i_mode == 0 then menos_enoent else menos_enotempty)
      if cant == 2 then quitar else some (resultado queda, v))
    if not (nro_inodo_arch == 0) && not (nro_inodo_dir == 0) then borrar else some (sin_archivo, v)
