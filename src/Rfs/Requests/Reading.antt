-- ===== src/Rfs/Requests/Reading.antt =====
-- What the handler of rfs/Rfs.c answers to a request to read.
use tpso_yanero_los_grosos.Base.{
  ℕ, ◌+◌, ◌-◌, ◌*◌, ◌/◌, ◌%◌, ◌^◌, ◌<◌, ◌≤◌, ◌≡◌, ap, sym, ◌∙◌, ◌≢◌, true, false, List, none, some,
  arith, ltb, leb, ◌==◌, if◌then◌else◌, take, drop,
}
use tpso_yanero_los_grosos.Rfs.Disk.{Volumen, resta, block_size}
use tpso_yanero_los_grosos.Rfs.Inode.{leer_inodo}
use tpso_yanero_los_grosos.Rfs.Inode.Blocks.{i_size, cant_bloques}
use tpso_yanero_los_grosos.Rfs.Dir.{buscar_path}
use tpso_yanero_los_grosos.Rfs.Files.{Cache, leer_archivo}
use tpso_yanero_los_grosos.Rfs.Files.Reading.{contenido, IsCoherent, leer_archivo_lem}
use tpso_yanero_los_grosos.Rfs.Requests.{leido, procesar_read}

module _ {C : Type 0} (cache : Cache C) where
  read_found :
      (c c' : C) (v : Volumen) (path inodo datos : List ℕ) (nro offset size tam cant : ℕ)
      → buscar_path v path ≡ some nro
      → (nro == 0) ≡ false
      → leer_inodo v nro ≡ some inodo
      → i_size inodo ≡ some tam
      → (if ltb tam ((offset + size) % 2 ^ 32) then resta 32 tam offset else size) ≡ cant
      → leer_archivo cache c v inodo offset cant ≡ some (datos, c')
      → procesar_read cache c v path offset size
        ≡ (if ltb cant (2 ^ 16) then some (leido datos, c') else none)
  unfolding procesar_read
  read_found c c' v path inodo datos nro offset size tam cant e₁ e₂ e₃ e₄ e₅ e₆ =
      rw (e₁, e₂, e₃, e₄, e₅, e₆)

  -- Where the path has an inode whose blocks are there, from the offset on and as many as needed, and
  -- the cache agrees with the disk, the offset and the size stay below 2^32, the offset is in the file,
  -- and the bytes up to the size or the end of the file reach no further than as many whole blocks
  -- as their number needs, the handler of read sends those bytes of the disk if there are fewer than 2^16, and
  -- otherwise reads past the end of its packet.
  pub procesar_read_lem :
      (c : C) (v : Volumen) (path inodo bs : List ℕ) (nro offset size tam cant : ℕ)
      → buscar_path v path ≡ some nro
      → nro ≢ 0
      → leer_inodo v nro ≡ some inodo
      → i_size inodo ≡ some tam
      → offset + size < 2 ^ 32
      → offset ≤ tam
      → tam < 2 ^ 32
      → cant ≡ (if ltb tam (offset + size) then tam - offset else size)
      → IsCoherent cache c v
      → contenido (cant_bloques v cant) (offset / block_size v.sb) v inodo ≡ some bs
      → offset % block_size v.sb + cant ≤ cant_bloques v cant * block_size v.sb
      → (c' : C) × (procesar_read cache c v path offset size ≡ (
          if ltb cant (2 ^ 16)
          then some (leido (take cant (drop (offset % block_size v.sb) bs)), c')
          else none))
        × IsCoherent cache c' v
  procesar_read_lem c v path inodo bs nro offset size tam cant e₁ ne e₃ e₄ small le small' e₅ co
        there inside =
      let (c', read, co') = leer_archivo_lem cache c v inodo bs offset cant co there in
      let test : leb (offset % block_size v.sb + cant) (cant_bloques v cant * block_size v.sb)
          ≡ true =
        ground (arith, inside) in
      let whole = rw test at read in
      let same : (offset + size) % 2 ^ 32 ≡ offset + size = omega (arith, small) in
      let sub : resta 32 tam offset ≡ tam - offset = omega (arith, le, small') in
      let cut : (if ltb tam ((offset + size) % 2 ^ 32) then resta 32 tam offset else size) ≡ cant =
        ap (λ x. if ltb tam x then resta 32 tam offset else size) same
        ∙ ap (λ x. if ltb tam (offset + size) then x else size) sub
        ∙ sym e₅ in
      (
        c',
        read_found c c' v path inodo (take cant (drop (offset % block_size v.sb) bs)) nro offset
            size tam cant e₁ (ground (arith, ne)) e₃ e₄ cut whole,
        co',
      )
