-- ===== src/Rfs/Paths/Parents.antt =====
-- The lookup of a path through the directory that `separarPath` gives.
use tpso_yanero_los_grosos.Base.{
  append-nil, ℕ, ◌^◌, ◌<◌, ◌≡◌, refl, ap, sym, ◌∙◌, false, List, [], ◌∷◌, ◌++◌, Option, none, some,
  inl, inr, arith, Bool-cases, ◌>>=◌, ◌==◌, if◌then◌else◌, length,
}
use tpso_yanero_los_grosos.Rfs.Disk.{Volumen}
use tpso_yanero_los_grosos.Rfs.Dir.{
  Dir, agregar, partes_desde, partes, caminar, buscar_path, listar, buscar_nombre_en_lista,
}
use tpso_yanero_los_grosos.Rfs.Paths.{separar_path, separado, dir_de, LacksSlash, separar_path_lem}

agregar-append : (t : List ℕ) (us ws : List (List ℕ)) → agregar t (us ++ ws) ≡ agregar t us ++ ws
agregar-append [] us ws = refl
agregar-append (b ∷ t) us ws = refl

-- The parts of a path are those before a "/" and those behind it.
partes-append : (t dir s : List ℕ) → partes_desde t (dir ++ 47 ∷ s) ≡ partes_desde t dir ++ partes s
partes-append t [] s = agregar-append t [] (partes s)
partes-append t (c ∷ dir) s = elim (Bool-cases (c == 47)) [
  | inl z ↦
      rw z (
        ap (agregar t) (partes-append [] dir s) ∙ agregar-append t (partes_desde [] dir) (partes s))
  | inr z ↦ rw z (partes-append (t ++ c ∷ []) dir s)
]

append-one : (t s : List ℕ) (c : ℕ) → (t ++ c ∷ []) ++ s ≡ t ++ c ∷ s
append-one [] s c = refl
append-one (b ∷ t) s c = ap (◌∷◌ b) (append-one t s c)

-- A name without "/" is one part.
partes-name : (t s : List ℕ) → LacksSlash s → partes_desde t s ≡ agregar (t ++ s) []
partes-name t [] h = ap (λ x. agregar x []) (sym (append-nil t))
partes-name t (c ∷ s) h =
    let test : (c == 47) ≡ false = ground (arith, h.0) in
    rw test (partes-name (t ++ c ∷ []) s h.1 ∙ ap (λ x. agregar x []) (append-one t s c))

partes-dir_de : (dir : List ℕ) → partes (dir_de dir) ≡ partes dir
partes-dir_de [] = refl
partes-dir_de (c ∷ s) = refl

-- A name looked up in an inode.
abbrev pub buscar_en : Volumen → List ℕ → ℕ → Option ℕ
buscar_en v nombre nro_inodo =
    let paso = (do ds ← listar v nro_inodo; some (buscar_nombre_en_lista ds nombre)) in
    if nro_inodo == 0 then some 0 else paso

caminar-one :
    (v : Volumen) (nombre : List ℕ) (nro : ℕ) → caminar v (nombre ∷ []) nro ≡ buscar_en v nombre nro
unfolding caminar
caminar-one v nombre nro = refl

bind_assoc :
    (m : Option (List Dir)) (f : List Dir → Option ℕ) (g : ℕ → Option ℕ)
    → (do ds ← m; (do n ← f ds; g n)) ≡ (do n ← (do ds ← m; f ds); g n)
bind_assoc none f g = refl
bind_assoc (some ds) f g = refl

bind-ext :
    (m : Option (List Dir)) (f g : List Dir → Option ℕ)
    → ((ds : List Dir) → f ds ≡ g ds)
    → (do ds ← m; f ds) ≡ (do ds ← m; g ds)
bind-ext none f g h = refl
bind-ext (some ds) f g h = h ds

caminar-append :
    (v : Volumen) (ts : List (List ℕ)) (nombre : List ℕ) (nro : ℕ)
    → caminar v (ts ++ nombre ∷ []) nro ≡ (do n ← caminar v ts nro; buscar_en v nombre n)
unfolding caminar
caminar-append v [] nombre nro = refl
caminar-append v (t ∷ ts) nombre nro = elim (Bool-cases (nro == 0)) [
  | inl z ↦ rw z
  | inr z ↦ rw z (
      bind-ext (listar v nro) (λ ds. caminar v (ts ++ nombre ∷ []) (buscar_nombre_en_lista ds t))
        (λ ds. (do n ← caminar v ts (buscar_nombre_en_lista ds t); buscar_en v nombre n))
        (λ ds. caminar-append v ts nombre (buscar_nombre_en_lista ds t))
      ∙ bind_assoc (listar v nro) (λ ds. caminar v ts (buscar_nombre_en_lista ds t))
          (buscar_en v nombre))
]

-- Of a path of less than 2^16 bytes that ends in a name without "/", which is not empty, separarPath
-- gives the name and the path before its "/", or "/" where that is empty; and Dir_buscarPath finds
-- for the whole path what the listing of that directory has for the name, 0 where there is no such
-- directory.
pub buscar_path-separar_path :
    (v : Volumen) (dir s : List ℕ) (c : ℕ)
    → LacksSlash (c ∷ s)
    → length (dir ++ 47 ∷ c ∷ s) < 2 ^ 16
    → (separar_path (dir ++ 47 ∷ c ∷ s) ≡ some (separado (dir_de dir) (c ∷ s)))
      × (buscar_path v (dir ++ 47 ∷ c ∷ s)
          ≡ (do n ← buscar_path v (dir_de dir); buscar_en v (c ∷ s) n))
unfolding buscar_path
buscar_path-separar_path v dir s c h short =
    let parts : partes (dir ++ 47 ∷ c ∷ s) ≡ partes (dir_de dir) ++ (c ∷ s) ∷ [] =
      partes-append [] dir (c ∷ s)
      ∙ ap (λ x. partes dir ++ x) (partes-name [] (c ∷ s) h)
      ∙ ap (λ x. x ++ (c ∷ s) ∷ []) (sym (partes-dir_de dir)) in
    (
      separar_path_lem dir (c ∷ s) h short,
      ap (λ ts. caminar v ts 2) parts ∙ caminar-append v (partes (dir_de dir)) (c ∷ s) 2,
    )
