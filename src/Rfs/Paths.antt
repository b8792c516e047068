-- ===== src/Rfs/Paths.antt =====
-- `separarPath` of rfs/Rfs.c and `separarPathCliente` of fsc/auxCliente.c, which are the same, and the
-- lookup of a path in two parts.
pub mod Parents
use tpso_yanero_los_grosos.Base.{
  ℕ, zero, suc, ◌+◌, ◌%◌, ◌^◌, ◌<◌, ◌≤◌, ◌≡◌, refl, ap, sym, ◌∙◌, ◌≢◌, subst, true, false, List, [],
  ◌∷◌, ◌++◌, Option, none, some, inl, inr, arith, Bool-cases, ◌>>=◌, ◌==◌, if◌then◌else◌, length,
  length-append, get_elem?, take, drop, take-length-append, drop-length-append,
}
use tpso_yanero_los_grosos.Rfs.Disk.{Volumen}
use tpso_yanero_los_grosos.Rfs.Dir.{
  agregar, partes_desde, partes, caminar, buscar_path, listar, buscar_nombre_en_lista,
}

-- `PathSeparado`.
pub record PathSeparado : Type 0 where
  pub path_dir : List ℕ
  pub nombre_arch : List ℕ

-- The loop of `separarPath`, down from `i`; without a "/" it leaves the string.
abbrev pub barra : ℕ → List ℕ → Option ℕ
barra zero path = do c ← get_elem? path 0; if c == 47 then some 0 else none
barra (suc i) path =
    let rest = barra i path in do c ← get_elem? path (suc i); if c == 47 then some (suc i) else rest

-- `separarPath`: the length is kept in 16 bits.
unfoldable pub separar_path : List ℕ → Option PathSeparado
separar_path path = do
  i ← barra (length path % 2 ^ 16) (path ++ 0 ∷ [])
  let dir = (if i == 0 then 47 ∷ [] else take i path)
  some (record { path_dir = dir; nombre_arch = drop (i + 1) path })

abbrev pub LacksSlash : List ℕ → Type 0
LacksSlash [] = Unit
LacksSlash (c ∷ s) = (c ≢ 47) × LacksSlash s

barra-here : (i : ℕ) (path : List ℕ) → get_elem? path i ≡ some 47 → barra i path ≡ some i
barra-here zero path e = rw e
barra-here (suc i) path e = rw e

barra-next :
    (i c : ℕ) (path : List ℕ)
    → get_elem? path (suc i) ≡ some c
    → c ≢ 47
    → barra (suc i) path ≡ barra i path
barra-next i c path e ne = let test : (c == 47) ≡ false = ground (arith, ne) in rw (e, test)

get_elem?-append_add : (s t : List ℕ) (k : ℕ) → get_elem? (s ++ t) (length s + k) ≡ get_elem? t k
get_elem?-append_add [] t k = ap (get_elem? t) (omega arith)
get_elem?-append_add (c ∷ s) t k =
    let next : length (c ∷ s) + k ≡ suc (length s + k) = omega arith in
    rw next (get_elem?-append_add s t k)

get_elem?-LacksSlash :
    (s : List ℕ) (k : ℕ)
    → LacksSlash s
    → k < length s
    → (c : ℕ) × (get_elem? s k ≡ some c) × (c ≢ 47)
get_elem?-LacksSlash [] k h lt = absurd (omega (arith, lt))
get_elem?-LacksSlash (c ∷ s) zero h lt = (c, refl, h.0)
get_elem?-LacksSlash (c ∷ s) (suc k) h lt = get_elem?-LacksSlash s k h.1 (omega (arith, lt))

barra_lem :
    (k : ℕ) (dir s : List ℕ)
    → LacksSlash s
    → k ≤ length s
    → barra (length dir + k) (dir ++ 47 ∷ s) ≡ some (length dir)
barra_lem zero dir s h le =
    ap (λ i. barra i (dir ++ 47 ∷ s)) (omega arith)
    ∙ barra-here (length dir) (dir ++ 47 ∷ s)
        (ap (get_elem? (dir ++ 47 ∷ s)) (omega arith) ∙ get_elem?-append_add dir (47 ∷ s) 0)
barra_lem (suc k) dir s h le =
    let (c, e, ne) = get_elem?-LacksSlash s k h (omega (arith, le)) in
    let next : length dir + suc k ≡ suc (length dir + k) = omega arith in
    ap (λ i. barra i (dir ++ 47 ∷ s)) next
    ∙ barra-next (length dir + k) c (dir ++ 47 ∷ s)
        (ap (get_elem? (dir ++ 47 ∷ s)) (sym next) ∙ get_elem?-append_add dir (47 ∷ s) (suc k) ∙ e)
        ne
    ∙ barra_lem k dir s h (omega (arith, le))

LacksSlash-end : (s : List ℕ) → LacksSlash s → LacksSlash (s ++ 0 ∷ [])
LacksSlash-end [] h = ((λ e. omega (arith, e)), tt)
LacksSlash-end (c ∷ s) h = (h.0, LacksSlash-end s h.1)

append_assoc : (s t u : List ℕ) → (s ++ t) ++ u ≡ s ++ (t ++ u)
append_assoc [] t u = refl
append_assoc (c ∷ s) t u = ap (◌∷◌ c) (append_assoc s t u)

drop-past : (s t : List ℕ) (c : ℕ) → drop (length s + 1) (s ++ c ∷ t) ≡ t
drop-past [] t c = refl
drop-past (b ∷ s) t c =
    let next : length (b ∷ s) + 1 ≡ suc (length s + 1) = omega arith in rw next (drop-past s t c)

separar_at :
    (path : List ℕ) (i : ℕ)
    → barra (length path % 2 ^ 16) (path ++ 0 ∷ []) ≡ some i
    → separar_path path
      ≡ some (record {
        path_dir = if i == 0 then 47 ∷ [] else take i path;
        nombre_arch = drop (i + 1) path;
      })
unfolding separar_path
separar_at path i e = rw e

abbrev pub separado : List ℕ → List ℕ → PathSeparado
separado dir nombre = record { path_dir = dir; nombre_arch = nombre }

-- The directory of a path, which is "/" where nothing stands before its last "/".
abbrev pub dir_de : List ℕ → List ℕ
dir_de [] = 47 ∷ []
dir_de (c ∷ s) = c ∷ s

pub separar_path_lem :
    (dir nombre : List ℕ)
    → LacksSlash nombre
    → length (dir ++ 47 ∷ nombre) < 2 ^ 16
    → separar_path (dir ++ 47 ∷ nombre) ≡ some (separado (dir_de dir) nombre)
separar_path_lem dir nombre h short =
    let path = dir ++ 47 ∷ nombre in
    let size : length path % 2 ^ 16 ≡ length dir + length (nombre ++ 0 ∷ []) =
      omega (arith, short, length-append dir (47 ∷ nombre), length-append nombre (0 ∷ [])) in
    let found : barra (length path % 2 ^ 16) (path ++ 0 ∷ []) ≡ some (length dir) =
      ap (barra (length path % 2 ^ 16)) (append_assoc dir (47 ∷ nombre) (0 ∷ []))
      ∙ ap (λ i. barra i (dir ++ 47 ∷ (nombre ++ 0 ∷ []))) size
      ∙ barra_lem (length (nombre ++ 0 ∷ [])) dir (nombre ++ 0 ∷ []) (LacksSlash-end nombre h)
          (omega arith) in
    separar_at path (length dir) found ∙ cut dir
  where
    cut :
        (dir : List ℕ)
        → some (
            separado
              (if length dir == 0 then 47 ∷ [] else take (length dir) (dir ++ 47 ∷ nombre))
              (drop (length dir + 1) (dir ++ 47 ∷ nombre)))
          ≡ some (separado (dir_de dir) nombre)
    cut [] = refl
    cut (c ∷ s) =
        let test : (length (c ∷ s) == 0) ≡ false = ground arith in
        rw (test, drop-past (c ∷ s) nombre 47, take-length-append (c ∷ s) (47 ∷ nombre))
