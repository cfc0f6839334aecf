-- ===== src/Earlier/Outline/Agreement.antt =====
-- Patrullas.c and Fronteras.c: the outline and the listing of one directory.
use antibawirus.Common.{
  ℕ, ◌+◌, ◌≤◌, ◌<◌, ◌≡◌, refl, sym, ap, ◌∙◌, subst, true, false, List, [], ◌∷◌, ◌++◌, some, none,
  arith, length, take-short,
}
use antibawirus.Common.Text.{Text}
use antibawirus.Common.Exec.{ok}
use antibawirus.Patrol.Files.{extension, nombre_sin_extension}
use antibawirus.Patrol.Listing.{
  Disk, nested, Stat, is_dir, Lista, listar_archivos, info, fullpath as long_path,
}
use antibawirus.Patrol.Listing.Walk.{
  depth, flatten, listar_archivos-flatten, nil, dots, gone, plain, locked, opened, Tree as Holding,
  Shows as Holds,
}
use antibawirus.Earlier.Outline.{Line, item, cannot_open, fullpath, opens, list_files}
use antibawirus.Earlier.Outline.Walk.{
  Tree, Shows, height, outline, list_files-outline, end as no_more, leaf, branch,
  locked as locked_in, nil as nil_in, dots as dots_in, plain as plain_in, shut, opened as opened_in,
}

-- The paths of the two programs agree as long as they fit into the smaller buffer.
same_path :
    (path name : Text)
    → length (path ++ b'/' ∷ name) ≤ 1023
    → fullpath path name ≡ long_path path name
unfolding fullpath long_path
same_path path name fits =
    take-short 1023 (path ++ b'/' ∷ name) fits
    ∙ sym (take-short 2047 (path ++ b'/' ∷ name) (omega (arith, fits)))

-- Nothing is gone of what the directories list, and every path fits into the smaller buffer.
unfoldable pub IsWhole :
    {disk : Disk} {path : Text} {names : List Text} {t : Holding} → Holds disk path names t → Type 0
IsWhole nil = Unit
IsWhole (dots d s) = IsWhole s
IsWhole (gone d e s) = ⊥
IsWhole (plain {path = p} {name = n} d e f s) = (length (p ++ b'/' ∷ n) ≤ 1023) × IsWhole s
IsWhole (locked {path = p} {name = n} d e f o s) = (length (p ++ b'/' ∷ n) ≤ 1023) × IsWhole s
IsWhole (opened {path = p} {name = n} d e f o sub s) =
    (length (p ++ b'/' ∷ n) ≤ 1023) × IsWhole sub × IsWhole s

-- The two parts of the name of each entry, of an outline and of a list of files.
abbrev pub parts : Text → Text × Text
parts n = (nombre_sin_extension n, extension n)

abbrev pub outlined : List Line → List (Text × Text)
outlined [] = []
outlined (item d n ∷ ls) = parts n ∷ outlined ls
outlined (cannot_open ∷ ls) = outlined ls

abbrev pub listed : Lista → List (Text × Text)
listed [] = []
listed (f ∷ fs) = (f.nombre, f.extension) ∷ listed fs

outlined-append : (xs ys : List Line) → outlined (xs ++ ys) ≡ outlined xs ++ outlined ys
outlined-append [] ys = refl
outlined-append (item d n ∷ xs) ys = ap (λ r. parts n ∷ r) (outlined-append xs ys)
outlined-append (cannot_open ∷ xs) ys = outlined-append xs ys

listed-append : (xs ys : Lista) → listed (xs ++ ys) ≡ listed xs ++ listed ys
listed-append [] ys = refl
listed-append (x ∷ xs) ys = ap (λ r. (x.nombre, x.extension) ∷ r) (listed-append xs ys)

opens-found :
    (disk : Disk) (full : Text) {st : Stat}
    → disk.stat full ≡ some st
    → opens disk full ≡ is_dir st.st_mode
unfolding opens
opens-found disk full e = rw (opens, e) refl

-- What the directory holds for the earlier program.
Agrees : Disk → Text → List Text → Holding → Type 0
Agrees disk path names t =
    (u : Tree) × Shows disk path names u
    × (height u ≤ depth t)
    × ((d : ℕ) → outlined (outline d u) ≡ listed (flatten path t))

Holds-Agrees :
    (disk : Disk) {path : Text} {names : List Text} {t : Holding} (s : Holds disk path names t)
    → IsWhole s
    → Agrees disk path names t
unfolding IsWhole Agrees height depth outline flatten opens info
Holds-Agrees disk nil w = (no_more, nil_in, omega arith, λ d. refl)
Holds-Agrees disk (dots d s) w =
    let (u, shows, high, same) = Holds-Agrees disk s w in (u, dots_in d shows, high, same)
Holds-Agrees disk (gone d e s) w = absurd w
Holds-Agrees disk (plain {path = p} {name = n} d e f s) (fits, w) =
    let (u, shows, high, same) = Holds-Agrees disk s w in
    let closed : opens disk (fullpath p n) ≡ false =
      ap (opens disk) (same_path p n fits) ∙ opens-found disk (long_path p n) e ∙ f in
    (leaf n u, plain_in d closed shows, high, λ i. ap (λ r. parts n ∷ r) (same i))
Holds-Agrees disk (locked {path = p} {name = n} d e f o s) (fits, w) =
    let (u, shows, high, same) = Holds-Agrees disk s w in
    let open_dir : opens disk (fullpath p n) ≡ true =
      ap (opens disk) (same_path p n fits) ∙ opens-found disk (long_path p n) e ∙ f in
    let refused : disk.opendir 1 (fullpath p n) ≡ none =
      ap (disk.opendir 1) (same_path p n fits) ∙ o in
    (
      locked_in n u,
      shut d open_dir refused shows,
      omega (arith, high),
      λ i. ap (λ r. parts n ∷ r) (same i),
    )
Holds-Agrees disk
      (opened {path = p} {name = n} {subs = subs} {t = rest} {sub = within} d e f o sub s)
      (fits, v, w) =
    let (below, inside, low, same_sub) = Holds-Agrees (nested disk) sub v in
    let (u, shows, high, same) = Holds-Agrees disk s w in
    let path = same_path p n fits in
    let open_dir : opens disk (fullpath p n) ≡ true =
      ap (opens disk) path ∙ opens-found disk (long_path p n) e ∙ f in
    (
      branch n below u,
      opened_in d open_dir (ap (disk.opendir 1) path ∙ o)
          (subst (λ q. Shows (nested disk) q subs below) (sym path) inside) shows,
      omega (arith, low, high),
      λ i.
          ap (λ r. parts n ∷ r)
            (outlined-append (outline (i + 1) below) (outline i u)
              ∙ ap (λ r. r ++ outlined (outline i u)) (same_sub (i + 1))
              ∙ ap (λ r. listed (flatten (long_path p n) within) ++ r) (same i)
              ∙ sym (listed-append (flatten (long_path p n) within) (flatten p rest))),
    )

-- Below a directory of which nothing is gone, and whose paths all fit into 1023 bytes, both programs
-- end, given fuel above the depth of the tree, and the earlier one prints in its outline the names
-- of just the files that the patrol lists, in the same order.
pub list_files-listar_archivos :
    (disk : Disk) (fuel : ℕ) (path : Text) (names : List Text) (t : Holding) (depth_shown : ℕ)
    → disk.opendir 0 path ≡ some names
    → (s : Holds disk path names t) → IsWhole s
    → depth t < fuel
    → (lines : List Line) × (lista : Lista) × (list_files disk fuel path depth_shown ≡ ok lines)
      × (listar_archivos disk fuel path [] ≡ ok lista)
      × (outlined lines ≡ listed lista)
unfolding Agrees
list_files-listar_archivos disk fuel path names t depth_shown o s w deep =
    let (u, shows, high, same) = Holds-Agrees disk s w in
    (
      outline depth_shown u,
      flatten path t,
      list_files-outline disk fuel path names u depth_shown o shows (omega (arith, high, deep)),
      listar_archivos-flatten disk fuel path names t [] o s deep,
      same depth_shown,
    )
