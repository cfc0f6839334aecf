-- ===== src/Earlier/Outline/Walk.antt =====
-- Patrullas.c, `list_files`: the tree below a directory, and its outline.
use Prim.Native.Nat.{max}
use antibawirus.Common.{
  ℕ, zero, suc, ◌+◌, ◌≤◌, ◌<◌, ◌≡◌, refl, ◌∙◌, true, false, List, [], ◌∷◌, ◌++◌, none, some, arith,
}
use antibawirus.Common.Text.{Text}
use antibawirus.Common.Exec.{Exec, ok}
use antibawirus.Patrol.Listing.{Disk, nested, is_dots}
use antibawirus.Earlier.Outline.{
  Line, item, cannot_open, fullpath, opens, entry, entries, list_files,
}

-- What a directory holds, in the order of `readdir`; a `locked` directory cannot be opened.
pub data Tree : Type 0 where
  end : Tree
  leaf locked : Text → Tree → Tree
  branch : Text → Tree → Tree → Tree

-- How deep directories lie in each other.
unfoldable pub height : Tree → ℕ
height end = 0
height (leaf name rest) = height rest
height (locked name rest) = max 1 (height rest)
height (branch name sub rest) = max (suc (height sub)) (height rest)

-- Each entry on a line of its own, indented by its depth, a directory before what it holds.
unfoldable pub outline : ℕ → Tree → List Line
outline depth end = []
outline depth (leaf name rest) = item depth name ∷ outline depth rest
outline depth (locked name rest) = item depth name ∷ cannot_open ∷ outline depth rest
outline depth (branch name sub rest) =
    item depth name ∷ (outline (depth + 1) sub ++ outline depth rest)

-- `Shows disk path names t`: the entries `names` of `path` on the disk make up the tree `t`. The
-- two dot entries are no part of it, and what `stat` refuses is a leaf.
pub data Shows : Disk → Text → List Text → Tree → Type 0 where
  nil : {disk : Disk} {path : Text} → Shows disk path [] end
  dots :
      {disk : Disk} {path name : Text} {names : List Text} {t : Tree}
      → is_dots name ≡ true
      → Shows disk path names t
      → Shows disk path (name ∷ names) t
  plain :
      {disk : Disk} {path name : Text} {names : List Text} {t : Tree}
      → is_dots name ≡ false
      → opens disk (fullpath path name) ≡ false
      → Shows disk path names t
      → Shows disk path (name ∷ names) (leaf name t)
  shut :
      {disk : Disk} {path name : Text} {names : List Text} {t : Tree}
      → is_dots name ≡ false
      → opens disk (fullpath path name) ≡ true
      → disk.opendir 1 (fullpath path name) ≡ none
      → Shows disk path names t
      → Shows disk path (name ∷ names) (locked name t)
  opened :
      {disk : Disk} {path name : Text} {names subs : List Text} {t sub : Tree}
      → is_dots name ≡ false
      → opens disk (fullpath path name) ≡ true
      → disk.opendir 1 (fullpath path name) ≡ some subs
      → Shows (nested disk) (fullpath path name) subs sub
      → Shows disk path names t
      → Shows disk path (name ∷ names) (branch name sub t)

list-shut :
    (disk : Disk) (fuel : ℕ) (path : Text) (depth : ℕ)
    → disk.opendir 0 path ≡ none
    → list_files disk (suc fuel) path depth ≡ ok (cannot_open ∷ [])
unfolding list_files
list-shut disk fuel path depth o = rw (o, list_files) refl

list-opened :
    (disk : Disk) (fuel : ℕ) (path : Text) (depth : ℕ) (names : List Text)
    → disk.opendir 0 path ≡ some names
    → list_files disk (suc fuel) path depth
      ≡ entries disk (list_files (nested disk) fuel) path depth names
unfolding list_files
list-opened disk fuel path depth names o = rw (o, list_files) refl

entry-opens :
    (disk : Disk) (go : Text → ℕ → Exec (List Line)) (path name : Text) (depth : ℕ)
    (below : List Line)
    → is_dots name ≡ false
    → opens disk (fullpath path name) ≡ true
    → go (fullpath path name) (depth + 1) ≡ ok below
    → entry disk go path depth name ≡ ok (item depth name ∷ below)
unfolding entry
entry-opens disk go path name depth below d e g = rw (d, e, g) refl

entries-outline :
    (disk : Disk) (fuel : ℕ) {path : Text} {names : List Text} {t : Tree} (depth : ℕ)
    → height t ≤ fuel
    → Shows disk path names t
    → entries disk (list_files (nested disk) fuel) path depth names ≡ ok (outline depth t)
unfolding entries entry outline height
entries-outline disk fuel depth h nil = refl
entries-outline disk fuel depth h (dots d s) = rw (d, entries-outline disk fuel depth h s) refl
entries-outline disk fuel depth h (plain d e s) =
    rw (d, e, entries-outline disk fuel depth h s) refl
entries-outline disk zero depth h (shut {t = t} d e o s) = absurd (omega arith)
entries-outline disk (suc fuel) depth h (shut {path = p} {name = n} {t = t} d e o s) =
    rw
      (
        entry-opens disk (list_files (nested disk) (suc fuel)) p n depth (cannot_open ∷ []) d e
            (list-shut (nested disk) fuel (fullpath p n) (depth + 1) o),
        entries-outline disk (suc fuel) depth (omega arith) s,
      )
      refl
entries-outline disk zero depth h (opened d e o sub s) = absurd (omega arith)
entries-outline disk (suc fuel) depth h
      (opened {path = p} {name = n} {subs = subs} {sub = t} d e o sub s) =
    let below : list_files (nested disk) (suc fuel) (fullpath p n) (depth + 1)
        ≡ ok (outline (depth + 1) t) =
      list-opened (nested disk) fuel (fullpath p n) (depth + 1) subs o
      ∙ entries-outline (nested disk) fuel (depth + 1) (omega arith) sub in
    rw
      (
        entry-opens disk (list_files (nested disk) (suc fuel)) p n depth (outline (depth + 1) t) d e
            below,
        entries-outline disk (suc fuel) depth (omega arith) s,
      )
      refl

-- On a disk whose directories make up a finite tree below `path`, any fuel above the tree's height
-- is enough, and the lines printed are the tree's outline: each entry but the dot entries once, in
-- order, indented by how deep it lies, with a note behind each directory that cannot be opened.
pub list_files-outline :
    (disk : Disk) (fuel : ℕ) (path : Text) (names : List Text) (t : Tree) (depth : ℕ)
    → disk.opendir 0 path ≡ some names
    → Shows disk path names t
    → height t < fuel
    → list_files disk fuel path depth ≡ ok (outline depth t)
list_files-outline disk zero path names t depth o s h = absurd (omega arith)
list_files-outline disk (suc fuel) path names t depth o s h =
    list-opened disk fuel path depth names o ∙ entries-outline disk fuel depth (omega arith) s
