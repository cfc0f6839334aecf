-- ===== src/Patrol/Listing/Walk.antt =====
-- Fronteras.c, `listar_archivos`: the tree below a directory, and the listing of it.
use Prim.Native.Nat.{max}
use mathlib.Core.List.{append_assoc, append-nil}
use antibawirus.Common.{
  ℕ, zero, suc, ◌≤◌, ◌<◌, ◌≡◌, refl, sym, ap, ◌∙◌, true, false, List, [], ◌∷◌, ◌++◌, none, some,
  arith,
}
use antibawirus.Common.Text.{Text}
use antibawirus.Common.Exec.{Exec, ok}
use antibawirus.Patrol.Listing.{
  Stat, Disk, nested, is_dir, is_dots, fullpath, info, Lista, entry, entries, listar_archivos,
}

-- What a directory holds, in the order of `readdir`.
pub data Tree : Type 0 where
  end : Tree
  file : Text → Stat → Tree → Tree
  dir : Text → Stat → Tree → Tree → Tree

-- How deep directories lie in each other.
unfoldable pub depth : Tree → ℕ
depth end = 0
depth (file name st rest) = depth rest
depth (dir name st sub rest) = max (suc (depth sub)) (depth rest)

-- The files of a tree below `path`.
unfoldable pub flatten : Text → Tree → Lista
flatten path end = []
flatten path (file name st rest) = info (fullpath path name) name st ∷ flatten path rest
flatten path (dir name st sub rest) =
    info (fullpath path name) name st ∷ (flatten (fullpath path name) sub ++ flatten path rest)

-- `Shows disk path names t`: the entries `names` of `path` on the disk make up the tree `t`. The
-- two dot entries and what `stat` refuses are no part of it, and a directory that cannot be
-- opened is empty.
pub data Shows : Disk → Text → List Text → Tree → Type 0 where
  nil : {disk : Disk} {path : Text} → Shows disk path [] end
  dots :
      {disk : Disk} {path name : Text} {names : List Text} {t : Tree}
      → is_dots name ≡ true
      → Shows disk path names t
      → Shows disk path (name ∷ names) t
  gone :
      {disk : Disk} {path name : Text} {names : List Text} {t : Tree}
      → is_dots name ≡ false
      → disk.stat (fullpath path name) ≡ none
      → Shows disk path names t
      → Shows disk path (name ∷ names) t
  plain :
      {disk : Disk} {path name : Text} {names : List Text} {t : Tree} {st : Stat}
      → is_dots name ≡ false
      → disk.stat (fullpath path name) ≡ some st
      → is_dir st.st_mode ≡ false
      → Shows disk path names t
      → Shows disk path (name ∷ names) (file name st t)
  locked :
      {disk : Disk} {path name : Text} {names : List Text} {t : Tree} {st : Stat}
      → is_dots name ≡ false
      → disk.stat (fullpath path name) ≡ some st
      → is_dir st.st_mode ≡ true
      → disk.opendir 1 (fullpath path name) ≡ none
      → Shows disk path names t
      → Shows disk path (name ∷ names) (dir name st end t)
  opened :
      {disk : Disk} {path name : Text} {names subs : List Text} {t sub : Tree} {st : Stat}
      → is_dots name ≡ false
      → disk.stat (fullpath path name) ≡ some st
      → is_dir st.st_mode ≡ true
      → disk.opendir 1 (fullpath path name) ≡ some subs
      → Shows (nested disk) (fullpath path name) subs sub
      → Shows disk path names t
      → Shows disk path (name ∷ names) (dir name st sub t)

listar-locked :
    (disk : Disk) (fuel : ℕ) (path : Text) (lista : Lista)
    → disk.opendir 0 path ≡ none
    → listar_archivos disk (suc fuel) path lista ≡ ok lista
unfolding listar_archivos
listar-locked disk fuel path lista o = rw (o, listar_archivos) refl

listar-opened :
    (disk : Disk) (fuel : ℕ) (path : Text) (lista : Lista) (names : List Text)
    → disk.opendir 0 path ≡ some names
    → listar_archivos disk (suc fuel) path lista
      ≡ entries disk (listar_archivos (nested disk) fuel) path names lista
unfolding listar_archivos
listar-opened disk fuel path lista names o = rw (o, listar_archivos) refl

entry-dir :
    (disk : Disk) (go : Text → Lista → Exec Lista) (path name : Text) (st : Stat) (lista : Lista)
    → is_dots name ≡ false
    → disk.stat (fullpath path name) ≡ some st
    → is_dir st.st_mode ≡ true
    → entry disk go path name lista
      ≡ go (fullpath path name) (lista ++ info (fullpath path name) name st ∷ [])
unfolding entry
entry-dir disk go path name st lista d e f = rw (d, e, f) refl

entries-Shows :
    (disk : Disk) (fuel : ℕ) {path : Text} {names : List Text} {t : Tree} (lista : Lista)
    → depth t ≤ fuel
    → Shows disk path names t
    → entries disk (listar_archivos (nested disk) fuel) path names lista
      ≡ ok (lista ++ flatten path t)
unfolding entries entry flatten depth
entries-Shows disk fuel lista h nil = ap ok (sym (append-nil lista))
entries-Shows disk fuel lista h (dots d s) = rw d (entries-Shows disk fuel lista h s)
entries-Shows disk fuel lista h (gone d e s) = rw (d, e, entry) (entries-Shows disk fuel lista h s)
entries-Shows disk fuel lista h (plain {path = p} {name = n} {st = st} d e f s) =
    rw (d, e, f, entry) (entries-Shows disk fuel _ h s ∙ ap ok (append_assoc lista _ _))
entries-Shows disk zero lista h (locked {t = t} d e f o s) = absurd (omega arith)
entries-Shows disk (suc fuel) lista h (locked {path = p} {name = n} {t = t} {st = st} d e f o s) =
    rw
      (
        entry-dir disk (listar_archivos (nested disk) (suc fuel)) p n st lista d e f,
        listar-locked (nested disk) fuel (fullpath p n) (lista ++ info (fullpath p n) n st ∷ []) o,
      )
      (entries-Shows disk (suc fuel) _ (omega arith) s ∙ ap ok (append_assoc lista _ _))
entries-Shows disk zero lista h (opened d e f o sub s) = absurd (omega arith)
entries-Shows disk (suc fuel) lista h
      (opened {path = p} {name = n} {subs = subs} {st = st} d e f o sub s) =
    rw
      (
        entry-dir disk (listar_archivos (nested disk) (suc fuel)) p n st lista d e f,
        listar-opened (nested disk) fuel (fullpath p n) (lista ++ info (fullpath p n) n st ∷ [])
            subs o,
        entries-Shows (nested disk) fuel (lista ++ info (fullpath p n) n st ∷ []) (omega arith) sub,
      )
      (entries-Shows disk (suc fuel) _ (omega arith) s
        ∙ ap ok (append_assoc (lista ++ _) _ _ ∙ append_assoc lista _ _))

-- On a disk whose directories make up a finite tree below `path`, any fuel above the tree's depth
-- is enough, and the listing appends to the list the files of that tree, each directory before
-- what it holds.
pub listar_archivos-flatten :
    (disk : Disk) (fuel : ℕ) (path : Text) (names : List Text) (t : Tree) (lista : Lista)
    → disk.opendir 0 path ≡ some names
    → Shows disk path names t
    → depth t < fuel
    → listar_archivos disk fuel path lista ≡ ok (lista ++ flatten path t)
listar_archivos-flatten disk zero path names t lista o s h = absurd (omega arith)
listar_archivos-flatten disk (suc fuel) path names t lista o s h =
    listar-opened disk fuel path lista names o ∙ entries-Shows disk fuel lista (omega arith) s
