-- ===== src/Earlier/Outline.antt =====
-- Patrullas.c, `list_files`: the files of a directory, printed as an outline.
pub mod Walk
pub mod Agreement
use antibawirus.Common.{
  ℕ, zero, suc, ◌+◌, List, [], ◌∷◌, ◌++◌, none, some, if◌then◌else◌, Bool, false,
}
use antibawirus.Common.Text.{Text, fit}
use antibawirus.Common.Exec.{Exec, ok, exhausted, ◌>>=◌}
use antibawirus.Patrol.Listing.{Disk, nested, is_dir, is_dots}

-- A line: the name of an entry behind so many double blanks, or that a directory cannot be opened.
pub data Line : Type 0 where
  item : ℕ → Text → Line
  cannot_open : Line

-- `snprintf(fullpath, sizeof(fullpath), "%s/%s", path, entry->d_name)`
unfoldable pub fullpath : Text → Text → Text
fullpath path name = fit 1024 (path ++ b'/' ∷ name)

module _ (disk : Disk) where
  -- `stat(fullpath, &statbuf) == 0 && S_ISDIR(statbuf.st_mode)`
  unfoldable pub opens : Text → Bool
  opens full = elim (disk.stat full) [ none ↦ false | some st ↦ is_dir st.st_mode ]

  -- One round of the loop; `go` is the recursive call.
  unfoldable pub entry : (Text → ℕ → Exec (List Line)) → Text → ℕ → Text → Exec (List Line)
  entry go path depth name =
      if is_dots name
      then ok []
      else if opens (fullpath path name)
      then go (fullpath path name) (depth + 1) >>= (λ below. ok (item depth name ∷ below))
      else ok (item depth name ∷ [])

  unfoldable pub entries : (Text → ℕ → Exec (List Line)) → Text → ℕ → List Text → Exec (List Line)
  entries go path depth [] = ok []
  entries go path depth (name ∷ names) = do
    here ← entry go path depth name
    rest ← entries go path depth names
    ok (here ++ rest)

-- `fuel` bounds how deep the directories lie. `closedir` comes behind the loop.
unfoldable pub list_files : Disk → ℕ → Text → ℕ → Exec (List Line)
list_files disk zero path depth = exhausted
list_files disk (suc fuel) path depth = elim (disk.opendir 0 path) [
  | none ↦ ok (cannot_open ∷ [])
  | some names ↦ entries disk (list_files (nested disk) fuel) path depth names
]
