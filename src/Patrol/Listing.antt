-- ===== src/Patrol/Listing.antt =====
-- Fronteras.c, `listar_archivos`: the recursive listing of a directory.
pub mod Walk
pub mod Limit
use antibawirus.Common.{
  ℕ, zero, suc, ◌/◌, ◌%◌, Bool, ◌||◌, List, [], ◌∷◌, ◌++◌, Option, none, some, ◌==◌, if◌then◌else◌,
}
use antibawirus.Common.Int.{ℤ}
use antibawirus.Common.Text.{Text, codes, str_eq, fit}
use antibawirus.Common.Exec.{◌>>=◌, Exec, ok, exhausted}
use antibawirus.Patrol.Files.{ArchivoInfo, extension, nombre_sin_extension}

-- The fields of `struct stat` that are read.
pub record Stat : Type 0 where
  pub st_size : ℕ
  pub st_mode : ℕ
  pub st_mtime : ℤ
  pub st_uid : ℕ
  pub st_gid : ℕ

-- What the system answers while a snapshot is taken: the names that `readdir` yields in a
-- directory that `opendir` opens, and what `stat` says of a path. `opendir n` is the call while `n`
-- directories are open above this one, since a process may not hold any number of them.
pub record Disk : Type 0 where
  pub opendir : ℕ → Text → Option (List Text)
  pub stat : Text → Option Stat

-- The same disk, while one directory more is open.
abbrev pub nested : Disk → Disk
nested disk = record disk { opendir = λ n. disk.opendir (suc n) }

-- `S_ISDIR`
unfoldable pub is_dir : ℕ → Bool
is_dir mode = mode / 0o10000 % 16 == 4

-- `.` and `..`
unfoldable pub is_dots : Text → Bool
is_dots name = str_eq name (codes ".") || str_eq name (codes "..")

-- `snprintf(fullpath, sizeof(fullpath), "%s/%s", path, name)`
unfoldable pub fullpath : Text → Text → Text
fullpath path name = fit 2048 (path ++ b'/' ∷ name)

unfoldable pub info : Text → Text → Stat → ArchivoInfo
info full name st = record {
  ruta_completa = full;
  nombre = nombre_sin_extension name;
  extension = extension name;
  tamano = st.st_size;
  permisos = st.st_mode;
  ultima_modificacion = st.st_mtime;
  owner_uid = st.st_uid;
  group_gid = st.st_gid;
}

-- The list grown so far, which the C code keeps behind `lista` and `count`.
abbrev pub Lista : Type 0
Lista = List ArchivoInfo

module _ (disk : Disk) where
  -- One round of the loop; `go` is the recursive call.
  unfoldable pub entry : (Text → Lista → Exec Lista) → Text → Text → Lista → Exec Lista
  entry go path name lista =
      if is_dots name then ok lista else elim (disk.stat (fullpath path name)) [
        | none ↦ ok lista
        | some st ↦
            let lista' = lista ++ info (fullpath path name) name st ∷ [] in
            if is_dir st.st_mode then go (fullpath path name) lista' else ok lista'
      ]

  unfoldable pub entries : (Text → Lista → Exec Lista) → Text → List Text → Lista → Exec Lista
  entries go path [] lista = ok lista
  entries go path (name ∷ names) lista = do
    lista' ← entry go path name lista
    entries go path names lista'

-- `fuel` bounds how deep the directories lie. `closedir` comes behind the loop.
unfoldable pub listar_archivos : Disk → ℕ → Text → Lista → Exec Lista
listar_archivos disk zero path lista = exhausted
listar_archivos disk (suc fuel) path lista = elim (disk.opendir 0 path) [
  | none ↦ ok lista
  | some names ↦ entries disk (listar_archivos (nested disk) fuel) path names lista
]
