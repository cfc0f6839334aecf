-- ===== src/Patrol/Files.antt =====
-- Fronteras.c, lines 17 to 49: what is kept of a file, and how its name is split.
pub mod Laws
use antibawirus.Common.{ℕ, ◌+◌, Bool, ◌&&◌, none, some, [], ◌==◌, if◌then◌else◌, take, drop}
use antibawirus.Common.Int.{ℤ}
use antibawirus.Common.Text.{Text, str_eq, strrchr}

pub record ArchivoInfo : Type 0 where
  pub ruta_completa : Text
  pub nombre : Text
  pub extension : Text
  pub tamano : ℕ
  pub permisos : ℕ
  pub ultima_modificacion : ℤ
  pub owner_uid : ℕ
  pub group_gid : ℕ

-- The last dot starts the extension, unless it stands first.
unfoldable pub extension : Text → Text
unfolding strrchr
extension nombre = elim (strrchr nombre b'.') [
  | none ↦ []
  | some i ↦ if i == 0 then [] else drop (i + 1) nombre
]

unfoldable pub nombre_sin_extension : Text → Text
unfolding strrchr
nombre_sin_extension filename = elim (strrchr filename b'.') [
  | none ↦ filename
  | some i ↦ take i filename
]

-- The test of two files that the comparisons share: the same name, extension and path.
unfoldable pub mismo_archivo : ArchivoInfo → ArchivoInfo → Bool
mismo_archivo viejo nuevo =
    str_eq viejo.nombre nuevo.nombre
    && str_eq viejo.extension nuevo.extension
    && str_eq viejo.ruta_completa nuevo.ruta_completa
