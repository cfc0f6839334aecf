-- ===== src/Patrol/Compare.antt =====
-- Fronteras.c, lines 418 to 566: the comparison of two snapshots of the files. An alert stands for
-- one `printf` and the call of `mostrar_proceso_modificador` behind it.
pub mod Pairs
pub mod Changes
pub mod Copies
pub mod Counts
pub mod Losses
pub mod Quiet
use antibawirus.Common.{
  ℕ, ◌+◌, ◌*◌, ◌%◌, Bool, ◌&&◌, List, [], ◌∷◌, ◌++◌, Option, none, some, ltb, ◌==◌, if◌then◌else◌,
  length,
}
use antibawirus.Common.Int.{ℤ, pos, ◌-ℤ◌, leb_ℤ, eqb_ℤ}
use antibawirus.Common.Text.{str_eq, is_prefix}
use antibawirus.Patrol.Files.{ArchivoInfo, mismo_archivo}

pub data Alert : Type 0 where
  grown : ArchivoInfo → ℤ → Alert
  extension_changed permissions_changed timestamp_changed owner_changed copied :
      ArchivoInfo → ArchivoInfo → Alert
  removed added : ArchivoInfo → Alert

-- The loop over the new files for one old file, and the loop over the old files.
unfoldable pub against :
    (ArchivoInfo → ArchivoInfo → List Alert) → ArchivoInfo → List ArchivoInfo → List Alert
against body viejo [] = []
against body viejo (nuevo ∷ rest) = body viejo nuevo ++ against body viejo rest

unfoldable pub each_pair :
    (ArchivoInfo → ArchivoInfo → List Alert) → List ArchivoInfo → List ArchivoInfo → List Alert
unfolding against
each_pair body [] nuevos = []
each_pair body (viejo ∷ rest) nuevos = against body viejo nuevos ++ each_pair body rest nuevos

-- 10 MB
abbrev pub growth_limit : ℕ
growth_limit = 10 * 1024 * 1024

unfoldable pub tamano_pair : ArchivoInfo → ArchivoInfo → List Alert
tamano_pair viejo nuevo =
    let diferencia = pos nuevo.tamano -ℤ pos viejo.tamano in
    if mismo_archivo viejo nuevo
    then (if leb_ℤ (pos growth_limit) diferencia then grown nuevo diferencia ∷ [] else [])
    else []

unfoldable pub tamano : List ArchivoInfo → List ArchivoInfo → List Alert
unfolding each_pair tamano_pair
tamano = each_pair tamano_pair

-- `permisos & 0777`
abbrev pub mode_bits : ℕ → ℕ
mode_bits permisos = permisos % 0o1000

unfoldable pub extension_pair : ArchivoInfo → ArchivoInfo → List Alert
extension_pair viejo nuevo =
    if str_eq viejo.nombre nuevo.nombre && viejo.tamano == nuevo.tamano
    then (if str_eq viejo.extension nuevo.extension then [] else extension_changed viejo nuevo ∷ [])
    else []

unfoldable pub permisos_pair : ArchivoInfo → ArchivoInfo → List Alert
permisos_pair viejo nuevo =
    if mismo_archivo viejo nuevo
    then (if mode_bits viejo.permisos == mode_bits nuevo.permisos
        then []
        else permissions_changed viejo nuevo ∷ [])
    else []

unfoldable pub extension_permisos : List ArchivoInfo → List ArchivoInfo → List Alert
unfolding each_pair extension_pair permisos_pair
extension_permisos viejos nuevos =
    if length nuevos == length viejos
    then each_pair (λ v n. extension_pair v n ++ permisos_pair v n) viejos nuevos
    else []

unfoldable pub timestamp_pair : ArchivoInfo → ArchivoInfo → List Alert
timestamp_pair viejo nuevo =
    if mismo_archivo viejo nuevo
    then (if eqb_ℤ viejo.ultima_modificacion nuevo.ultima_modificacion
        then []
        else timestamp_changed viejo nuevo ∷ [])
    else []

unfoldable pub owner_pair : ArchivoInfo → ArchivoInfo → List Alert
owner_pair viejo nuevo =
    if mismo_archivo viejo nuevo
    then (if viejo.owner_uid == nuevo.owner_uid then [] else owner_changed viejo nuevo ∷ [])
    else []

unfoldable pub timestamps_ownership : List ArchivoInfo → List ArchivoInfo → List Alert
unfolding each_pair timestamp_pair owner_pair
timestamps_ownership viejos nuevos =
    if length nuevos == length viejos
    then each_pair (λ v n. timestamp_pair v n ++ owner_pair v n) viejos nuevos
    else []

-- Whether the new name starts with the old one.
unfoldable pub is_name : ArchivoInfo → ArchivoInfo → Bool
is_name viejo nuevo = is_prefix viejo.nombre nuevo.nombre

-- The first old file that the new one looks like a copy of; the code returns 1 when there is one.
unfoldable pub copia : ArchivoInfo → List ArchivoInfo → Option ArchivoInfo
unfolding is_name
copia archivo [] = none
copia archivo (viejo ∷ rest) =
    if str_eq viejo.extension archivo.extension
      && viejo.tamano == archivo.tamano
      && is_name viejo archivo
    then some viejo
    else copia archivo rest

-- The counter `encontrado`, over the files of the other snapshot.
unfoldable pub encontrado : (ArchivoInfo → Bool) → List ArchivoInfo → ℕ
encontrado same [] = 0
encontrado same (f ∷ rest) = (if same f then 1 else 0) + encontrado same rest

unfoldable pub eliminados : List ArchivoInfo → List ArchivoInfo → ℕ → ℕ → List Alert
unfolding encontrado
eliminados [] nuevos viejos actuales = []
eliminados (f ∷ rest) nuevos viejos actuales =
    (if encontrado (λ n. mismo_archivo f n) nuevos == 0
      then (if viejos == actuales then removed f ∷ [] else [])
      else [])
    ++ eliminados rest nuevos viejos actuales

-- What is printed for a new file: by `copia`, or by its caller if that returns 0.
abbrev pub as_alert : ArchivoInfo → Option ArchivoInfo → Alert
as_alert f none = added f
as_alert f (some viejo) = copied f viejo

unfoldable pub anadidos : List ArchivoInfo → List ArchivoInfo → List Alert
unfolding encontrado copia
anadidos [] archivos_viejos = []
anadidos (f ∷ rest) archivos_viejos =
    (if encontrado (λ v. mismo_archivo v f) archivos_viejos == 0
      then as_alert f (copia f archivos_viejos) ∷ []
      else [])
    ++ anadidos rest archivos_viejos

-- `viejos` and `actuales` are the numbers of devices at the two snapshots.
unfoldable pub anadir_eliminar : List ArchivoInfo → List ArchivoInfo → ℕ → ℕ → List Alert
unfolding eliminados anadidos
anadir_eliminar archivos_viejos archivos_nuevos viejos actuales =
    if ltb (length archivos_nuevos) (length archivos_viejos)
    then eliminados archivos_viejos archivos_nuevos viejos actuales
    else if ltb (length archivos_viejos) (length archivos_nuevos) && viejos == actuales
    then anadidos archivos_nuevos archivos_viejos
    else []
