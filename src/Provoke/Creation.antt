-- ===== src/Provoke/Creation.antt =====
-- Patrullas Fronterizas/Crear.c, Tests_USB/Test3_Permits.c and Tests_USB/Test4_Atributes.c make a
-- file with a line of text; the second one renames it and changes its permissions, the third one
-- changes its times.
use antibawirus.Common.{ℕ, [], ◌∷◌, ◌++◌, Option, none, some}
use antibawirus.Common.Int.{pos}
use antibawirus.Common.Text.{Text, codes, newline}
use antibawirus.Provoke.Posix.{Posix, Utimbuf}
use antibawirus.Provoke.Stdio.{Stdio}
use antibawirus.Provoke.Renaming.{old_file, new_file}

abbrev pub ruta_completa : Text
ruta_completa = codes "/media/adrianux/ADRI/documento.doc"

abbrev pub target : Text
target = codes "reporte.txt"

abbrev pub line_of : Text → Text
line_of text = text ++ newline ∷ []

module _ (P : Posix) (F : Stdio P) where
  -- `fopen`, `fprintf` and `fclose`; `none` if the file cannot be opened.
  unfoldable pub con_linea : Text → Text → P.State → Option P.State
  con_linea path text s = elim (F.fopen s path (codes "w")) [
    | none ↦ none
    | some (f, s') ↦ some (F.fclose (F.fwrite s' f (line_of text)).1 f).1
  ]

  unfoldable pub crear : P.State → ℕ × P.State
  unfolding con_linea
  crear s =
      elim (con_linea ruta_completa (codes "Este archivo fue creado desde un programa en C") s) [
        | none ↦ (1, s)
        | some s' ↦ (0, s')
      ]

  abbrev con_permisos : P.State → Option P.State → ℕ × P.State
  con_permisos s none = (1, s)
  con_permisos s (some s') = (0, s')

  abbrev con_nombre : P.State → Option P.State → ℕ × P.State
  con_nombre s none = (1, s)
  con_nombre s (some s') = con_permisos s' (P.chmod s' new_file 0o777)

  unfoldable pub permits : P.State → ℕ × P.State
  unfolding con_linea
  permits s = elim (con_linea old_file (codes "Este es un archivo de texto inocente") s) [
    | none ↦ (1, s)
    | some s' ↦ con_nombre s' (P.rename s' old_file new_file)
  ]

  abbrev pub new_times : Utimbuf
  new_times = record { actime = pos 1577836800; modtime = pos 1577836800 }

  -- The call of `chown` behind that of `getpwnam` is commented out.
  abbrev pub con_tiempos : P.State → Option P.State → ℕ × P.State
  con_tiempos s none = (1, s)
  con_tiempos s (some s') = elim (P.getpwnam s' (codes "nobody")) [
    | none ↦ (1, s')
    | some pwd ↦ (0, s')
  ]

  unfoldable pub atributes : P.State → ℕ × P.State
  unfolding con_linea
  atributes s = elim (con_linea target (codes "Contenido confidencial") s) [
    | none ↦ (1, s)
    | some s' ↦ con_tiempos s' (P.utime s' target new_times)
  ]
