-- ===== src/Provoke/Attributes.antt =====
-- Patrullas Fronterizas/permisos.c, propietario.c, fecha.c, extension.c and eliminar.c: each makes
-- one change to a file of the USB device. A run comes to its exit status and the state it leaves;
-- what it says on the terminal is left out.
pub mod Alarm
pub mod Names
use antibawirus.Common.{ℕ, ◌-◌, if◌then◌else◌, Option, none, some}
use antibawirus.Common.Int.{negsuc}
use antibawirus.Common.Text.{Text, codes}
use antibawirus.Provoke.Posix.{Posix, Tm, Utimbuf}

abbrev pub documento : Text
documento = codes "/media/adrianux/ADRI/documento.doc"

abbrev pub formulario_txt : Text
formulario_txt = codes "/media/adrianux/ADRI/formulario.txt"

abbrev pub formulario_exe : Text
formulario_exe = codes "/media/adrianux/ADRI/formulario.exe"

abbrev pub archivo_txt : Text
archivo_txt = codes "/media/adrianux/ADRI/archivo.txt"

-- The first of January 2023 at noon; `mktime` finds out about summer time.
abbrev tiempo : Tm
tiempo = record {
  tm_year = 2023 - 1900;
  tm_mon = 0;
  tm_mday = 1;
  tm_hour = 12;
  tm_min = 0;
  tm_sec = 0;
  tm_isdst = negsuc 0;
}

module _ (P : Posix) where
  -- The end of a program whose last call is checked.
  abbrev pub salida : P.State → Option P.State → ℕ × P.State
  salida s none = (1, s)
  salida s (some s') = (0, s')

  unfoldable pub permisos : P.State → ℕ × P.State
  permisos s = salida s (P.chmod s documento 0o644)

  unfoldable pub propietario : P.State → ℕ × P.State
  propietario s = elim (P.getpwnam s (codes "nobody")) [
    | none ↦ (1, s)
    | some pw ↦ salida s (P.chown s formulario_exe pw.pw_uid pw.pw_gid)
  ]

  unfoldable pub nuevo_tiempo : Utimbuf
  nuevo_tiempo =
      let timestamp = P.mktime tiempo in record { actime = timestamp; modtime = timestamp }

  unfoldable pub fecha : P.State → ℕ × P.State
  unfolding nuevo_tiempo
  fecha s = if P.access s archivo_txt then salida s (P.utime s archivo_txt nuevo_tiempo) else (1, s)

  unfoldable pub cambiar_extension : P.State → ℕ × P.State
  cambiar_extension s = salida s (P.rename s formulario_txt formulario_exe)

  -- The status is 0 either way.
  unfoldable pub eliminar : P.State → ℕ × P.State
  eliminar s = elim (P.remove s formulario_exe) [ none ↦ (0, s) | some s' ↦ (0, s') ]
