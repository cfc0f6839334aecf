-- ===== src/Provoke/Attributes/Alarm.antt =====
-- The programs that change one attribute of a file, and the alerts of Fronteras.c that they provoke.
use antibawirus.Common.{
  ℕ, ◌+◌, ◌*◌, ◌/◌, ◌≡◌, ◌≢◌, refl, ap, ◌∙◌, inl, inr, List, Option, none, some, arith, In, length,
  Option-cases,
}
use antibawirus.Common.Text.{Text, codes}
use antibawirus.Patrol.Files.{ArchivoInfo}
use antibawirus.Patrol.Listing.{Stat, info}
use antibawirus.Patrol.Compare.{
  Alert, permissions_changed, timestamp_changed, owner_changed, extension_permisos,
  timestamps_ownership, mode_bits,
}
use antibawirus.Patrol.Compare.Changes.{extension_permisos_iff, timestamps_ownership_iff}
use antibawirus.Provoke.Status.{failed_only}
use antibawirus.Provoke.Posix.{Posix, IsPosix, Passwd}
use antibawirus.Provoke.Attributes.{
  documento, formulario_exe, archivo_txt, salida, permisos, propietario, fecha, nuevo_tiempo,
}

-- The three programs that set an attribute of a file.
pub data Programa : Type 0 where
  permisos_c propietario_c fecha_c : Programa

-- The file that a program works on, its run, and the alert and the check that it is meant to provoke.
abbrev pub ruta : Programa → Text
ruta permisos_c = documento
ruta propietario_c = formulario_exe
ruta fecha_c = archivo_txt

abbrev pub ejecutar : (P : Posix) → Programa → P.State → ℕ × P.State
ejecutar P permisos_c s = permisos P s
ejecutar P propietario_c s = propietario P s
ejecutar P fecha_c s = fecha P s

abbrev pub aviso : Programa → ArchivoInfo → ArchivoInfo → Alert
aviso permisos_c v n = permissions_changed v n
aviso propietario_c v n = owner_changed v n
aviso fecha_c v n = timestamp_changed v n

abbrev control : Programa → List ArchivoInfo → List ArchivoInfo → List Alert
control permisos_c vs ns = extension_permisos vs ns
control propietario_c vs ns = timestamps_ownership vs ns
control fecha_c vs ns = timestamps_ownership vs ns

module _ (P : Posix) where
  -- The file does not have yet what the program sets.
  abbrev IsNews : P.State → Programa → Stat → Type 0
  IsNews s permisos_c st = mode_bits st.st_mode ≢ 0o644
  IsNews s propietario_c st =
      (pw : Passwd) → P.getpwnam s (codes "nobody") ≡ some pw → st.st_uid ≢ pw.pw_uid
  IsNews s fecha_c st = st.st_mtime ≢ (nuevo_tiempo P).modtime

  -- A snapshot taken in the state `s` lists the file at the path `p` under the given name.
  abbrev pub Lists : P.State → Text → Text → List ArchivoInfo → Type 0
  Lists s p name fs = (st : Stat) → P.stat s p ≡ some st → In (info p name st) fs

  pub salida-done : (s s' : P.State) (r : Option P.State) → salida P s r ≡ (0, s') → r ≡ some s'
  salida-done s s' none e = absurd (failed_only s s' e)
  salida-done s s' (some t) e = ap (λ x. some x.1) e

module _ (P : Posix) (law : IsPosix P) where
  -- The permissions are the last nine bits of what `stat` tells.
  new_mode : (m : ℕ) → mode_bits (m / 0o10000 * 0o10000 + 0o644) ≡ 0o644
  new_mode m = omega arith

  permisos_reported :
      (s s' : P.State) (st : Stat) (name : Text) (vs ns : List ArchivoInfo)
      → P.stat s documento ≡ some st
      → mode_bits st.st_mode ≢ 0o644
      → permisos P s ≡ (0, s')
      → Lists P s documento name vs
      → Lists P s' documento name ns
      → length ns ≡ length vs
      → (st' : Stat) × (P.stat s' documento ≡ some st')
        × In
            (permissions_changed (info documento name st) (info documento name st'))
            (extension_permisos vs ns)
  unfolding permisos info
  permisos_reported s s' st name vs ns here news run before after len =
      let done = salida-done P s s' _ run in
      let now = law.chmod-stat s s' documento 0o644 st (omega arith) here done in
      let st' : Stat = record st { st_mode = st.st_mode / 0o10000 * 0o10000 + 0o644 } in
      let other : mode_bits st.st_mode ≢ mode_bits st'.st_mode =
        λ e. news (e ∙ new_mode st.st_mode) in
      (
        st',
        now,
        (extension_permisos_iff vs ns _ _).1.1
            (len, before st here, after st' now, ((refl, refl, refl), other)),
      )

  propietario_reported :
      (s s' : P.State) (st : Stat) (name : Text) (vs ns : List ArchivoInfo)
      → P.stat s formulario_exe ≡ some st
      → IsNews P s propietario_c st
      → propietario P s ≡ (0, s')
      → Lists P s formulario_exe name vs
      → Lists P s' formulario_exe name ns
      → length ns ≡ length vs
      → (st' : Stat) × (P.stat s' formulario_exe ≡ some st')
        × In
            (owner_changed (info formulario_exe name st) (info formulario_exe name st'))
            (timestamps_ownership vs ns)
  unfolding propietario info
  propietario_reported s s' st name vs ns here news run before after len =
      elim (Option-cases (P.getpwnam s (codes "nobody"))) [
        | inl e ↦ absurd (failed_only s s' (rw (propietario, e) at run))
        | inr (pw, e) ↦
            let done = salida-done P s s' _ (rw (propietario, e) at run) in
            let (mode, _, now) =
              law.chown-stat s s' formulario_exe pw.pw_uid pw.pw_gid st here done in
            (
              _,
              now,
              (timestamps_ownership_iff vs ns _ _).1.1
                  (len, before st here, after _ now, ((refl, refl, refl), news pw e)),
            )
      ]

  fecha_reported :
      (s s' : P.State) (st : Stat) (name : Text) (vs ns : List ArchivoInfo)
      → P.stat s archivo_txt ≡ some st
      → IsNews P s fecha_c st
      → fecha P s ≡ (0, s')
      → Lists P s archivo_txt name vs
      → Lists P s' archivo_txt name ns
      → length ns ≡ length vs
      → (st' : Stat) × (P.stat s' archivo_txt ≡ some st')
        × In
            (timestamp_changed (info archivo_txt name st) (info archivo_txt name st'))
            (timestamps_ownership vs ns)
  unfolding fecha info
  fecha_reported s s' st name vs ns here news run before after len =
      let there = law.access-stat s archivo_txt st here in
      let done = salida-done P s s' _ (rw (fecha, there) at run) in
      let now = law.utime-stat s s' archivo_txt _ st here done in
      (
        _,
        now,
        (timestamps_ownership_iff vs ns _ _).0.1
            (len, before st here, after _ now, ((refl, refl, refl), news)),
      )

-- On a system whose calls do what is documented: a program that sets the permissions, the owner or
-- the times of a file, and ends with status 0 on a file that did not have them yet, leaves the file
-- in a state which the patrol reports by the alert that the program is meant to provoke, between a
-- snapshot that lists the file before the run and one of as many files that lists it afterwards.
pub attribute_reported :
    (P : Posix)
    → IsPosix P
    → (c : Programa) (s s' : P.State) (st : Stat) (name : Text) (vs ns : List ArchivoInfo)
    → P.stat s (ruta c) ≡ some st
    → IsNews P s c st
    → ejecutar P c s ≡ (0, s')
    → Lists P s (ruta c) name vs
    → Lists P s' (ruta c) name ns
    → length ns ≡ length vs
    → (st' : Stat) × (P.stat s' (ruta c) ≡ some st')
      × In (aviso c (info (ruta c) name st) (info (ruta c) name st')) (control c vs ns)
attribute_reported P law permisos_c = permisos_reported P law
attribute_reported P law propietario_c = propietario_reported P law
attribute_reported P law fecha_c = fecha_reported P law
