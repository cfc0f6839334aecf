-- ===== src/Provoke/Attributes/Names.antt =====
-- extension.c and eliminar.c: a file that is renamed or removed, and the alerts of Fronteras.c.
use antibawirus.Common.{
  ℕ, ◌<◌, ◌≡◌, ◌≢◌, refl, sym, ap, ◌∙◌, List, [], ◌∷◌, none, some, arith, In, length, ◌⊎◌, inl, inr,
  Option-cases,
}
use antibawirus.Common.Text.{Text, codes}
use antibawirus.Patrol.Files.{ArchivoInfo, extension, nombre_sin_extension}
use antibawirus.Patrol.Listing.{Stat, info}
use antibawirus.Patrol.Compare.{extension_changed, removed, extension_permisos, anadir_eliminar}
use antibawirus.Patrol.Compare.Changes.{extension_permisos_iff}
use antibawirus.Patrol.Compare.Counts.{removed_iff}
use antibawirus.Provoke.Posix.{Posix, IsPosix}
use antibawirus.Provoke.Attributes.{formulario_txt, formulario_exe, cambiar_extension, eliminar}
use antibawirus.Provoke.Attributes.Alarm.{Lists, salida-done}

abbrev nombre_viejo : Text
nombre_viejo = codes "formulario.txt"

abbrev nombre_nuevo : Text
nombre_nuevo = codes "formulario.exe"

abbrev first : Text → ℕ
first [] = 0
first (c ∷ s) = c

same_stem : nombre_sin_extension nombre_viejo ≡ nombre_sin_extension nombre_nuevo
unfolding nombre_sin_extension
same_stem = refl

other_extension : extension nombre_viejo ≢ extension nombre_nuevo
unfolding extension
other_extension e = let h : 116 ≡ 101 = ap first e in omega (arith, h)

-- On a system whose calls do what is documented: when the program that renames a file ends with
-- status 0, and no file had the new name, the patrol reports the change of the extension, between a
-- snapshot that lists the file under its old name and one of as many files that lists it under the
-- new one.
cambiar_extension_reported :
    (P : Posix)
    → IsPosix P
    → (s s' : P.State) (st : Stat) (vs ns : List ArchivoInfo) → P.stat s formulario_txt ≡ some st
    → P.stat s formulario_exe ≡ none
    → cambiar_extension P s ≡ (0, s')
    → Lists P s formulario_txt nombre_viejo vs
    → Lists P s' formulario_exe nombre_nuevo ns
    → length ns ≡ length vs
    → (P.stat s' formulario_txt ≡ none)
      × In
          (extension_changed
            (info formulario_txt nombre_viejo st)
            (info formulario_exe nombre_nuevo st))
          (extension_permisos vs ns)
unfolding cambiar_extension info
cambiar_extension_reported P law s s' st vs ns here free run before after len =
    let done = salida-done P s s' _ run in
    let (gone, now) = law.rename-stat s s' formulario_txt formulario_exe st here free done in
    (
      gone,
      (extension_permisos_iff vs ns _ _).0.1
          (len, before st here, after st now, (same_stem, refl, other_extension)),
    )

-- A snapshot taken in the state `s` lists only files that are there.
abbrev ListsOnly : (P : Posix) → P.State → List ArchivoInfo → Type 0
ListsOnly P s fs = (f : ArchivoInfo) → In f fs → P.stat s f.ruta_completa ≢ none

-- The program that removes a file ends with status 0 in every case. It either leaves the state as it
-- was, or the file is gone; and then, on a system whose calls do what is documented, the patrol
-- reports the file as removed, between a snapshot that lists it and a shorter one that lists only
-- files that are there, with the same number of devices.
pub eliminar_reported :
    (P : Posix)
    → IsPosix P
    → (s : P.State) (st : Stat) (name : Text) (vs ns : List ArchivoInfo) (a b : ℕ)
    → P.stat s formulario_exe ≡ some st
    → Lists P s formulario_exe name vs
    → ListsOnly P (eliminar P s).1 ns
    → length ns < length vs
    → a ≡ b
    → ((eliminar P s).0 ≡ 0)
      × (((eliminar P s).1 ≡ s)
          ⊎ ((P.stat (eliminar P s).1 formulario_exe ≡ none)
              × In (removed (info formulario_exe name st)) (anadir_eliminar vs ns a b)))
unfolding eliminar info
eliminar_reported P law s st name vs ns a b here before there fewer same =
    elim (Option-cases (P.remove s formulario_exe)) [
      | inl e ↦ rw (eliminar, e) (refl, inl refl)
      | inr (s', e) ↦
          let gone = law.remove-stat s s' formulario_exe e in
          let there' : ListsOnly P s' ns = rw (eliminar, e) at there in
          rw (eliminar, e)
            (
              refl,
              inr (
                gone,
                (removed_iff vs ns a b _).1 (
                  fewer,
                  same,
                  before st here,
                  λ n m same_file. there' n m (ap (P.stat s') (sym same_file.2) ∙ gone),
                ),
              ),
            )
    ]
