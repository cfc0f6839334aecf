-- ===== src/Provoke/Renaming.antt =====
-- Tests_USB/Test3_Permits.c renames a file and then changes its permissions to 0777.
use antibawirus.Common.{ℕ, ◌≡◌, ◌≢◌, refl, sym, ap, ◌∙◌, arith, List, [], ◌∷◌, In, length}
use antibawirus.Common.Text.{Text, codes}
use antibawirus.Patrol.Files.{ArchivoInfo, extension, nombre_sin_extension}
use antibawirus.Patrol.Compare.{extension_changed, permissions_changed, extension_permisos}
use antibawirus.Patrol.Compare.Changes.{extension_permisos_iff}

abbrev pub old_file : Text
old_file = codes "nota.txt"

abbrev pub new_file : Text
new_file = codes "nota.exe"

-- The name and the extension under which the patrol lists a file of the given name.
abbrev IsListed : ArchivoInfo → Text → Type 0
IsListed f name = (f.nombre ≡ nombre_sin_extension name) × (f.extension ≡ extension name)

stems : nombre_sin_extension old_file ≡ nombre_sin_extension new_file
unfolding nombre_sin_extension
stems = refl

abbrev first : Text → ℕ
first [] = 0
first (c ∷ s) = c

extensions : extension old_file ≢ extension new_file
unfolding extension
extensions e = let h : 116 ≡ 101 = ap first e in omega (arith, h)

-- A snapshot with the file before the program's run and one with as many files after it: the change
-- of the extension is reported, and the change of the permissions is not, whatever they were, since
-- it is looked for between files of one extension.
pub renaming_reported :
    (vs ns : List ArchivoInfo) (v n : ArchivoInfo)
    → length ns ≡ length vs
    → In v vs
    → In n ns
    → IsListed v old_file
    → IsListed n new_file
    → v.tamano ≡ n.tamano
    → In (extension_changed v n) (extension_permisos vs ns)
      × (¬ In (permissions_changed v n) (extension_permisos vs ns))
renaming_reported vs ns v n len i j (name_v, ext_v) (name_n, ext_n) size =
    let (renamed, changed) = extension_permisos_iff vs ns v n in
    let stem : v.nombre ≡ n.nombre = name_v ∙ stems ∙ sym name_n in
    let other : v.extension ≢ n.extension = λ e. extensions (sym ext_v ∙ e ∙ ext_n) in
    (renamed.1 (len, i, j, (stem, size, other)), λ h. other (changed.0 h).3.0.1)
