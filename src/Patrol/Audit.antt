-- ===== src/Patrol/Audit.antt =====
-- Fronteras.c, `mostrar_proceso_modificador`: which process the audit log makes responsible for
-- a change of a file.
pub mod Fields
pub mod Records
use antibawirus.Common.{
  ℕ, Bool, true, false, ◌&&◌, ◌||◌, not, List, [], ◌∷◌, ◌++◌, Option, none, some, ◌==◌,
  if◌then◌else◌, length, drop,
}
use antibawirus.Common.Text.{Text, codes, str_eq, strstr, contains, fgets_lines, fit, newline}
use antibawirus.Common.Text.Scan.{scan_until, scan_word}
use antibawirus.Common.Exec.{◌>>=◌, Exec, ok, crash}

abbrev pub no_registrado : Text
no_registrado = codes "(no registrado)"

-- The buffers that the loop fills, and its two flags.
pub record Registro : Type 0 where
  pub in_syscall : Bool
  pub encontrado : Bool
  pub comm : Text
  pub exe : Text
  pub tty : Text
  pub uid : Text
  pub ppid : Text

abbrev pub inicial : Registro
inicial = record {
  in_syscall = false;
  encontrado = false;
  comm = no_registrado;
  exe = no_registrado;
  tty = no_registrado;
  uid = no_registrado;
  ppid = no_registrado;
}

-- `(p = strstr(line, key)) && sscanf(p + strlen(key), conversion, …) == 1`: what is stored.
unfoldable pub campo : (Text → Option (Text × Text)) → Text → Text → Option Text
campo conversion key line = elim (strstr line key) [
  | none ↦ none
  | some p ↦ elim (conversion (drop (length key) p)) [ none ↦ none | some (v, _) ↦ some v ]
]

-- A buffer after such a test, and whether `encontrado` is set.
abbrev pub guardado : Option Text → Text → Text
guardado none old = old
guardado (some v) old = v

abbrev pub hallado : Option Text → Bool
hallado none = false
hallado (some _) = true

-- The five tests on a line of the block.
unfoldable pub extraer : Registro → Text → Registro
extraer r line =
    let comm = campo (scan_until b'"' 127) (codes "comm=\"") line in
    let exe = campo (scan_until b'"' 255) (codes "exe=\"") line in
    let tty = campo (scan_word 63) (codes "tty=") line in
    let uid = campo (scan_word 31) (codes "uid=") line in
    let ppid = campo (scan_word 31) (codes "ppid=") line in
    record {
      in_syscall = r.in_syscall;
      encontrado =
          r.encontrado || hallado comm || hallado exe || hallado tty || hallado uid || hallado ppid;
      comm = guardado comm r.comm;
      exe = guardado exe r.exe;
      tty = guardado tty r.tty;
      uid = guardado uid r.uid;
      ppid = guardado ppid r.ppid;
    }

-- The start of a block.
unfoldable pub abrir : Registro → Text → Registro
abrir r line =
    if contains line (codes "type=SYSCALL")
    then record r { in_syscall = true; encontrado = false }
    else r

-- One round of the loop, and whether it ends with `break`.
unfoldable pub paso : Registro → Text → Registro × Bool
unfolding abrir extraer
paso r line =
    let r' = abrir r line in
    if r'.in_syscall
    then (if contains line (codes "type=PATH") then (r', true) else (extraer r' line, false))
    else (r', false)

unfoldable pub leer : Registro → List Text → Registro
leer r [] = r
leer r (line ∷ lines) =
    let s = paso r line in let rest = leer s.0 lines in if s.1 then s.0 else rest

pub data Origen : Type 0 where
  script gestor_archivos manual contenedor desconocido : Origen

unfoldable pub es_script : Text → Bool
es_script t =
    contains t (codes "bash")
    || contains t (codes "sh")
    || contains t (codes "python")
    || contains t (codes "perl")

unfoldable pub es_gestor : Text → Bool
es_gestor t =
    contains t (codes "nautilus") || contains t (codes "dolphin") || contains t (codes "thunar")

unfoldable pub es_contenedor : Text → Bool
es_contenedor t =
    contains t (codes "java") || contains t (codes "docker") || contains t (codes "containerd")

unfoldable pub origen : Text → Text → Text → Origen
unfolding es_script es_gestor es_contenedor
origen tty exe parent_comm =
    if not (str_eq tty no_registrado)
      && not (str_eq tty (codes "?"))
      && not (str_eq tty (codes "(none)"))
    then (if es_script exe then script else if es_gestor exe then gestor_archivos else manual)
    else if es_script parent_comm
    then script
    else if es_contenedor parent_comm
    then contenedor
    else if es_gestor exe
    then gestor_archivos
    else desconocido

-- What is printed.
pub data Informe : Type 0 where
  popen_failed : Informe
  sin_registro : Text → Informe
  responsable : Text → Registro → Text → Text → Origen → Informe

-- The text up to `strcspn(s, "\n")`.
unfoldable pub sin_salto : Text → Text
sin_salto [] = []
sin_salto (c ∷ s) = let rest = sin_salto s in if c == newline then [] else c ∷ rest

unfoldable pub comando : Text → Text
comando archivo =
    fit 512 (codes "/usr/sbin/ausearch -f \"" ++ archivo ++ codes "\" -ts recent 2>/dev/null")

-- `popen` as the system answers it: the output of a command, or `none` when it cannot be run.
module _ (popen : Text → Option Text) where
  -- A question to `ps`. When `popen` fails the code still calls `pclose` on the null pointer.
  unfoldable pub preguntar : ℕ → Text → Exec Text
  unfolding sin_salto
  preguntar size cmd = elim (popen cmd) [
    | none ↦ crash
    | some out ↦ ok (elim (fgets_lines size out) [
      | [] ↦ codes "(error o no encontrado)"
      | line ∷ _ ↦ sin_salto line
    ])
  ]

  unfoldable pub padre : ℕ → Text → Text → Exec Text
  unfolding preguntar
  padre size campo_ps ppid =
      if str_eq ppid no_registrado
      then ok no_registrado
      else preguntar size
          (fit 256 (codes "ps -o " ++ campo_ps ++ codes "= -p " ++ ppid ++ codes " 2>/dev/null"))

  unfoldable pub informar : Text → Registro → Exec Informe
  unfolding padre origen
  informar archivo r = do
    parent_comm ← padre 128 (codes "comm") r.ppid
    parent_cmd ← padre 256 (codes "cmd") r.ppid
    ok (responsable archivo r parent_comm parent_cmd (origen r.tty r.exe parent_comm))

  unfoldable pub mostrar_proceso_modificador : Text → Exec Informe
  mostrar_proceso_modificador archivo = elim (popen (comando archivo)) [
    | none ↦ ok popen_failed
    | some out ↦
        let r = leer inicial (fgets_lines 1024 out) in
        if r.encontrado then informar archivo r else ok (sin_registro archivo)
  ]
