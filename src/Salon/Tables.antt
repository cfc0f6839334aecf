-- ===== src/Salon/Tables.antt =====
-- Salon/UI.c, lines 47 to 195: the callbacks that read the monitor's lines, into a table or a text.
pub mod Processes
pub mod Alerts
pub mod Stream
use antibawirus.Common.{
  Bool, true, false, ◌&&◌, not, List, [], ◌∷◌, ◌++◌, Option, none, some, if◌then◌else◌,
}
use antibawirus.Common.Text.{Text, codes, str_eq, strchr}
use antibawirus.Common.Text.Scan.{scan_until, scan_word, skip_space, literal}
use antibawirus.Salon.Glib.{Glib}
use antibawirus.Salon.Buffer.{TextBuffer}

-- What `g_io_channel_read_line` returns: a line, the end of the file, or neither.
pub data Lectura : Type 0 where
  normal : Text → Lectura
  eof otra : Lectura

-- What a callback leaves: the rows of the table, whether it stays installed, and the line that it
-- calls malformed.
pub record Tabla (Fila : Type 0) : Type 0 where
  pub store : List Fila
  pub sigue : Bool
  pub malformada : Option Text

abbrev pub con : {Fila : Type 0} → List Fila → Tabla Fila
con store = record { store = store; sigue = true; malformada = none }

pub record FilaProceso : Type 0 where
  pub pid : Text
  pub nombre : Text
  pub cpu : Text
  pub ram : Text
  pub mem_virtual : Text
  pub hilos : Text

pub record FilaAlerta : Type 0 where
  pub pid : Text
  pub tipo : Text
  pub valor : Text
  pub nombre : Text

-- `sscanf` stops at the first conversion or literal that fails.
infixl 5 ◌>>=◌
abbrev ◌>>=◌ : {A B : Type 0} → Option A → (A → Option B) → Option B
none >>= f = none
some a >>= f = f a

abbrev pub literals : Text → Text → Option Text
literals [] s = some s
literals (c ∷ cs) s = literal c s >>= literals cs

-- `sscanf(line, "%31[^:]: %31[^%%]%% | Nombre: %127[^|] | PID: %31s", …)`, if it makes all of the
-- four conversions: the type, the value, the name and the pid. White space in the format skips any,
-- and so do `%%` and `%s`.
unfoldable pub analizar : Text → Option (Text × Text × Text × Text)
unfolding skip_space literal
analizar line = do
  (tipo, r1) ← scan_until b':' 31 line
  r2 ← literal b':' r1
  (valor, r3) ← scan_until b'%' 31 (skip_space r2)
  r4 ← literal b'%' (skip_space r3)
  r5 ← literal b'|' (skip_space r4)
  r6 ← literals (codes "Nombre:") (skip_space r5)
  (nombre, r7) ← scan_until b'|' 127 (skip_space r6)
  r8 ← literal b'|' (skip_space r7)
  r9 ← literals (codes "PID:") (skip_space r8)
  (pid, _) ← scan_word 31 r9
  some (tipo, valor, nombre, pid)

unfoldable pub tipo_mostrar : Text → Text
tipo_mostrar tipo =
    if str_eq tipo (codes "ALERTA_USO_CPU")
    then codes "Uso CPU"
    else if str_eq tipo (codes "ALERTA_USO_RAM")
    then codes "Uso RAM"
    else if str_eq tipo (codes "ALERTA_PICO_CPU")
    then codes "Pico CPU"
    else if str_eq tipo (codes "ALERTA_PICO_RAM")
    then codes "Pico RAM"
    else tipo

-- At most 511 characters are read at a time; nothing connects this callback. It also leaves whether
-- it stays installed.
module _ (tb : TextBuffer) where
  unfoldable pub read_guardia_info : Lectura → tb.Buffer → tb.Buffer × Bool
  read_guardia_info (normal []) buffer = (buffer, true)
  read_guardia_info (normal (c ∷ chars)) buffer = (tb.insert_at_cursor (c ∷ chars) buffer, true)
  read_guardia_info eof buffer = (buffer, false)
  read_guardia_info otra buffer = (buffer, true)

module _ (g : Glib) where
  -- The first six fields; fewer make the line malformed.
  unfoldable pub agregar_proceso : Text → List Text → List FilaProceso → Tabla FilaProceso
  agregar_proceso line (a ∷ b ∷ c ∷ d ∷ e ∷ f ∷ rest) store = con (
      store
      ++ (record { pid = a; nombre = b; cpu = c; ram = d; mem_virtual = e; hilos = g.strchomp f }
          ∷ []))
  agregar_proceso line fields store = record { store = store; sigue = true; malformada = some line }

  unfoldable pub read_guardia_info_table : Lectura → List FilaProceso → Tabla FilaProceso
  unfolding agregar_proceso
  read_guardia_info_table (normal line) store =
      if g.str_has_prefix line (codes "NUEVA_ITERACION") then con [] else elim (strchr line b';') [
        | none ↦ con store
        | some _ ↦ agregar_proceso line (g.strsplit line b';') store
      ]
  read_guardia_info_table eof store = record { store = store; sigue = false; malformada = none }
  read_guardia_info_table otra store = con store

  unfoldable pub is_alert : Text → Bool
  is_alert line = not (
      not (g.str_has_prefix line (codes "ALERTA_USO_CPU"))
      && not (g.str_has_prefix line (codes "ALERTA_PICO_CPU"))
      && not (g.str_has_prefix line (codes "ALERTA_USO_RAM"))
      && not (g.str_has_prefix line (codes "ALERTA_PICO_RAM")))

  -- `formato v` is what `g_strdup_printf` makes of `%.2f%%` for the number that `g_ascii_strtod`
  -- reads from `v`.
  module _ (formato : Text → Text) where
    unfoldable pub agregar_alerta :
        Text → Option (Text × Text × Text × Text) → List FilaAlerta → Tabla FilaAlerta
    unfolding tipo_mostrar
    agregar_alerta line none store = record { store = store; sigue = true; malformada = some line }
    agregar_alerta line (some (tipo, valor, nombre, pid)) store = con (
        store
        ++ (record { pid = pid; tipo = tipo_mostrar tipo; valor = formato valor; nombre = nombre }
            ∷ []))

    unfoldable pub read_guardia_alertas_table : Lectura → List FilaAlerta → Tabla FilaAlerta
    unfolding is_alert agregar_alerta analizar
    read_guardia_alertas_table (normal line) store =
        if g.str_has_prefix line (codes "NUEVA_ITERACION")
        then con []
        else if is_alert line
        then agregar_alerta (g.strchomp line) (analizar (g.strchomp line)) store
        else con store
    read_guardia_alertas_table eof store = record {
      store = store;
      sigue = false;
      malformada = none;
    }
    read_guardia_alertas_table otra store = con store
