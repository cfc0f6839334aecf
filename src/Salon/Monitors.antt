-- ===== src/Salon/Monitors.antt =====
-- Salon/UI.c: the windows that show the monitor's processes and its alerts, from the click that
-- opens one to the button "Detener". Both are built alike; they differ in the callback that reads.
pub mod Lifetime
use antibawirus.Common.{
  ℕ, zero, suc, ◌≡◌, Bool, true, false, ◌&&◌, ◌||◌, List, [], ◌∷◌, ◌++◌, Option, none, some,
  if◌then◌else◌, length, leb,
}
use antibawirus.Common.Text.{Text, codes, strchr}
use antibawirus.Salon.Glib.{Glib}
use antibawirus.Salon.Tables.{Lectura, normal, eof, otra, Tabla, is_alert, analizar}
use antibawirus.Salon.Window.{vacio}

-- The message of a dialog.
pub data Aviso : Type 0 where
  faltan_umbrales error_guardia : Aviso

-- `TableProcessData`, but for the rows of its store, which GTK keeps.
pub record TableProcessData : Type 0 where
  pub child_pid : ℕ
  pub io_channel : Bool
  pub window : Bool

-- The message that is shown in the place of the menu with the buttons of the two windows.
unfoldable pub on_monitoring_clicked : Text → Text → Option Aviso
unfolding vacio
on_monitoring_clicked cpu_text mem_text =
    if vacio cpu_text || vacio mem_text then some faltan_umbrales else none

module _ (Fila : Type 0) where
  -- What belongs to one window: whether it is open, the structure, if it was made and is not freed,
  -- whether the watch and the button are connected, the rows, the monitor's arguments, the signals
  -- sent, and whether the freed structure was read.
  pub record Sesion : Type 0 where
    pub abierta : Bool
    pub pdata : Option TableProcessData
    pub vigilado : Bool
    pub boton : Bool
    pub store : List Fila
    pub argv : List Text
    pub aviso : Option Aviso
    pub senales : List ℕ
    pub roto : Bool

  abbrev pub sin_monitor : Sesion
  sin_monitor = record {
    abierta = true;
    pdata = none;
    vigilado = false;
    boton = false;
    store = [];
    argv = [];
    aviso = none;
    senales = [];
    roto = false;
  }

  -- `umbral` is `printf("%.2f", atof(text))`, and `child` the pid, if the monitor can be started.
  unfoldable pub abrir : (Text → Text) → Text → Text → Option ℕ → Sesion
  unfolding vacio
  abrir umbral cpu_text mem_text child =
      if vacio cpu_text || vacio mem_text
      then record sin_monitor { aviso = some faltan_umbrales }
      else elim child [
        | none ↦ record sin_monitor { aviso = some error_guardia }
        | some pid ↦ record sin_monitor {
          pdata = some (record { child_pid = pid; io_channel = true; window = true });
          vigilado = true;
          boton = true;
          argv = umbral cpu_text ∷ (umbral mem_text ∷ []);
        }
      ]

  abbrev pub senal : ℕ → List ℕ
  senal zero = []
  senal (suc pid) = suc pid ∷ []

  -- "Detener", on the structure that it was connected with.
  abbrev pub parar : Option TableProcessData → Sesion → Sesion
  parar none s = record s { roto = true }
  parar (some d) s = record s {
    senales = s.senales ++ senal d.child_pid;
    abierta = if d.window then false else s.abierta;
    boton = if d.window then false else s.boton;
    pdata = none;
  }

  unfoldable pub stop_table_guardia_info : Sesion → Sesion
  stop_table_guardia_info s = parar s.pdata s

  -- The callback, and which lines make it use the structure.
  module _ (leer : Lectura → List Fila → Tabla Fila) (toca : Lectura → Bool) where
    abbrev pub leida : Option TableProcessData → Lectura → Sesion → Sesion
    leida none r s = record s { roto = s.roto || toca r; vigilado = (leer r s.store).sigue }
    leida (some d) r s = record s {
      store = (leer r s.store).store;
      vigilado = (leer r s.store).sigue;
    }

    unfoldable pub leer_tabla : Lectura → Sesion → Sesion
    leer_tabla r s = leida s.pdata r s

    pub data Step (s : Sesion) : Sesion → Type 0 where
      detiene : s.boton ≡ true → Step s (stop_table_guardia_info s)
      lee : (r : Lectura) → s.vigilado ≡ true → Step s (leer_tabla r s)
      -- The window is closed by its frame; nothing is connected to that.
      cierra_marco : s.abierta ≡ true → Step s (record s { abierta = false; boton = false })

    pub data Reach (s : Sesion) : Sesion → Type 0 where
      aqui : Reach s s
      sigue : {t u : Sesion} → Reach s t → Step t u → Reach s u

abbrev seis : List Text → Bool
seis fields = leb 6 (length fields)

module _ (g : Glib) where
  unfoldable pub toca_info : Lectura → Bool
  toca_info (normal line) =
      g.str_has_prefix line (codes "NUEVA_ITERACION")
      || elim (strchr line b';') [ none ↦ false | some _ ↦ seis (g.strsplit line b';') ]
  toca_info eof = false
  toca_info otra = false

  unfoldable pub toca_alertas : Lectura → Bool
  toca_alertas (normal line) =
      g.str_has_prefix line (codes "NUEVA_ITERACION")
      || (is_alert g line && elim (analizar (g.strchomp line)) [ none ↦ false | some _ ↦ true ])
  toca_alertas eof = false
  toca_alertas otra = false
