-- ===== src/Salon/Window.antt =====
-- Salon/UI.c: the main window. Its buttons, the timer that shows what the patrol printed, the
-- thread that reads the patrol, and the watches on the monitors that `do_all` starts, interleaved
-- in any order. The events that are handled while a scan of ports is read may start another one.
pub mod Sane
pub mod Invariant
pub mod Report
pub mod Ports
pub mod Watch
pub mod Command
use antibawirus.Common.{
  ℕ, suc, ◌<◌, ◌≡◌, Bool, true, false, ◌||◌, List, [], ◌∷◌, ◌++◌, Option, none, some, ◌==◌,
  if◌then◌else◌, In,
}
use antibawirus.Common.Text.{Text, codes, fit, fgets_lines}
use antibawirus.Salon.Glib.{Glib}
use antibawirus.Salon.Buffer.{TextBuffer}
use antibawirus.Salon.Tables.{Lectura, normal, eof, otra}

-- `text[0] == '\0'`
unfoldable pub vacio : Text → Bool
vacio [] = true
vacio (c ∷ s) = false

unfoldable pub range_arg : Text → Text → Text
range_arg first last = fit 64 (first ++ b'-' ∷ last)

abbrev pub scanner : Text
scanner = codes "\"../Defensores de las Murallas/scanner\" "

-- The command that the shell is given.
unfoldable pub orden : Text → Text → Text
unfolding range_arg
orden first last = fit 256 (scanner ++ range_arg first last)

-- The identifiers without one of them.
unfoldable pub quitar : ℕ → List ℕ → List ℕ
quitar n [] = []
quitar n (m ∷ ms) = let rest = quitar n ms in if m == n then rest else m ∷ rest

-- The thread that reads what the patrol prints.
pub data Usb : Type 0 where
  nuevo acabado : Usb
  leyendo : List Text → Usb

module _ (tb : TextBuffer) where
  -- The global variables; then the refreshing timers that are installed, the lines that each
  -- unfinished scan of ports has yet to read (the innermost first), the commands run, the children
  -- started and the arguments of each, those sent SIGTERM, those watched, the exports that have not
  -- returned, and the texts that they have drawn on a page.
  pub record Ventana : Type 0 where
    pub buffer : tb.Buffer
    pub scroll : Bool
    pub exit_button : Bool
    pub usb_refresh_timeout_id : ℕ
    pub usb_scan_output : Text
    pub guardia_pid : ℕ
    pub aux : Bool
    pub usb : Usb
    pub timers : List ℕ
    pub puertos : List (List Text)
    pub ordenes : List Text
    pub hijos : List ℕ
    pub argvs : List (List Text)
    pub senales : List ℕ
    pub vigilados : List ℕ
    pub exportando : ℕ
    pub pdf : List Text

  -- The state in which `main` enters its loop.
  abbrev pub inicial : Ventana
  inicial = record {
    buffer = tb.empty_buffer;
    scroll = false;
    exit_button = false;
    usb_refresh_timeout_id = 0;
    usb_scan_output = [];
    guardia_pid = 0;
    aux = false;
    usb = nuevo;
    timers = [];
    puertos = [];
    ordenes = [];
    hijos = [];
    argvs = [];
    senales = [];
    vigilados = [];
    exportando = 0;
    pdf = [];
  }

  abbrev pub mostrar : Ventana → Ventana
  mostrar v = record v { scroll = true; exit_button = true }

  abbrev pub insertar : Text → Ventana → Ventana
  insertar t v = record v { buffer = tb.insert_at_cursor t v.buffer }

  abbrev pub poner : Text → Ventana → Ventana
  poner t v = record v { buffer = tb.set_text t v.buffer }

  -- `popen`, with what the command prints if it starts, and one round of the loop, per call.
  unfoldable pub usb_scan_thread : Option Text → Ventana → Ventana
  usb_scan_thread salida v = elim v.usb [
    | nuevo ↦ elim salida [
      | none ↦ record v {
        usb = acabado;
        usb_scan_output = v.usb_scan_output ++ codes "Error al ejecutar escaneo USB.\n";
      }
      | some text ↦ record v { usb = leyendo (fgets_lines 512 text) }
    ]
    | leyendo lines ↦ elim lines [
      | [] ↦ record v { usb = acabado }
      | ◌∷◌ line rest ↦ record v { usb = leyendo rest; usb_scan_output = v.usb_scan_output ++ line }
    ]
    | acabado ↦ v
  ]

  abbrev pub refresh_usb_output : Ventana → Ventana
  refresh_usb_output v = poner v.usb_scan_output v

  -- `id` is what `g_timeout_add_seconds` returns.
  unfoldable pub on_scan_clicked : ℕ → Ventana → Ventana
  on_scan_clicked id v =
      if v.usb_refresh_timeout_id == 0
      then record (mostrar v) { usb_refresh_timeout_id = id; timers = id ∷ v.timers }
      else v

  unfoldable pub abrir_puertos : Option Text → Ventana → Ventana
  abrir_puertos none v = insertar (codes "Error al ejecutar el escáner de puertos.\n") v
  abrir_puertos (some text) v = record v { puertos = fgets_lines 512 text ∷ v.puertos }

  -- Up to the loop that reads the scanner.
  unfoldable pub on_scan_port_clicked : Text → Text → Option Text → Ventana → Ventana
  unfolding vacio abrir_puertos orden
  on_scan_port_clicked first last salida v =
      if vacio first || vacio last
      then poner (codes "Debe especificar ambos puertos.\n") v
      else abrir_puertos salida
          (record (poner (codes "Iniciando escaneo de puertos...\n") (mostrar v)) {
            ordenes = v.ordenes ++ (orden first last ∷ []);
          })

  -- One round of that loop, in the innermost call; it ends with the lines.
  unfoldable pub leer_puertos : List (List Text) → Ventana → Ventana
  leer_puertos [] v = v
  leer_puertos ([] ∷ outer) v = record v { puertos = outer }
  leer_puertos ((line ∷ lines) ∷ outer) v = record (insertar line v) { puertos = lines ∷ outer }

  module _ (g : Glib) where
    unfoldable pub guardia_io_cb : ℕ → Lectura → Ventana → Ventana
    unfolding quitar
    guardia_io_cb pid (normal line) v =
        if g.str_has_prefix line (codes "ALERTA_") then insertar line v else v
    guardia_io_cb pid eof v = record v { vigilados = quitar pid v.vigilados }
    guardia_io_cb pid otra v = record v { vigilados = quitar pid v.vigilados }

  abbrev pub insertar_lineas : List Text → Ventana → Ventana
  insertar_lineas [] v = v
  insertar_lineas (line ∷ lines) v = insertar_lineas lines (insertar line v)

  -- The four parts of `do_all`.
  abbrev pub todo_usb : Ventana → Ventana
  todo_usb v = insertar (codes "\n") (
      insertar v.usb_scan_output
        (insertar (codes "==== Escaneo USB ====\n") (mostrar (poner [] v))))

  unfoldable pub todo_puertos : Text → Text → Option Text → Ventana → Ventana
  unfolding orden
  todo_puertos first last salida v =
      let abierta = record (insertar (codes "==== Escaneo de Puertos ====\n") v) {
        ordenes = v.ordenes ++ (orden first last ∷ []);
      } in
      insertar (codes "\n") (elim salida [
        | none ↦ insertar (codes "Error al ejecutar el escáner de puertos.\n") abierta
        | some text ↦ insertar_lineas (fgets_lines 512 text) abierta
      ])

  -- The thresholds are handed to the monitor as they stand in the entries; `child` is its pid, if `g_spawn_async_with_pipes` starts it.
  unfoldable pub todo_guardia : Text → Text → Option ℕ → Ventana → Ventana
  todo_guardia cpu mem child v =
      let titulada = insertar (codes "==== Alertas de Procesos ====\n") v in
      elim child [
        | some pid ↦ record titulada {
          guardia_pid = pid;
          hijos = v.hijos ++ (pid ∷ []);
          argvs = v.argvs ++ ((cpu ∷ (mem ∷ [])) ∷ []);
          vigilados = v.vigilados ++ (pid ∷ []);
        }
        | none ↦ insertar (codes "Error al ejecutar guardia_info.\n") titulada
      ]

  unfoldable pub matar : Ventana → Ventana
  matar v =
      if v.guardia_pid == 0
      then v
      else record v { senales = v.senales ++ (v.guardia_pid ∷ []); guardia_pid = 0 }

  unfoldable pub do_all : Text → Text → Text → Text → Option Text → Option ℕ → Ventana → Ventana
  unfolding todo_puertos todo_guardia matar
  do_all first last cpu mem salida child v =
      let fin = matar (todo_guardia cpu mem child (todo_puertos first last salida (todo_usb v))) in
      record fin { aux = true }

  unfoldable pub parar_refresco : Ventana → Ventana
  unfolding quitar
  parar_refresco v = if v.usb_refresh_timeout_id == 0 then v else record v {
    timers = quitar v.usb_refresh_timeout_id v.timers;
    usb_refresh_timeout_id = 0;
  }

  -- The end of `on_hide_text`.
  unfoldable pub ocultar : Ventana → Ventana
  unfolding parar_refresco
  ocultar v = parar_refresco (record v { scroll = false; exit_button = false })

  -- `on_hide_text`, if there is nothing to export; and else up to `gtk_print_operation_run`, which
  -- handles other events before it returns.
  unfoldable pub on_hide_text : Ventana → Ventana
  unfolding ocultar
  on_hide_text v =
      if v.aux then record v { aux = false; exportando = suc v.exportando } else ocultar v

  -- The handler of "draw-page" draws the text of that moment.
  abbrev pub print_page_cb : Ventana → Ventana
  print_page_cb v = record v { pdf = v.pdf ++ (tb.get_text v.buffer ∷ []) }

  -- `usb` is what the patrol prints, if the thread can start it. GLib's identifiers and the pids of
  -- children are positive.
  module _ (g : Glib) (usb : Option Text) where
    pub data Step (v : Ventana) : Ventana → Type 0 where
      hilo_usb : Step v (usb_scan_thread usb v)
      refresca : (id : ℕ) → In id v.timers → Step v (refresh_usb_output v)
      escanea : (id : ℕ) → 0 < id → Step v (on_scan_clicked id v)
      escanea_puertos :
          (first last : Text) (salida : Option Text)
          → Step v (on_scan_port_clicked first last salida v)
      lee_puertos : Step v (leer_puertos v.puertos v)
      escucha : (pid : ℕ) (r : Lectura) → In pid v.vigilados → Step v (guardia_io_cb g pid r v)
      todo :
          (first last cpu mem : Text) (salida : Option Text) (pid : ℕ)
          → Step v (do_all first last cpu mem salida (some (suc pid)) v)
      todo_sin_guardia :
          (first last cpu mem : Text) (salida : Option Text)
          → Step v (do_all first last cpu mem salida none v)
      cierra : v.exit_button ≡ true → Step v (on_hide_text v)
      -- During an export GTK asks for a page, if it does; and an export returns, whether it has
      -- succeeded or not.
      dibuja : (n : ℕ) → v.exportando ≡ suc n → Step v (print_page_cb v)
      acaba_exportacion :
          (n : ℕ) → v.exportando ≡ suc n → Step v (ocultar (record v { exportando = n }))
      -- The user moves the cursor.
      mueve :
          (b : tb.Buffer) → tb.get_text b ≡ tb.get_text v.buffer → Step v (record v { buffer = b })

    pub data Reach (v : Ventana) : Ventana → Type 0 where
      aqui : Reach v v
      sigue : {w u : Ventana} → Reach v w → Step w u → Reach v u
