-- ===== src/Salon/Window/Sane.antt =====
-- UI.c, the main window: what its events keep, the two that end with a report aside.
use mathlib.Core.List.{append_assoc, append-nil}
use antibawirus.Common.{
  ℕ, ◌<◌, ◌≡◌, refl, sym, ap, ◌⊎◌, inl, inr, Bool, true, List, [], ◌∷◌, ◌++◌, Option, none, some,
  arith, ◌==◌, subst, Bool-cases, ◌||◌,
}
use antibawirus.Common.Text.{Text, codes, fgets_lines, concat, concat-fgets_lines}
use antibawirus.Salon.Glib.{Glib}
use antibawirus.Salon.Buffer.{TextBuffer}
use antibawirus.Salon.Tables.{Lectura, normal, eof, otra}
use antibawirus.Salon.Window.{
  Usb, nuevo, acabado, leyendo, quitar, Ventana, inicial, usb_scan_thread, on_scan_clicked,
  on_scan_port_clicked, vacio, abrir_puertos, leer_puertos, guardia_io_cb, insertar, mostrar, poner,
  orden,
}

-- What the patrol prints is what the window has of it and what its thread has yet to read.
abbrev pub UsbText : Option Text → Text → Usb → Type 0
UsbText salida shown nuevo = shown ≡ []
UsbText salida shown (leyendo lines) = salida ≡ some (shown ++ concat lines)
UsbText salida shown acabado =
    (salida ≡ some shown) ⊎ ((salida ≡ none) × (shown ≡ codes "Error al ejecutar escaneo USB.\n"))

-- The only timer installed is the one whose identifier is kept, and there is none if that is zero.
abbrev pub Timers : ℕ → List ℕ → Bool → Type 0
Timers id timers shown =
    ((id ≡ 0) × (timers ≡ [])) ⊎ ((0 < id) × (timers ≡ id ∷ []) × (shown ≡ true))

module _ (tb : TextBuffer) where
  -- The text and the button that closes it are shown together. A timer that refreshes the text is
  -- installed only while it is shown, never a second one, and its identifier is kept. Every monitor
  -- that was started has been stopped. What the patrol has printed is kept without loss.
  pub record IsSane (usb : Option Text) (v : Ventana tb) : Type 0 where
    pub together : v.scroll ≡ v.exit_button
    pub timer : Timers v.usb_refresh_timeout_id v.timers v.scroll
    pub stopped : v.guardia_pid ≡ 0
    pub signalled : v.senales ≡ v.hijos
    pub patrol : UsbText usb v.usb_scan_output v.usb

  pub inicial-IsSane : (usb : Option Text) → IsSane usb (inicial tb)
  inicial-IsSane usb = record {
    together = refl;
    timer = inl (refl, refl);
    stopped = refl;
    signalled = refl;
    patrol = refl;
  }

  -- The text, the scans of ports and the watches are free.
  pub moved-IsSane :
      {usb : Option Text} (v : Ventana tb) (b : tb.Buffer) (puertos : List (List Text))
      (ordenes : List Text) (vigilados : List ℕ)
      → IsSane usb v
      → IsSane usb
          (record v { buffer = b; puertos = puertos; ordenes = ordenes; vigilados = vigilados })
  moved-IsSane v b puertos ordenes vigilados h = record {
    together = h.together;
    timer = h.timer;
    stopped = h.stopped;
    signalled = h.signalled;
    patrol = h.patrol;
  }

  -- So are the exports.
  pub exporting-IsSane :
      {usb : Option Text} (v : Ventana tb) (aux : Bool) (exportando : ℕ) (pdf : List Text)
      → IsSane usb v
      → IsSane usb (record v { aux = aux; exportando = exportando; pdf = pdf })
  exporting-IsSane v aux exportando pdf h = record {
    together = h.together;
    timer = h.timer;
    stopped = h.stopped;
    signalled = h.signalled;
    patrol = h.patrol;
  }

  Timers-shown : (id : ℕ) (timers : List ℕ) (b : Bool) → Timers id timers b → Timers id timers true
  Timers-shown id timers b (inl t) = inl t
  Timers-shown id timers b (inr (pos, one, _)) = inr (pos, one, refl)

  pub Timers-zero :
      (id : ℕ) (timers : List ℕ) (b : Bool) → (id == 0) ≡ true → Timers id timers b → timers ≡ []
  Timers-zero id timers b e (inl (_, none_left)) = none_left
  Timers-zero id timers b e (inr (pos, _, _)) = let z : ⊥ = ground (arith, e, pos) in elim z [ ]

  pub mostrar-IsSane :
      {usb : Option Text} (v : Ventana tb) → IsSane usb v → IsSane usb (mostrar tb v)
  mostrar-IsSane v h = record {
    together = refl;
    timer = Timers-shown v.usb_refresh_timeout_id v.timers v.scroll h.timer;
    stopped = h.stopped;
    signalled = h.signalled;
    patrol = h.patrol;
  }

  usb-IsSane :
      {usb : Option Text} (v : Ventana tb) (text : Text) (state : Usb)
      → UsbText usb text state
      → IsSane usb v
      → IsSane usb (record v { usb_scan_output = text; usb = state })
  usb-IsSane v text state p h = record {
    together = h.together;
    timer = h.timer;
    stopped = h.stopped;
    signalled = h.signalled;
    patrol = p;
  }

  hilo-UsbText :
      (salida : Option Text) (v : Ventana tb) (state : Usb)
      → v.usb ≡ state
      → UsbText salida v.usb_scan_output state
      → UsbText salida
          (usb_scan_thread tb salida v).usb_scan_output
          (usb_scan_thread tb salida v).usb
  unfolding usb_scan_thread
  hilo-UsbText none v nuevo e p = rw (e, p) (inr (refl, refl))
  hilo-UsbText (some text) v nuevo e p = rw (e, p) (ap some (sym (concat-fgets_lines 512 text)))
  hilo-UsbText salida v (leyendo []) e p = rw e (inl (rw append-nil at p))
  hilo-UsbText salida v (leyendo (line ∷ lines)) e p =
      rw e (rw (append_assoc v.usb_scan_output line (concat lines)) p)
  hilo-UsbText salida v acabado e p = rw e p

  hilo-form :
      (salida : Option Text) (v : Ventana tb) (state : Usb)
      → v.usb ≡ state
      → usb_scan_thread tb salida v ≡ record v {
        usb_scan_output = (usb_scan_thread tb salida v).usb_scan_output;
        usb = (usb_scan_thread tb salida v).usb;
      }
  unfolding usb_scan_thread
  hilo-form none v nuevo e = rw e refl
  hilo-form (some text) v nuevo e = rw e refl
  hilo-form salida v (leyendo []) e = rw e refl
  hilo-form salida v (leyendo (line ∷ lines)) e = rw e refl
  hilo-form salida v acabado e = rw e refl

  pub hilo-IsSane :
      (usb : Option Text) (v : Ventana tb) → IsSane usb v → IsSane usb (usb_scan_thread tb usb v)
  hilo-IsSane usb v h = subst (IsSane usb) (sym (hilo-form usb v v.usb refl)) (
      usb-IsSane v (usb_scan_thread tb usb v).usb_scan_output (usb_scan_thread tb usb v).usb
        (hilo-UsbText usb v v.usb refl h.patrol) h)

  pub escanea-IsSane :
      {usb : Option Text} (id : ℕ) (v : Ventana tb)
      → 0 < id
      → IsSane usb v
      → IsSane usb (on_scan_clicked tb id v)
  unfolding on_scan_clicked
  escanea-IsSane id v pos h = elim (Bool-cases (v.usb_refresh_timeout_id == 0)) [
    | inl e ↦ rw e record {
      together = refl;
      timer = inr (
        pos,
        ap (λ ts. id ∷ ts) (Timers-zero v.usb_refresh_timeout_id v.timers v.scroll e h.timer),
        refl,
      );
      stopped = h.stopped;
      signalled = h.signalled;
      patrol = h.patrol;
    }
    | inr e ↦ rw e h
  ]

  pub insertar-IsSane :
      {usb : Option Text} (t : Text) (v : Ventana tb) → IsSane usb v → IsSane usb (insertar tb t v)
  insertar-IsSane t v h =
      moved-IsSane v (tb.insert_at_cursor t v.buffer) v.puertos v.ordenes v.vigilados h

  pub poner-IsSane :
      {usb : Option Text} (t : Text) (v : Ventana tb) → IsSane usb v → IsSane usb (poner tb t v)
  poner-IsSane t v h = moved-IsSane v (tb.set_text t v.buffer) v.puertos v.ordenes v.vigilados h

  abrir-IsSane :
      {usb : Option Text} (salida : Option Text) (v : Ventana tb)
      → IsSane usb v
      → IsSane usb (abrir_puertos tb salida v)
  unfolding abrir_puertos
  abrir-IsSane none v h = insertar-IsSane _ v h
  abrir-IsSane (some text) v h =
      moved-IsSane v v.buffer (fgets_lines 512 text ∷ v.puertos) v.ordenes v.vigilados h

  pub puertos-IsSane :
      {usb : Option Text} (first last : Text) (salida : Option Text) (v : Ventana tb)
      → IsSane usb v
      → IsSane usb (on_scan_port_clicked tb first last salida v)
  unfolding on_scan_port_clicked
  puertos-IsSane first last salida v h = elim (Bool-cases (vacio first || vacio last)) [
    | inl e ↦ rw e (poner-IsSane _ v h)
    | inr e ↦
        let w = poner tb (codes "Iniciando escaneo de puertos...\n") (mostrar tb v) in
        let sane =
          poner-IsSane (codes "Iniciando escaneo de puertos...\n") (mostrar tb v)
            (mostrar-IsSane v h) in
        rw e (
          abrir-IsSane salida _ (
            moved-IsSane w w.buffer w.puertos (v.ordenes ++ (orden first last ∷ [])) w.vigilados
              sane))
  ]

  pub leer-IsSane :
      {usb : Option Text} (pending : List (List Text)) (v : Ventana tb)
      → IsSane usb v
      → IsSane usb (leer_puertos tb pending v)
  unfolding leer_puertos
  leer-IsSane [] v h = h
  leer-IsSane ([] ∷ outer) v h = moved-IsSane v v.buffer outer v.ordenes v.vigilados h
  leer-IsSane ((line ∷ lines) ∷ outer) v h =
      moved-IsSane v (tb.insert_at_cursor line v.buffer) (lines ∷ outer) v.ordenes v.vigilados h

  pub guardia-IsSane :
      {usb : Option Text} (g : Glib) (pid : ℕ) (r : Lectura) (v : Ventana tb)
      → IsSane usb v
      → IsSane usb (guardia_io_cb tb g pid r v)
  unfolding guardia_io_cb
  guardia-IsSane g pid (normal line) v h =
      elim (Bool-cases (g.str_has_prefix line (codes "ALERTA_"))) [
        | inl e ↦ rw e (insertar-IsSane line v h)
        | inr e ↦ rw e h
      ]
  guardia-IsSane g pid eof v h =
      moved-IsSane v v.buffer v.puertos v.ordenes (quitar pid v.vigilados) h
  guardia-IsSane g pid otra v h =
      moved-IsSane v v.buffer v.puertos v.ordenes (quitar pid v.vigilados) h
