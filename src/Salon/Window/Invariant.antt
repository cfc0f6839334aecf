-- ===== src/Salon/Window/Invariant.antt =====
-- UI.c, the main window: what holds in every state that its events lead to.
use antibawirus.Common.{
  ℕ, suc, ◌≡◌, refl, ap, ◌∙◌, inl, inr, Bool, true, false, List, [], ◌∷◌, ◌++◌, Option, none, some,
  arith, ◌==◌, ==_iff, Bool-cases, if◌then◌else◌,
}
use antibawirus.Common.Text.{Text, codes, fgets_lines}
use antibawirus.Salon.Glib.{Glib}
use antibawirus.Salon.Buffer.{TextBuffer}
use antibawirus.Salon.Window.{
  quitar, Ventana, inicial, insertar, insertar_lineas, todo_usb, todo_puertos, todo_guardia, matar,
  do_all, mostrar, orden, parar_refresco, ocultar, on_hide_text, Step, Reach, aqui, sigue, hilo_usb,
  refresca, escanea, escanea_puertos, lee_puertos, escucha, todo, todo_sin_guardia, cierra, dibuja,
  acaba_exportacion, mueve,
}
use antibawirus.Salon.Window.Sane.{
  Timers, IsSane, moved-IsSane, exporting-IsSane, mostrar-IsSane, hilo-IsSane, escanea-IsSane,
  insertar-IsSane, poner-IsSane, puertos-IsSane, leer-IsSane, guardia-IsSane, Timers-zero,
  inicial-IsSane,
}

module _ (tb : TextBuffer) where
  lineas-IsSane :
      {usb : Option Text} (lines : List Text) (v : Ventana tb)
      → IsSane tb usb v
      → IsSane tb usb (insertar_lineas tb lines v)
  lineas-IsSane [] v h = h
  lineas-IsSane (line ∷ lines) v h =
      lineas-IsSane lines (insertar tb line v) (insertar-IsSane tb line v h)

  todo_puertos-IsSane :
      {usb : Option Text} (first last : Text) (salida : Option Text) (v : Ventana tb)
      → IsSane tb usb v
      → IsSane tb usb (todo_puertos tb first last salida v)
  unfolding todo_puertos
  todo_puertos-IsSane first last none v h =
      moved-IsSane tb v _ v.puertos (v.ordenes ++ (orden first last ∷ [])) v.vigilados h
  todo_puertos-IsSane first last (some text) v h =
      let w = record (insertar tb (codes "==== Escaneo de Puertos ====\n") v) {
        ordenes = v.ordenes ++ (orden first last ∷ []);
      } in
      let opened = moved-IsSane tb v w.buffer v.puertos w.ordenes v.vigilados h in
      insertar-IsSane tb _ _ (lineas-IsSane (fgets_lines 512 text) w opened)

  suc_eq : (n : ℕ) → (suc n == 0) ≡ false
  suc_eq n = ground arith

  -- The monitor that is started is stopped at once.
  con_guardia-IsSane :
      {usb : Option Text} (cpu mem : Text) (pid : ℕ) (v : Ventana tb)
      → IsSane tb usb v
      → IsSane tb usb (matar tb (todo_guardia tb cpu mem (some (suc pid)) v))
  unfolding todo_guardia matar
  con_guardia-IsSane cpu mem pid v h = rw (suc_eq pid) record {
    together = h.together;
    timer = h.timer;
    stopped = refl;
    signalled = ap (λ l. l ++ (suc pid ∷ [])) h.signalled;
    patrol = h.patrol;
  }

  sin_guardia-IsSane :
      {usb : Option Text} (cpu mem : Text) (v : Ventana tb)
      → IsSane tb usb v
      → IsSane tb usb (matar tb (todo_guardia tb cpu mem none v))
  unfolding todo_guardia matar
  sin_guardia-IsSane cpu mem v h =
      rw ((==_iff v.guardia_pid 0).1 h.stopped)
        (moved-IsSane tb v _ v.puertos v.ordenes v.vigilados h)

  todo_usb-IsSane :
      {usb : Option Text} (v : Ventana tb) → IsSane tb usb v → IsSane tb usb (todo_usb tb v)
  todo_usb-IsSane v h =
      let w = todo_usb tb v in
      moved-IsSane tb (mostrar tb v) w.buffer v.puertos v.ordenes v.vigilados
        (mostrar-IsSane tb v h)

  aux-IsSane :
      {usb : Option Text} (v : Ventana tb)
      → IsSane tb usb v
      → IsSane tb usb (record v { aux = true })
  aux-IsSane v h = exporting-IsSane tb v true v.exportando v.pdf h

  either-IsSane :
      {usb : Option Text} (b : Bool) (v w : Ventana tb)
      → IsSane tb usb v
      → IsSane tb usb w
      → IsSane tb usb (if b then v else w)
  either-IsSane true v w h k = h
  either-IsSane false v w h k = k

  todo-IsSane :
      {usb : Option Text} (first last cpu mem : Text) (salida : Option Text) (pid : ℕ)
      (v : Ventana tb)
      → IsSane tb usb v
      → IsSane tb usb (do_all tb first last cpu mem salida (some (suc pid)) v)
  unfolding do_all
  todo-IsSane first last cpu mem salida pid v h = aux-IsSane _ (
      con_guardia-IsSane cpu mem pid _
        (todo_puertos-IsSane first last salida (todo_usb tb v) (todo_usb-IsSane v h)))

  todo_sin-IsSane :
      {usb : Option Text} (first last cpu mem : Text) (salida : Option Text) (v : Ventana tb)
      → IsSane tb usb v
      → IsSane tb usb (do_all tb first last cpu mem salida none v)
  unfolding do_all
  todo_sin-IsSane first last cpu mem salida v h = aux-IsSane _ (
      sin_guardia-IsSane cpu mem _
        (todo_puertos-IsSane first last salida (todo_usb tb v) (todo_usb-IsSane v h)))

  quitar-Timers :
      (id : ℕ) (timers : List ℕ) (b : Bool)
      → (id == 0) ≡ false
      → Timers id timers b
      → quitar id timers ≡ []
  unfolding quitar
  quitar-Timers id timers b e (inl (_, none_left)) = ap (quitar id) none_left
  quitar-Timers id timers b e (inr (_, one, _)) =
      ap (quitar id) one ∙ rw ((==_iff id id).1 refl) refl

  ocultar-IsSane :
      {usb : Option Text} (v : Ventana tb) → IsSane tb usb v → IsSane tb usb (ocultar tb v)
  unfolding ocultar parar_refresco
  ocultar-IsSane v h = elim (Bool-cases (v.usb_refresh_timeout_id == 0)) [
    | inl e ↦ rw e record {
      together = refl;
      timer = inl (
        (==_iff v.usb_refresh_timeout_id 0).0 e,
        Timers-zero tb v.usb_refresh_timeout_id v.timers v.scroll e h.timer,
      );
      stopped = h.stopped;
      signalled = h.signalled;
      patrol = h.patrol;
    }
    | inr e ↦ rw e record {
      together = refl;
      timer = inl (refl, quitar-Timers v.usb_refresh_timeout_id v.timers v.scroll e h.timer);
      stopped = h.stopped;
      signalled = h.signalled;
      patrol = h.patrol;
    }
  ]

  ocultar_texto-IsSane :
      {usb : Option Text} (v : Ventana tb) → IsSane tb usb v → IsSane tb usb (on_hide_text tb v)
  unfolding on_hide_text
  ocultar_texto-IsSane v h =
      either-IsSane v.aux _ (ocultar tb v) (exporting-IsSane tb v false (suc v.exportando) v.pdf h)
        (ocultar-IsSane v h)

  Step-IsSane :
      (g : Glib) (usb : Option Text) (v w : Ventana tb)
      → Step tb g usb v w
      → IsSane tb usb v
      → IsSane tb usb w
  Step-IsSane g usb v w hilo_usb h = hilo-IsSane tb usb v h
  Step-IsSane g usb v w (refresca id i) h = poner-IsSane tb v.usb_scan_output v h
  Step-IsSane g usb v w (escanea id pos) h = escanea-IsSane tb id v pos h
  Step-IsSane g usb v w (escanea_puertos first last salida) h =
      puertos-IsSane tb first last salida v h
  Step-IsSane g usb v w lee_puertos h = leer-IsSane tb v.puertos v h
  Step-IsSane g usb v w (escucha pid r i) h = guardia-IsSane tb g pid r v h
  Step-IsSane g usb v w (todo first last cpu mem salida pid) h =
      todo-IsSane first last cpu mem salida pid v h
  Step-IsSane g usb v w (todo_sin_guardia first last cpu mem salida) h =
      todo_sin-IsSane first last cpu mem salida v h
  Step-IsSane g usb v w (cierra e) h = ocultar_texto-IsSane v h
  Step-IsSane g usb v w (dibuja n e) h =
      exporting-IsSane tb v v.aux v.exportando (v.pdf ++ (tb.get_text v.buffer ∷ [])) h
  Step-IsSane g usb v w (acaba_exportacion n e) h =
      ocultar-IsSane (record v { exportando = n }) (exporting-IsSane tb v v.aux n v.pdf h)
  Step-IsSane g usb v w (mueve b e) h = moved-IsSane tb v b v.puertos v.ordenes v.vigilados h

  -- From a state in which this holds, it holds after every sequence of events.
  Reach-from :
      (g : Glib) (usb : Option Text) (v w : Ventana tb)
      → Reach tb g usb v w
      → IsSane tb usb v
      → IsSane tb usb w
  Reach-from g usb v w aqui h = h
  Reach-from g usb v w (sigue r step) h = Step-IsSane g usb _ w step (Reach-from g usb v _ r h)

  -- In every state that the events of the window lead to, those handled during an export included,
  -- the results and the button that closes them are shown together; the refreshing timer is
  -- installed at most once, with the identifier that is kept, and only while the results are shown;
  -- every monitor that "Iniciar todo" has started has been stopped; and what the patrol has printed
  -- so far is kept without loss, all of it once its reader has ended.
  pub ventana-IsSane :
      (g : Glib) (usb : Option Text) (v : Ventana tb)
      → Reach tb g usb (inicial tb) v
      → IsSane tb usb v
  ventana-IsSane g usb v r = Reach-from g usb (inicial tb) v r (inicial-IsSane tb usb)
