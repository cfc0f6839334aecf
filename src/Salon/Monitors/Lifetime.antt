-- ===== src/Salon/Monitors/Lifetime.antt =====
-- UI.c, the windows of the monitor: how long the monitor runs, and the structure lives.
use antibawirus.Common.{
  ℕ, suc, ◌≡◌, refl, sym, subst, ◌⊎◌, inl, inr, Bool, true, false, List, [], ◌∷◌, Option, none,
  some, Option-cases, Bool-cases, ◌||◌,
}
use antibawirus.Common.Text.{Text}
use antibawirus.Salon.Tables.{Lectura, Tabla}
use antibawirus.Salon.Window.{vacio}
use antibawirus.Salon.Monitors.{
  on_monitoring_clicked, faltan_umbrales, error_guardia, Sesion, abrir, stop_table_guardia_info,
  leer_tabla, Step, detiene, lee, cierra_marco, Reach, aqui, sigue,
}

-- While the entries that the menu was opened with stand, a window lacks no threshold: it has its
-- monitor, with the two thresholds as its arguments, or says that it cannot be started.
menu_accepts :
    (Fila : Type 0) (umbral : Text → Text) (cpu_text mem_text : Text) (child : Option ℕ)
    → on_monitoring_clicked cpu_text mem_text ≡ none
    → ((abrir Fila umbral cpu_text mem_text child).argv ≡ umbral cpu_text ∷ (umbral mem_text ∷ []))
      ⊎ ((child ≡ none) × ((abrir Fila umbral cpu_text mem_text child).aviso ≡ some error_guardia))
unfolding on_monitoring_clicked abrir
menu_accepts Fila umbral cpu_text mem_text child h =
    elim (Bool-cases (vacio cpu_text || vacio mem_text)) [
      | inl e ↦ let z : some faltan_umbrales ≡ none = rw e at h in cc
      | inr e ↦ elim (Option-cases child) [
        | inl n ↦ rw (e, n) (inr (refl, refl))
        | inr (pid, n) ↦ rw (e, n) (inl refl)
      ]
    ]

module _ (Fila : Type 0) (leer : Lectura → List Fila → Tabla Fila) (toca : Lectura → Bool) where
  abbrev pub IsRunning : ℕ → Sesion Fila → Type 0
  IsRunning pid s =
      (s.pdata ≡ some (record { child_pid = pid; io_channel = true; window = true }))
      × (s.senales ≡ [])
      × (s.roto ≡ false)

  -- The monitor was sent one SIGTERM, the structure that names it is freed, and the window is closed
  -- and its button gone.
  abbrev pub IsStopped : ℕ → Sesion Fila → Type 0
  IsStopped pid s =
      (s.pdata ≡ none) × (s.senales ≡ pid ∷ []) × (s.boton ≡ false) × (s.abierta ≡ false)

  abbrev IsOrderly : ℕ → Sesion Fila → Type 0
  IsOrderly pid s = IsRunning pid s ⊎ IsStopped pid s

  stop-IsStopped :
      (pid : ℕ) (s : Sesion Fila)
      → IsRunning (suc pid) s
      → IsStopped (suc pid) (stop_table_guardia_info Fila s)
  unfolding stop_table_guardia_info
  stop-IsStopped pid s (p, q, r) = rw p (refl, rw q refl, refl, refl)

  Step-IsStopped :
      (pid : ℕ) (s t : Sesion Fila)
      → Step Fila leer toca s t
      → IsStopped (suc pid) s
      → IsStopped (suc pid) t
  unfolding leer_tabla
  Step-IsStopped pid s t (detiene b) (p, q, off, shut) = cc
  Step-IsStopped pid s t (lee r w) (p, q, off, shut) = rw p (refl, q, off, shut)
  Step-IsStopped pid s t (cierra_marco o) (p, q, off, shut) = (p, q, refl, refl)

  Reach-IsStopped :
      (pid : ℕ) (s t : Sesion Fila)
      → Reach Fila leer toca s t
      → IsStopped (suc pid) s
      → IsStopped (suc pid) t
  Reach-IsStopped pid s t aqui h = h
  Reach-IsStopped pid s t (sigue r step) h =
      Step-IsStopped pid _ t step (Reach-IsStopped pid s _ r h)

  Step-IsOrderly :
      (pid : ℕ) (s t : Sesion Fila)
      → Step Fila leer toca s t
      → IsOrderly (suc pid) s
      → IsOrderly (suc pid) t
  unfolding leer_tabla
  Step-IsOrderly pid s t step (inr h) = inr (Step-IsStopped pid s t step h)
  Step-IsOrderly pid s t (detiene b) (inl h) = inr (stop-IsStopped pid s h)
  Step-IsOrderly pid s t (lee r w) (inl (p, q, ok)) = inl (rw p (refl, q, ok))
  Step-IsOrderly pid s t (cierra_marco o) (inl h) = inl h

  abierta-IsOrderly :
      (umbral : Text → Text) (cpu_text mem_text : Text) (pid : ℕ)
      → vacio cpu_text ≡ false
      → vacio mem_text ≡ false
      → IsOrderly (suc pid) (abrir Fila umbral cpu_text mem_text (some (suc pid)))
  unfolding abrir
  abierta-IsOrderly umbral cpu_text mem_text pid hc hm = rw (hc, hm) (inl (refl, refl, refl))

  Reach-from :
      (pid : ℕ) (s t : Sesion Fila)
      → Reach Fila leer toca s t
      → IsOrderly (suc pid) s
      → IsOrderly (suc pid) t
  Reach-from pid s t aqui h = h
  Reach-from pid s t (sigue r step) h = Step-IsOrderly pid _ t step (Reach-from pid s _ r h)

  sesion-IsOrderly :
      (umbral : Text → Text) (cpu_text mem_text : Text) (pid : ℕ) (s : Sesion Fila)
      → vacio cpu_text ≡ false
      → vacio mem_text ≡ false
      → Reach Fila leer toca (abrir Fila umbral cpu_text mem_text (some (suc pid))) s
      → IsOrderly (suc pid) s
  sesion-IsOrderly umbral cpu_text mem_text pid s hc hm r =
      Reach-from pid _ s r (abierta-IsOrderly umbral cpu_text mem_text pid hc hm)

  -- While the button of a window that was opened with both thresholds and a monitor can be pressed,
  -- no signal has been sent. Whatever happens once it has been pressed, the monitor has been sent
  -- SIGTERM, and only once, the structure is freed, the window is closed, and the button cannot be
  -- pressed again.
  pub pressed_once :
      (umbral : Text → Text) (cpu_text mem_text : Text) (pid : ℕ) (s t : Sesion Fila)
      → vacio cpu_text ≡ false
      → vacio mem_text ≡ false
      → Reach Fila leer toca (abrir Fila umbral cpu_text mem_text (some (suc pid))) s
      → s.boton ≡ true
      → Reach Fila leer toca (stop_table_guardia_info Fila s) t
      → (s.senales ≡ []) × IsStopped (suc pid) t
  pressed_once umbral cpu_text mem_text pid s t hc hm r on after =
      elim (sesion-IsOrderly umbral cpu_text mem_text pid s hc hm r) [
        | inl h ↦ (h.1, Reach-IsStopped pid _ t after (stop-IsStopped pid s h))
        | inr (_, _, off, _) ↦ cc
      ]

  -- A line that is still to be read when the button is pressed is handled with the freed structure:
  -- the watch stays installed.
  pub used_after_free :
      (umbral : Text → Text) (cpu_text mem_text : Text) (pid : ℕ) (r : Lectura)
      → vacio cpu_text ≡ false
      → vacio mem_text ≡ false
      → toca r ≡ true
      → (s : Sesion Fila) × Reach Fila leer toca
          (abrir Fila umbral cpu_text mem_text (some (suc pid)))
          s
        × (s.roto ≡ true)
  unfolding abrir stop_table_guardia_info leer_tabla
  used_after_free umbral cpu_text mem_text pid r hc hm ht =
      let opened = abrir Fila umbral cpu_text mem_text (some (suc pid)) in
      let running : Sesion Fila = record {
        abierta = true;
        pdata = some (record { child_pid = suc pid; io_channel = true; window = true });
        vigilado = true;
        boton = true;
        store = [];
        argv = umbral cpu_text ∷ (umbral mem_text ∷ []);
        aviso = none;
        senales = [];
        roto = false;
      } in
      let started : opened ≡ running = rw (hc, hm) refl in
      let end = leer_tabla Fila leer toca r (stop_table_guardia_info Fila running) in
      let path : Reach Fila leer toca running end =
        sigue (sigue aqui (detiene refl)) (lee r refl) in
      (end, subst (λ o. Reach Fila leer toca o end) (sym started) path, ht)

  dead_read :
      (s : Sesion Fila) (line : Lectura)
      → (s.boton ≡ false) × (s.senales ≡ [])
      → ((leer_tabla Fila leer toca line s).boton ≡ false)
        × ((leer_tabla Fila leer toca line s).senales ≡ [])
  unfolding leer_tabla
  dead_read s line h = elim (Option-cases s.pdata) [ inl e ↦ rw e h | inr (d, e) ↦ rw e h ]

  -- Without the button no signal is sent.
  dead_button :
      (s t : Sesion Fila)
      → Reach Fila leer toca s t
      → s.boton ≡ false
      → s.senales ≡ []
      → (t.boton ≡ false) × (t.senales ≡ [])
  unfolding leer_tabla
  dead_button s t aqui b e = (b, e)
  dead_button s t (sigue {t = m} r (detiene on)) b e = let (off, _) = dead_button s m r b e in cc
  dead_button s t (sigue {t = m} r (lee line on)) b e = dead_read m line (dead_button s m r b e)
  dead_button s t (sigue {t = m} r (cierra_marco o)) b e = (refl, (dead_button s m r b e).1)

  -- A window that is closed by its frame never stops its monitor.
  pub closed_runs_on :
      (umbral : Text → Text) (cpu_text mem_text : Text) (pid : ℕ) (s t : Sesion Fila)
      → vacio cpu_text ≡ false
      → vacio mem_text ≡ false
      → Reach Fila leer toca (abrir Fila umbral cpu_text mem_text (some (suc pid))) s
      → s.abierta ≡ true
      → Reach Fila leer toca (record s { abierta = false; boton = false }) t
      → t.senales ≡ []
  closed_runs_on umbral cpu_text mem_text pid s t hc hm r o q =
      elim (sesion-IsOrderly umbral cpu_text mem_text pid s hc hm r) [
        | inl (_, none_sent, _) ↦
            (dead_button (record s { abierta = false; boton = false }) t q refl none_sent).1
        | inr (_, _, _, shut) ↦ cc
      ]
