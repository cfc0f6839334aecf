-- ===== src/Salon/Window/Ports.antt =====
-- UI.c, the main window: the scan of ports as the text shows it.
use mathlib.Core.List.{append_assoc, append-nil}
use antibawirus.Common.{
  ◌≡◌, refl, sym, ap, ◌∙◌, subst, true, false, List, [], ◌∷◌, ◌++◌, Option, some,
}
use antibawirus.Common.Text.{Text, codes, fgets_lines, concat, concat-fgets_lines}
use antibawirus.Salon.Glib.{Glib}
use antibawirus.Salon.Buffer.{TextBuffer, IsTextBuffer}
use antibawirus.Salon.Window.{
  Ventana, vacio, on_scan_port_clicked, abrir_puertos, leer_puertos, insertar, poner, mostrar,
  orden, Step, Reach, aqui, sigue, escanea_puertos, lee_puertos,
}
use antibawirus.Salon.Window.Report.{Shows, insertar-Shows}

module _ (tb : TextBuffer) (g : Glib) (usb : Option Text) where
  Reach-trans : {v w u : Ventana tb} → Reach tb g usb v w → Reach tb g usb w u → Reach tb g usb v u
  Reach-trans r aqui = r
  Reach-trans r (sigue q step) = sigue (Reach-trans r q) step

  one_step : {v w : Ventana tb} → Step tb g usb v w → Reach tb g usb v w
  one_step step = sigue aqui step

  module _ (lib : IsTextBuffer tb) where
    -- A scan has been read to its end: the text has become `t`, and the others are as they were.
    abbrev pub HasRead : Ventana tb → List (List Text) → Text → Type 0
    HasRead v outer t =
        (w : Ventana tb) × Reach tb g usb v w
        × (w.puertos ≡ outer)
        × Shows tb lib w.buffer t
        × (w.exit_button ≡ v.exit_button)

    reads_all :
        {t : Text} (lines : List Text) (outer : List (List Text)) (v : Ventana tb)
        → v.puertos ≡ lines ∷ outer
        → Shows tb lib v.buffer t
        → HasRead v outer (t ++ concat lines)
    unfolding leer_puertos
    reads_all {t} [] outer v e h =
        let step : Step tb g usb v (record v { puertos = outer }) =
          subst (λ p. Step tb g usb v (leer_puertos tb p v)) e lee_puertos in
        (record v { puertos = outer }, one_step step, refl, rw (append-nil t) h, refl)
    reads_all {t} (line ∷ lines) outer v e h =
        let next = record (insertar tb line v) { puertos = lines ∷ outer } in
        let step : Step tb g usb v next =
          subst (λ p. Step tb g usb v (leer_puertos tb p v)) e lee_puertos in
        let (w, reach, left, shows, exit) =
          reads_all lines outer next refl (insertar-Shows tb lib line v.buffer h) in
        (
          w,
          Reach-trans (one_step step) reach,
          left,
          rw (sym (append_assoc t line (concat lines))) shows,
          exit,
        )

    -- If GTK behaves as documented, both entries are filled in and the scanner starts, the window
    -- can read all that it prints, and then the text is the title and the whole of it, the button
    -- that closes the results is shown, and the scans that were being read before are as they were.
    pub scan_shown :
        (first last text : Text) (v : Ventana tb)
        → vacio first ≡ false
        → vacio last ≡ false
        → (w : Ventana tb) × Reach tb g usb v w
          × (w.puertos ≡ v.puertos)
          × (tb.get_text w.buffer ≡ codes "Iniciando escaneo de puertos...\n" ++ text)
          × (w.exit_button ≡ true)
    unfolding on_scan_port_clicked abrir_puertos
    scan_shown first last text v hf hl =
        let title = codes "Iniciando escaneo de puertos...\n" in
        let opened = record (poner tb title (mostrar tb v)) {
          ordenes = v.ordenes ++ (orden first last ∷ []);
          puertos = fgets_lines 512 text ∷ v.puertos;
        } in
        let clicked : on_scan_port_clicked tb first last (some text) v ≡ opened =
          rw (hf, hl) refl in
        let step : Step tb g usb v opened =
          subst (Step tb g usb v) clicked (escanea_puertos first last (some text)) in
        let shown : Shows tb lib opened.buffer title =
          (lib.set_text-AtEnd title v.buffer, lib.get_text-set_text title v.buffer) in
        let (w, reach, left, (_, whole), exit) =
          reads_all (fgets_lines 512 text) v.puertos opened refl shown in
        (
          w,
          Reach-trans (one_step step) reach,
          left,
          whole ∙ ap (λ s. title ++ s) (concat-fgets_lines 512 text),
          exit,
        )
