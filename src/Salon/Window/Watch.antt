-- ===== src/Salon/Window/Watch.antt =====
-- UI.c and guardia_info.c: the monitor's lines as the main window shows them.
use mathlib.Core.List.{append_assoc, append-nil}
use antibawirus.Common.{
  ℕ, ◌≡◌, refl, ap, ◌∙◌, subst, true, false, List, [], ◌∷◌, ◌++◌, Option, some, arith, All,
  All-split,
}
use antibawirus.Common.Text.{Text, codes, is_prefix, newline}
use antibawirus.Common.Text.Scan.{is_digit}
use antibawirus.Guard.Tracker.{Floats}
use antibawirus.Guard.Process.{
  Tipo, pico_cpu, pico_ram, uso_cpu, uso_ram, Linea, nueva_iteracion, alerta, fila,
}
use antibawirus.Guard.System.{starts_digit, Sistema, Entorno, Reach}
use antibawirus.Guard.System.Lines.{IsLine, Reach-IsLine}
use antibawirus.Guard.Report.{texto, etiqueta}
use antibawirus.Salon.Glib.{Glib, IsGlib}
use antibawirus.Salon.Buffer.{TextBuffer, IsTextBuffer}
use antibawirus.Salon.Tables.{normal}
use antibawirus.Salon.Window.{Ventana, guardia_io_cb, do_all, insertar}
use antibawirus.Salon.Window.Report.{Shows, insertar-Shows, informe, do_all-informe}

etiqueta_alert : (t : Tipo) (rest : Text) → is_prefix (codes "ALERTA_") (etiqueta t ++ rest) ≡ true
unfolding is_prefix
etiqueta_alert pico_cpu rest = refl
etiqueta_alert pico_ram rest = refl
etiqueta_alert uso_cpu rest = refl
etiqueta_alert uso_ram rest = refl

digit_no_alert :
    (pid rest : Text) → starts_digit pid ≡ true → is_prefix (codes "ALERTA_") (pid ++ rest) ≡ false
unfolding is_prefix starts_digit is_digit
digit_no_alert [] rest h = cc
digit_no_alert (c ∷ pid) rest h = ground arith

module _ (fl : Floats) (tb : TextBuffer) (g : Glib) where
  abbrev pub solo_alertas : List (Linea fl) → Text
  solo_alertas [] = []
  solo_alertas (nueva_iteracion ∷ ls) = solo_alertas ls
  solo_alertas (alerta t v name pid ∷ ls) = texto fl (alerta t v name pid) ++ solo_alertas ls
  solo_alertas (fila pid name cpu ram vsize threads ∷ ls) = solo_alertas ls

  -- The watch reads the lines in turn.
  abbrev pub atender : ℕ → List (Linea fl) → Ventana tb → Ventana tb
  atender child [] v = v
  atender child (l ∷ ls) v = atender child ls (guardia_io_cb tb g child (normal (texto fl l)) v)

  module _ (lib : IsTextBuffer tb) (glib : IsGlib g) where
    line_passed :
        (child : ℕ) (line : Text) (v : Ventana tb)
        → is_prefix (codes "ALERTA_") line ≡ false
        → guardia_io_cb tb g child (normal line) v ≡ v
    unfolding guardia_io_cb
    line_passed child line v e = rw (glib.prefix_lem line (codes "ALERTA_"), e) refl

    line_shown :
        (child : ℕ) (line : Text) (v : Ventana tb)
        → is_prefix (codes "ALERTA_") line ≡ true
        → guardia_io_cb tb g child (normal line) v ≡ insertar tb line v
    unfolding guardia_io_cb
    line_shown child line v e = rw (glib.prefix_lem line (codes "ALERTA_"), e) refl

    atender-Shows :
        (child : ℕ) (ls : List (Linea fl)) (t : Text) (v : Ventana tb)
        → All (IsLine fl) ls
        → Shows tb lib v.buffer t
        → Shows tb lib (atender child ls v).buffer (t ++ solo_alertas ls)
    unfolding texto is_prefix
    atender-Shows child [] t v h s = rw (append-nil t) s
    atender-Shows child (nueva_iteracion ∷ ls) t v h s =
        rw (atender, line_passed child (texto fl nueva_iteracion) v refl)
          (atender-Shows child ls t v h.1 s)
    atender-Shows child (alerta k f name pid ∷ ls) t v h s =
        let line = texto fl (alerta k f name pid) in
        let shown = line_shown child line v (
          ap (is_prefix (codes "ALERTA_")) (append_assoc (etiqueta k) _ (newline ∷ []))
          ∙ etiqueta_alert k _) in
        rw (atender, shown)
          (subst (Shows tb lib _) (append_assoc t line (solo_alertas ls)) (
            atender-Shows child ls (t ++ line) (insertar tb line v) h.1
              (insertar-Shows tb lib line v.buffer s)))
    atender-Shows child (fila pid name cpu ram vsize threads ∷ ls) t v h s =
        rw
          (
            atender,
            line_passed child (texto fl (fila pid name cpu ram vsize threads)) v
                (digit_no_alert pid _ h.0),
          )
          (atender-Shows child ls t v h.1 s)

    -- If GLib and GTK behave as documented, and the watch reads the first lines that the monitor
    -- which "Iniciar todo" started has printed in a state that it reaches, one right after the other
    -- and with no other event of the window since, then the alerts among them stand behind the
    -- report, in the order of the lines, and no other line does.
    pub alerts_shown :
        (env : Entorno fl) (s : Sistema fl) (first last cpu mem : Text) (salida : Option Text)
        (child : ℕ) (ls rest : List (Linea fl)) (v : Ventana tb)
        → Reach fl env s
        → s.salida ≡ ls ++ rest
        → tb.get_text (atender child ls (do_all tb first last cpu mem salida (some child) v)).buffer
          ≡ informe v.usb_scan_output salida (some child) ++ solo_alertas ls
    alerts_shown env s first last cpu mem salida child ls rest v reached e =
        let report = informe v.usb_scan_output salida (some child) in
        let w = do_all tb first last cpu mem salida (some child) v in
        let (lines, _) = All-split (IsLine fl) ls rest (rw e at (Reach-IsLine fl env reached)) in
        (atender-Shows child ls report w lines
          (do_all-informe tb lib first last cpu mem salida (some child) v)).1
