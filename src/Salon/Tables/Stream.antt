-- ===== src/Salon/Tables/Stream.antt =====
-- UI.c and guardia_info.c: the table of processes while the window reads what the monitor prints.
use mathlib.Core.List.{append_assoc}
use antibawirus.Common.{
  ℕ, ◌≡◌, refl, ap, ◌∙◌, true, false, List, [], ◌∷◌, ◌++◌, none, All, All-append, All-split, ◌==◌,
}
use antibawirus.Common.Text.{Text, codes, is_prefix, strchr, newline}
use antibawirus.Common.Text.Words.{Lacks}
use antibawirus.Guard.Tracker.{Floats}
use antibawirus.Guard.Process.{
  Tipo, pico_cpu, pico_ram, uso_cpu, uso_ram, Linea, nueva_iteracion, alerta, fila,
}
use antibawirus.Guard.Report.{etiqueta, cuerpo, texto, decimal, decimal_int}
use antibawirus.Guard.System.{Sistema, Entorno, Reach}
use antibawirus.Guard.System.Lines.{IsLine, Reach-IsLine}
use antibawirus.Salon.Glib.{Glib, IsGlib}
use antibawirus.Salon.Tables.{normal, FilaProceso, con, read_guardia_info_table}
use antibawirus.Salon.Tables.Processes.{fila-shown}
use antibawirus.Salon.Tables.Alerts.{no_iteration, lack_all, Lacks-of}

strchr-none : (d : ℕ) (s : Text) → Lacks d s → strchr s d ≡ none
unfolding strchr
strchr-none d [] h = refl
strchr-none d (c ∷ s) h = rw (h.0, strchr-none d s h.1) refl

etiqueta-semicolon : (t : Tipo) → Lacks b';' (etiqueta t)
unfolding lack_all
etiqueta-semicolon pico_cpu = Lacks-of b';' (etiqueta pico_cpu) refl
etiqueta-semicolon pico_ram = Lacks-of b';' (etiqueta pico_ram) refl
etiqueta-semicolon uso_cpu = Lacks-of b';' (etiqueta uso_cpu) refl
etiqueta-semicolon uso_ram = Lacks-of b';' (etiqueta uso_ram) refl

clean-append : (s t : Text) → Lacks b';' s → Lacks b';' t → Lacks b';' (s ++ t)
clean-append s t = All-append (λ c. (c == b';') ≡ false) s t

constant-semicolon : (s t : Text) → lack_all b';' s ≡ true → Lacks b';' t → Lacks b';' (s ++ t)
constant-semicolon s t h = clean-append s t (Lacks-of b';' s h)

module _ (fl : Floats) (g : Glib) where
  -- No value of the line holds a semicolon.
  abbrev pub IsClean : Linea fl → Type 0
  IsClean nueva_iteracion = Unit
  IsClean (alerta t v name pid) = Lacks b';' (fl.print v) × Lacks b';' name × Lacks b';' pid
  IsClean (fila pid name cpu ram vsize threads) =
      Lacks b';' pid × Lacks b';' name × Lacks b';' (fl.print cpu) × Lacks b';' (fl.print ram)

  -- The rows of the last iteration, behind those that were there before the first line.
  abbrev pub mostradas : List (Linea fl) → List FilaProceso → List FilaProceso
  mostradas [] rows = rows
  mostradas (nueva_iteracion ∷ ls) rows = mostradas ls []
  mostradas (alerta t v name pid ∷ ls) rows = mostradas ls rows
  mostradas (fila pid name cpu ram vsize threads ∷ ls) rows = mostradas ls (
      rows
      ++ (record {
        pid = pid;
        nombre = name;
        cpu = fl.print cpu;
        ram = fl.print ram;
        mem_virtual = decimal vsize;
        hilos = decimal_int threads;
      }
          ∷ []))

  -- The watch reads the lines in turn.
  abbrev pub leer_todas : List (Linea fl) → List FilaProceso → List FilaProceso
  leer_todas [] rows = rows
  leer_todas (l ∷ ls) rows =
      leer_todas ls (read_guardia_info_table g (normal (texto fl l)) rows).store

  module _ (lib : IsGlib g) where
    iteration_cleared :
        (rows : List FilaProceso)
        → read_guardia_info_table g (normal (texto fl nueva_iteracion)) rows ≡ con []
    unfolding read_guardia_info_table texto is_prefix
    iteration_cleared rows =
        rw (lib.prefix_lem (texto fl nueva_iteracion) (codes "NUEVA_ITERACION")) refl

    cuerpo-semicolon :
        (t : Tipo) (v : fl.Float) (name pid : Text)
        → IsClean (alerta t v name pid)
        → Lacks b';' (texto fl (alerta t v name pid))
    unfolding texto lack_all
    cuerpo-semicolon t v name pid (lv, ln, lp) =
        let from_pid = constant-semicolon (codes " | PID: ") pid refl lp in
        let from_name = clean-append name (codes " | PID: " ++ pid) ln from_pid in
        let from_value =
          clean-append (fl.print v) (codes "% | Nombre: " ++ (name ++ (codes " | PID: " ++ pid))) lv
            (constant-semicolon (codes "% | Nombre: ") (name ++ (codes " | PID: " ++ pid)) refl
              from_name) in
        let rest = fl.print v ++ (codes "% | Nombre: " ++ (name ++ (codes " | PID: " ++ pid))) in
        clean-append (cuerpo fl t v name pid) (newline ∷ [])
          (clean-append (etiqueta t) (codes ": " ++ rest) (etiqueta-semicolon t)
            (constant-semicolon (codes ": ") rest refl from_value))
          (refl, tt)

    alert_passed :
        (t : Tipo) (v : fl.Float) (name pid : Text) (rows : List FilaProceso)
        → IsClean (alerta t v name pid)
        → read_guardia_info_table g (normal (texto fl (alerta t v name pid))) rows ≡ con rows
    unfolding read_guardia_info_table texto
    alert_passed t v name pid rows h =
        let rest =
          codes ": "
          ++ (fl.print v ++ (codes "% | Nombre: " ++ (name ++ (codes " | PID: " ++ pid)))) in
        let line = texto fl (alerta t v name pid) in
        let split : line ≡ etiqueta t ++ (rest ++ (newline ∷ [])) =
          append_assoc (etiqueta t) rest (newline ∷ []) in
        let fresh : g.str_has_prefix line (codes "NUEVA_ITERACION") ≡ false =
          lib.prefix_lem line (codes "NUEVA_ITERACION")
          ∙ ap (is_prefix (codes "NUEVA_ITERACION")) split
          ∙ no_iteration t (rest ++ (newline ∷ [])) in
        rw (fresh, strchr-none b';' line (cuerpo-semicolon t v name pid h)) refl

    leer_todas-mostradas :
        (ls : List (Linea fl)) (rows : List FilaProceso)
        → All (IsLine fl) ls
        → All IsClean ls
        → leer_todas ls rows ≡ mostradas ls rows
    leer_todas-mostradas [] rows h k = refl
    leer_todas-mostradas (nueva_iteracion ∷ ls) rows h k =
        ap (λ t. leer_todas ls t.store) (iteration_cleared rows)
        ∙ leer_todas-mostradas ls [] h.1 k.1
    leer_todas-mostradas (alerta t v name pid ∷ ls) rows h k =
        ap (λ u. leer_todas ls u.store) (alert_passed t v name pid rows k.0)
        ∙ leer_todas-mostradas ls rows h.1 k.1
    leer_todas-mostradas (fila pid name cpu ram vsize threads ∷ ls) rows h k =
        let ((lp, ln, lc, lr), clean) = k in
        ap (λ t. leer_todas ls t.store)
          (fila-shown fl g lib pid name cpu ram vsize threads rows h.0 lp ln lc lr)
        ∙ leer_todas-mostradas ls _ h.1 clean

    -- If GLib behaves as documented, then, when the table has read the first lines that the monitor
    -- has printed in a state that it reaches, none of which holds a semicolon in a pid, a name or a
    -- printed percentage, it shows the rows of the last iteration among them, in order, each with
    -- its six values in their columns, and nothing else.
    pub table_shown :
        (env : Entorno fl) (s : Sistema fl) (ls rest : List (Linea fl))
        → Reach fl env s
        → s.salida ≡ ls ++ rest
        → All IsClean ls
        → leer_todas ls [] ≡ mostradas ls []
    table_shown env s ls rest reached e clean =
        let (lines, _) = All-split (IsLine fl) ls rest (rw e at (Reach-IsLine fl env reached)) in
        leer_todas-mostradas ls [] lines clean
