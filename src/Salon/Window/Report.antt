-- ===== src/Salon/Window/Report.antt =====
-- UI.c, the main window: the text that the buttons leave in it.
use mathlib.Core.List.{append_assoc, append-nil}
use antibawirus.Common.{
  ℕ, ◌≡◌, refl, ap, ◌∙◌, List, [], ◌∷◌, ◌++◌, Option, none, some, ◌==◌, subst, Bool-cases, inl, inr,
}
use antibawirus.Common.Text.{Text, codes, fgets_lines, concat, concat-fgets_lines}
use antibawirus.Salon.Buffer.{TextBuffer, IsTextBuffer}
use antibawirus.Salon.Window.{
  Ventana, insertar, insertar_lineas, todo_usb, todo_puertos, todo_guardia, matar, do_all,
}

-- What a run of the scanner adds, and what a monitor that cannot be started does.
abbrev pub parte_puertos : Option Text → Text
parte_puertos none = codes "Error al ejecutar el escáner de puertos.\n"
parte_puertos (some text) = text

abbrev pub parte_guardia : Option ℕ → Text
parte_guardia none = codes "Error al ejecutar guardia_info.\n"
parte_guardia (some pid) = []

abbrev pub informe : Text → Option Text → Option ℕ → Text
informe usb salida child =
    (codes "==== Escaneo USB ====\n" ++ (usb ++ codes "\n"))
    ++ ((codes "==== Escaneo de Puertos ====\n" ++ (parte_puertos salida ++ codes "\n"))
        ++ (codes "==== Alertas de Procesos ====\n" ++ parte_guardia child))

module _ (tb : TextBuffer) (lib : IsTextBuffer tb) where
  -- The cursor is behind the text, which is `t`.
  abbrev pub Shows : tb.Buffer → Text → Type 0
  Shows b t = lib.AtEnd b × (tb.get_text b ≡ t)

  poner-Shows : (t : Text) (b : tb.Buffer) → Shows (tb.set_text t b) t
  poner-Shows t b = (lib.set_text-AtEnd t b, lib.get_text-set_text t b)

  pub insertar-Shows :
      {t : Text} (line : Text) (b : tb.Buffer)
      → Shows b t
      → Shows (tb.insert_at_cursor line b) (t ++ line)
  insertar-Shows line b (at_end, e) =
      (lib.insert-AtEnd line b at_end, lib.get_text-insert line b at_end ∙ ap (λ s. s ++ line) e)

  -- Three texts in turn
  tres-Shows :
      {t : Text} (p q r : Text) (b : tb.Buffer)
      → Shows b t
      → Shows
          (tb.insert_at_cursor r (tb.insert_at_cursor q (tb.insert_at_cursor p b)))
          (t ++ (p ++ (q ++ r)))
  tres-Shows {t} p q r b h =
      let whole : ((t ++ p) ++ q) ++ r ≡ t ++ (p ++ (q ++ r)) = simp append_assoc in
      subst (Shows _) whole (insertar-Shows r _ (insertar-Shows q _ (insertar-Shows p b h)))

  lineas-Shows :
      {t : Text} (lines : List Text) (v : Ventana tb)
      → Shows v.buffer t
      → Shows (insertar_lineas tb lines v).buffer (t ++ concat lines)
  lineas-Shows {t} [] v h = rw (append-nil t) h
  lineas-Shows {t} (line ∷ lines) v h =
      subst (Shows _) (append_assoc t line (concat lines))
        (lineas-Shows lines (insertar tb line v) (insertar-Shows line v.buffer h))

  todo_usb-Shows :
      (v : Ventana tb)
      → Shows
          (todo_usb tb v).buffer
          (codes "==== Escaneo USB ====\n" ++ (v.usb_scan_output ++ codes "\n"))
  todo_usb-Shows v =
      tres-Shows (codes "==== Escaneo USB ====\n") v.usb_scan_output (codes "\n") _
        (poner-Shows [] v.buffer)

  todo_puertos-Shows :
      {t : Text} (first last : Text) (salida : Option Text) (v : Ventana tb)
      → Shows v.buffer t
      → Shows
          (todo_puertos tb first last salida v).buffer
          (t ++ (codes "==== Escaneo de Puertos ====\n" ++ (parte_puertos salida ++ codes "\n")))
  unfolding todo_puertos
  todo_puertos-Shows first last none v h =
      tres-Shows (codes "==== Escaneo de Puertos ====\n") (parte_puertos none) (codes "\n") v.buffer
        h
  todo_puertos-Shows {t} first last (some text) v h =
      let title = codes "==== Escaneo de Puertos ====\n" in
      let whole : ((t ++ title) ++ concat (fgets_lines 512 text)) ++ codes "\n"
          ≡ t ++ (title ++ (text ++ codes "\n")) =
        rw (concat-fgets_lines 512 text) (simp append_assoc) in
      let read =
        lineas-Shows (fgets_lines 512 text) (record (insertar tb title v) { ordenes = _ })
          (insertar-Shows title v.buffer h) in
      subst (Shows _) whole (insertar-Shows (codes "\n") _ read)

  todo_guardia-Shows :
      {t : Text} (cpu mem : Text) (child : Option ℕ) (v : Ventana tb)
      → Shows v.buffer t
      → Shows
          (todo_guardia tb cpu mem child v).buffer
          (t ++ (codes "==== Alertas de Procesos ====\n" ++ parte_guardia child))
  unfolding todo_guardia
  todo_guardia-Shows {t} cpu mem none v h =
      subst (Shows _)
        (append_assoc t (codes "==== Alertas de Procesos ====\n") (parte_guardia none))
        (insertar-Shows (parte_guardia none) _
          (insertar-Shows (codes "==== Alertas de Procesos ====\n") v.buffer h))
  todo_guardia-Shows {t} cpu mem (some pid) v h =
      insertar-Shows (codes "==== Alertas de Procesos ====\n") v.buffer h

  matar-buffer : (v : Ventana tb) → (matar tb v).buffer ≡ v.buffer
  unfolding matar
  matar-buffer v = elim (Bool-cases (v.guardia_pid == 0)) [ inl e ↦ rw e refl | inr e ↦ rw e refl ]

  -- "Iniciar todo" leaves the report of its three parts in the window, whatever stood there, with
  -- an error's text in the place of a program that cannot be started, and the cursor at its end.
  pub do_all-informe :
      (first last cpu mem : Text) (salida : Option Text) (child : Option ℕ) (v : Ventana tb)
      → Shows
          (do_all tb first last cpu mem salida child v).buffer
          (informe v.usb_scan_output salida child)
  unfolding do_all
  do_all-informe first last cpu mem salida child v =
      let v1 = todo_usb tb v in
      let v2 = todo_puertos tb first last salida v1 in
      let usb = codes "==== Escaneo USB ====\n" ++ (v.usb_scan_output ++ codes "\n") in
      let ports = codes "==== Escaneo de Puertos ====\n" ++ (parte_puertos salida ++ codes "\n") in
      let alerts = codes "==== Alertas de Procesos ====\n" ++ parte_guardia child in
      let h2 = todo_puertos-Shows first last salida v1 (todo_usb-Shows v) in
      rw (matar-buffer (todo_guardia tb cpu mem child v2))
        (subst (Shows _) (append_assoc usb ports alerts) (todo_guardia-Shows cpu mem child v2 h2))
