-- ===== src/Salon/Tables/Alerts.antt =====
-- UI.c and guardia_info.c: the row that the window shows of an alert.
use mathlib.Core.List.{append_assoc, append-nil}
use antibawirus.Common.{
  ℕ, ◌≡◌, ◌≤◌, ◌<◌, refl, ap, sym, ◌∙◌, Bool, true, false, ◌&&◌, not, List, [], ◌∷◌, ◌++◌, some,
  All, arith, length, length-append, ◌==◌, ==_iff,
}
use antibawirus.Common.Text.{Text, codes, is_prefix, str_eq, newline}
use antibawirus.Common.Text.Scan.{is_space, skip_space, scan_until, scan_word, scan_run}
use antibawirus.Common.Text.Scan.Laws.{IsWord, scan_run-append, not_spaces}
use antibawirus.Common.Text.Words.{Lacks, EndsInk, EndsInk-append, IsWord-EndsInk}
use antibawirus.Guard.Tracker.{Floats}
use antibawirus.Guard.Process.{Tipo, pico_cpu, pico_ram, uso_cpu, uso_ram, alerta}
use antibawirus.Guard.Report.{etiqueta, cuerpo, texto}
use antibawirus.Salon.Glib.{Glib, IsGlib}
use antibawirus.Salon.Tables.{
  normal, FilaAlerta, con, analizar, tipo_mostrar, is_alert, agregar_alerta,
  read_guardia_alertas_table,
}
use antibawirus.Salon.Tables.Processes.{Lacks-snoc}

-- The first character is no white space.
abbrev pub StartsInk : Text → Type 0
StartsInk [] = ⊥
StartsInk (c ∷ s) = is_space c ≡ false

skip_space-StartsInk : (s rest : Text) → StartsInk s → skip_space (s ++ rest) ≡ s ++ rest
unfolding skip_space
skip_space-StartsInk [] rest h = absurd h
skip_space-StartsInk (c ∷ s) rest h = rw h refl

unfoldable pub lack_all : ℕ → Text → Bool
lack_all d [] = true
lack_all d (c ∷ s) = not (c == d) && lack_all d s

StartsInk-length : (s : Text) → StartsInk s → 0 < length s
StartsInk-length [] h = absurd h
StartsInk-length (c ∷ s) h = omega arith

pub Lacks-of : (d : ℕ) (s : Text) → lack_all d s ≡ true → Lacks d s
unfolding lack_all
Lacks-of d [] h = tt
Lacks-of d (c ∷ s) h = (ground arith, Lacks-of d s (ground arith))

passes : (d : ℕ) (s : Text) → Lacks d s → All (λ c. not (c == d) ≡ true) s
passes d [] h = tt
passes d (c ∷ s) h = (rw h.0 refl, passes d s h.1)

scan_until-Lacks :
    (d n : ℕ) (s rest : Text)
    → Lacks d s
    → 0 < length s
    → length s ≤ n
    → scan_until d n (s ++ d ∷ rest) ≡ some (s, d ∷ rest)
unfolding scan_until
scan_until-Lacks d n [] rest h l m = absurd (omega (arith, l))
scan_until-Lacks d n (c ∷ s) rest h l m =
    scan_run-append (λ c. not (c == d)) n c s (d ∷ rest) (passes d (c ∷ s) h) m
      (rw ((==_iff d d).1 refl) refl)

scan_word-end : (n : ℕ) (s : Text) → IsWord s → length s ≤ n → scan_word n (32 ∷ s) ≡ some (s, [])
unfolding scan_word skip_space
scan_word-end n [] w m = absurd w
scan_word-end n (c ∷ s) w m =
    let whole : scan_run (λ d. not (is_space d)) n (c ∷ s ++ []) ≡ some (c ∷ s, []) =
      scan_run-append (λ d. not (is_space d)) n c s [] (not_spaces (c ∷ s) w) m tt in
    rw w.0 (ap (scan_run (λ d. not (is_space d)) n) (sym (append-nil (c ∷ s))) ∙ whole)

etiqueta-Lacks : (t : Tipo) → Lacks b':' (etiqueta t)
unfolding lack_all
etiqueta-Lacks pico_cpu = Lacks-of b':' (etiqueta pico_cpu) refl
etiqueta-Lacks pico_ram = Lacks-of b':' (etiqueta pico_ram) refl
etiqueta-Lacks uso_cpu = Lacks-of b':' (etiqueta uso_cpu) refl
etiqueta-Lacks uso_ram = Lacks-of b':' (etiqueta uso_ram) refl

length-etiqueta : (t : Tipo) → (0 < length (etiqueta t)) × (length (etiqueta t) ≤ 31)
length-etiqueta pico_cpu = omega arith
length-etiqueta pico_ram = omega arith
length-etiqueta uso_cpu = omega arith
length-etiqueta uso_ram = omega arith

-- The words that the window shows for a kind of alert.
abbrev pub titulo : Tipo → Text
titulo pico_cpu = codes "Pico CPU"
titulo pico_ram = codes "Pico RAM"
titulo uso_cpu = codes "Uso CPU"
titulo uso_ram = codes "Uso RAM"

tipo_mostrar-etiqueta : (t : Tipo) → tipo_mostrar (etiqueta t) ≡ titulo t
unfolding tipo_mostrar str_eq
tipo_mostrar-etiqueta pico_cpu = refl
tipo_mostrar-etiqueta pico_ram = refl
tipo_mostrar-etiqueta uso_cpu = refl
tipo_mostrar-etiqueta uso_ram = refl

pub no_iteration :
    (t : Tipo) (rest : Text) → is_prefix (codes "NUEVA_ITERACION") (etiqueta t ++ rest) ≡ false
unfolding is_prefix
no_iteration pico_cpu rest = refl
no_iteration pico_ram rest = refl
no_iteration uso_cpu rest = refl
no_iteration uso_ram rest = refl

is_alert-etiqueta :
    (g : Glib) → IsGlib g → (t : Tipo) (rest : Text) → is_alert g (etiqueta t ++ rest) ≡ true
unfolding is_alert is_prefix
is_alert-etiqueta g lib pico_cpu rest = simp lib.prefix_lem
is_alert-etiqueta g lib pico_ram rest = simp lib.prefix_lem
is_alert-etiqueta g lib uso_cpu rest = simp lib.prefix_lem
is_alert-etiqueta g lib uso_ram rest = simp lib.prefix_lem

module _ (fl : Floats) where
  -- The four conversions on the text of an alert. That of the name ends before the bar, and so with
  -- the blank that stands there.
  analizar-cuerpo :
      (t : Tipo) (v : fl.Float) (name pid : Text)
      → Lacks b'%' (fl.print v)
      → StartsInk (fl.print v)
      → length (fl.print v) ≤ 31
      → Lacks b'|' name
      → StartsInk name
      → length name ≤ 126
      → IsWord pid
      → length pid ≤ 31
      → analizar (cuerpo fl t v name pid) ≡ some (etiqueta t, fl.print v, name ++ (32 ∷ []), pid)
  unfolding analizar
  analizar-cuerpo t v name pid lv iv nv ln sn nn wp np =
      let in_name = codes " | PID: " ++ pid in
      let in_value = codes "% | Nombre: " ++ (name ++ in_name) in
      let le = length-etiqueta t in
      let r1 =
        scan_until-Lacks b':' 31 (etiqueta t) (32 ∷ (fl.print v ++ in_value)) (etiqueta-Lacks t)
          le.0 le.1 in
      let r3 =
        scan_until-Lacks b'%' 31 (fl.print v) (codes " | Nombre: " ++ (name ++ in_name)) lv
          (StartsInk-length (fl.print v) iv) nv in
      let blank : length (name ++ (32 ∷ [])) ≤ 127 =
        omega (arith, length-append name (32 ∷ []), nn) in
      let some_name : 0 < length (name ++ (32 ∷ [])) =
        omega (arith, length-append name (32 ∷ [])) in
      let r7 =
        scan_until-Lacks b'|' 127 (name ++ (32 ∷ [])) (codes " PID: " ++ pid)
          (Lacks-snoc name 32 b'|' ln (refl, tt)) some_name blank in
      rw
        (
          r1,
          skip_space-StartsInk (fl.print v) in_value iv,
          r3,
          skip_space-StartsInk name in_name sn,
          sym (append_assoc name (32 ∷ []) (codes "| PID: " ++ pid)),
          r7,
          scan_word-end 31 pid wp np,
        )
        refl

  cuerpo-EndsInk :
      (t : Tipo) (v : fl.Float) (name pid : Text) → IsWord pid → EndsInk (cuerpo fl t v name pid)
  cuerpo-EndsInk t v name pid wp =
      EndsInk-append (etiqueta t)
        (codes ": "
          ++ (fl.print v ++ (codes "% | Nombre: " ++ (name ++ (codes " | PID: " ++ pid)))))
        (EndsInk-append (codes ": ")
          (fl.print v ++ (codes "% | Nombre: " ++ (name ++ (codes " | PID: " ++ pid))))
          (EndsInk-append (fl.print v) (codes "% | Nombre: " ++ (name ++ (codes " | PID: " ++ pid)))
            (EndsInk-append (codes "% | Nombre: ") (name ++ (codes " | PID: " ++ pid)) (
              EndsInk-append name (codes " | PID: " ++ pid)
                (EndsInk-append (codes " | PID: ") pid (IsWord-EndsInk pid wp))))))

  -- If GLib behaves as documented, then the line that the monitor prints of an alert becomes one
  -- more row of the table, with the kind in the window's words, the value, the pid and the name
  -- with one blank behind it. The printed value holds no per cent sign and the name no bar, both
  -- start with no white space, the pid is one word, and their lengths are at most 31, 126 and 31.
  pub alerta-shown :
      (g : Glib) (formato : Text → Text)
      → IsGlib g
      → (t : Tipo) (v : fl.Float) (name pid : Text) (store : List FilaAlerta)
      → Lacks b'%' (fl.print v)
      → StartsInk (fl.print v)
      → length (fl.print v) ≤ 31
      → Lacks b'|' name
      → StartsInk name
      → length name ≤ 126
      → IsWord pid
      → length pid ≤ 31
      → read_guardia_alertas_table g formato (normal (texto fl (alerta t v name pid))) store
        ≡ con (
            store
            ++ (record {
              pid = pid;
              tipo = titulo t;
              valor = formato (fl.print v);
              nombre = name ++ (32 ∷ []);
            }
                ∷ []))
  unfolding texto read_guardia_alertas_table agregar_alerta is_space
  alerta-shown g formato lib t v name pid store lv iv nv ln sn nn wp np =
      let line = cuerpo fl t v name pid ++ (newline ∷ []) in
      let rest =
        codes ": "
        ++ (fl.print v ++ (codes "% | Nombre: " ++ (name ++ (codes " | PID: " ++ pid)))) in
      let split : line ≡ etiqueta t ++ (rest ++ (newline ∷ [])) =
        append_assoc (etiqueta t) rest (newline ∷ []) in
      let fresh : g.str_has_prefix line (codes "NUEVA_ITERACION") ≡ false =
        lib.prefix_lem line (codes "NUEVA_ITERACION")
        ∙ ap (is_prefix (codes "NUEVA_ITERACION")) split
        ∙ no_iteration t (rest ++ (newline ∷ [])) in
      let alert : is_alert g line ≡ true =
        ap (is_alert g) split ∙ is_alert-etiqueta g lib t (rest ++ (newline ∷ [])) in
      let ink = cuerpo-EndsInk t v name pid wp in
      let chomped : g.strchomp line ≡ cuerpo fl t v name pid =
        lib.chomp_lem (cuerpo fl t v name pid) (newline ∷ []) ink (refl, tt) in
      rw
        (
          fresh,
          alert,
          chomped,
          analizar-cuerpo t v name pid lv iv nv ln sn nn wp np,
          tipo_mostrar-etiqueta t,
        )
        refl
