-- ===== src/Salon/Tables/Processes.antt =====
-- UI.c and guardia_info.c: the row that the window shows of a process.
use mathlib.Core.List.{append_assoc, append-nil}
use antibawirus.Common.{ℕ, ◌≡◌, refl, true, false, List, [], ◌∷◌, ◌++◌, some, All, arith}
use antibawirus.Common.Int.{ℤ}
use antibawirus.Common.Text.{Text, codes, is_prefix, strchr, newline}
use antibawirus.Common.Text.Scan.{is_digit, is_space}
use antibawirus.Common.Text.Words.{Lacks, strchr-Lacks}
use antibawirus.Guard.Tracker.{Floats}
use antibawirus.Guard.Process.{fila}
use antibawirus.Guard.Report.{decimal, decimal_int, texto}
use antibawirus.Guard.Report.Digits.{
  decimal-Lacks, decimal_int-Lacks, decimal_int-EndsInk, decimal-EndsInk,
}
use antibawirus.Guard.System.{starts_digit}
use antibawirus.Salon.Glib.{Glib, IsGlib, join}
use antibawirus.Salon.Tables.{normal, FilaProceso, con, agregar_proceso, read_guardia_info_table}

pub Lacks-snoc : (s : Text) (c : ℕ) (d : ℕ) → Lacks d s → Lacks d (c ∷ []) → Lacks d (s ++ (c ∷ []))
Lacks-snoc [] c d a b = b
Lacks-snoc (x ∷ s) c d a b = (a.0, Lacks-snoc s c d a.1 b)

-- A line that starts with a digit starts no iteration.
digit_line :
    (pid rest : Text)
    → starts_digit pid ≡ true
    → is_prefix (codes "NUEVA_ITERACION") (pid ++ rest) ≡ false
unfolding is_prefix starts_digit is_digit
digit_line [] rest h = cc
digit_line (c ∷ pid) rest h = ground arith

module _ (fl : Floats) (g : Glib) where
  -- A line of six or more fields, and the row of the first six.
  line_shown :
      IsGlib g
      → (pid b c d e f chomped : Text) (rest : List Text) (store : List FilaProceso)
      → starts_digit pid ≡ true
      → g.strchomp f ≡ chomped
      → All (Lacks b';') (pid ∷ b ∷ c ∷ d ∷ e ∷ f ∷ rest)
      → read_guardia_info_table g (normal (join b';' (pid ∷ b ∷ c ∷ d ∷ e ∷ f ∷ rest))) store
        ≡ con (
            store
            ++ (record { pid = pid; nombre = b; cpu = c; ram = d; mem_virtual = e; hilos = chomped }
                ∷ []))
  unfolding read_guardia_info_table
  line_shown lib pid b c d e f chomped rest store start ch h =
      let fields = pid ∷ b ∷ c ∷ d ∷ e ∷ f ∷ rest in
      let tail = join b';' (b ∷ c ∷ d ∷ e ∷ f ∷ rest) in
      let whole : g.strsplit (join b';' fields) b';' ≡ fields =
        lib.split-join b';' pid b (c ∷ d ∷ e ∷ f ∷ rest) h in
      let fresh : g.str_has_prefix (join b';' fields) (codes "NUEVA_ITERACION") ≡ false =
        rw (lib.prefix_lem (join b';' fields) (codes "NUEVA_ITERACION"))
          (digit_line pid (b';' ∷ tail) start) in
      let found : strchr (join b';' fields) b';' ≡ some (b';' ∷ tail) =
        strchr-Lacks b';' pid tail h.0 in
      rw (fresh, read_guardia_info_table, found, whole, agregar_proceso, ch) refl

  pub threads-Lacks : (threads : ℤ) → Lacks b';' (decimal_int threads ++ (newline ∷ []))
  threads-Lacks threads =
      Lacks-snoc (decimal_int threads) newline b';' (decimal_int-Lacks threads) (refl, tt)

  -- If GLib behaves as documented, then the line that the monitor prints of a process becomes one
  -- more row of the table, with the six values in their columns, if the pid starts with a digit,
  -- and neither the pid, nor the name, nor a printed percentage holds a semicolon.
  pub fila-shown :
      IsGlib g
      → (pid name : Text) (cpu ram : fl.Float) (vsize : ℕ) (threads : ℤ) (store : List FilaProceso)
      → starts_digit pid ≡ true
      → Lacks b';' pid
      → Lacks b';' name
      → Lacks b';' (fl.print cpu)
      → Lacks b';' (fl.print ram)
      → read_guardia_info_table g (normal (texto fl (fila pid name cpu ram vsize threads))) store
        ≡ con (
            store
            ++ (record {
              pid = pid;
              nombre = name;
              cpu = fl.print cpu;
              ram = fl.print ram;
              mem_virtual = decimal vsize;
              hilos = decimal_int threads;
            }
                ∷ []))
  unfolding texto is_space
  fila-shown lib pid name cpu ram vsize threads store start lp ln lc lr =
      let chomped : g.strchomp (decimal_int threads ++ (newline ∷ [])) ≡ decimal_int threads =
        lib.chomp_lem (decimal_int threads) (newline ∷ []) (decimal_int-EndsInk threads)
          (refl, tt) in
      line_shown lib pid name (fl.print cpu) (fl.print ram) (decimal vsize)
        (decimal_int threads ++ (newline ∷ [])) (decimal_int threads) [] store start chomped
        (lp, (ln, (lc, (lr, (decimal-Lacks vsize, (threads-Lacks threads, tt))))))

  -- If the name holds a semicolon, the row shows the name up to it, what is behind it in the place
  -- of the CPU, and each other value one column too far; the number of threads is not shown.
  pub fila-shifted :
      IsGlib g
      → (pid first second : Text) (cpu ram : fl.Float) (vsize : ℕ) (threads : ℤ)
        (store : List FilaProceso)
      → starts_digit pid ≡ true
      → Lacks b';' pid
      → Lacks b';' first
      → Lacks b';' second
      → Lacks b';' (fl.print cpu)
      → Lacks b';' (fl.print ram)
      → read_guardia_info_table g
          (normal (texto fl (fila pid (first ++ b';' ∷ second) cpu ram vsize threads)))
          store
        ≡ con (
            store
            ++ (record {
              pid = pid;
              nombre = first;
              cpu = second;
              ram = fl.print cpu;
              mem_virtual = fl.print ram;
              hilos = decimal vsize;
            }
                ∷ []))
  unfolding texto
  fila-shifted lib pid first second cpu ram vsize threads store start lp lf ls lc lr =
      let chomped : g.strchomp (decimal vsize) ≡ decimal vsize =
        rw append-nil at (lib.chomp_lem (decimal vsize) [] (decimal-EndsInk vsize) tt) in
      let last = decimal_int threads ++ (newline ∷ []) in
      let shown =
        line_shown lib pid first second (fl.print cpu) (fl.print ram) (decimal vsize)
          (decimal vsize) (last ∷ []) store start chomped
          (lp, (lf, (ls, (lc, (lr, (decimal-Lacks vsize, (threads-Lacks threads, tt))))))) in
      let tail = fl.print cpu ++ b';' ∷ (fl.print ram ++ b';' ∷ (decimal vsize ++ b';' ∷ last)) in
      rw (append_assoc first (b';' ∷ second) (b';' ∷ tail)) shown
