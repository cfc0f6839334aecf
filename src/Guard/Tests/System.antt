-- ===== src/Guard/Tests/System.antt =====
-- The loop over /proc and its threads at concrete inputs.
use antibawirus.Common.{
  ℕ, zero, suc, sym, subst, ◌≡◌, refl, false, List, [], ◌∷◌, Option, none, some, All, arith,
}
use antibawirus.Common.Int.{pos}
use antibawirus.Common.Text.{Text, codes}
use antibawirus.Common.Text.Scan.{is_digit}
use antibawirus.Guard.Tracker.{ProcessHistory, ProcessTracker, init_tracker}
use antibawirus.Guard.Process.{nueva_iteracion, Lecturas}
use antibawirus.Guard.System.{
  Sistema, Entorno, nuevo, leyendo, print, arranque, starts_digit, Reach, inicio, sigue, conserva,
  abre, crea,
}
use antibawirus.Guard.System.Safety.{IsShort, Fits, IsSafe, Reach-IsSafe}
use antibawirus.Guard.Tests.{whole, slot}

abbrev readings : Option Text → Lecturas
readings stat = record {
  status = some (codes "Name:\tsh\nVmRSS:\t 100 kB\nThreads:\t1\n");
  stat = stat;
  statm = some (codes "5 4 3\n");
  cpu_stat = none;
  meminfo = none;
  num_cpus = pos 1;
  page_kb = 4;
  old_name = [];
  old_line = [];
}

abbrev stat_line : Text
stat_line = codes "10 (sh) S 1 1 1 0 0 0 0 0 0 0 6 7 0\n"

-- /proc holds one process, and `realloc` may give the slots asked for.
abbrev small : Option Text → Entorno whole
small stat = record {
  umbral_cpu = pos 80;
  umbral_mem = pos 90;
  lista_blanca = λ n. false;
  Listing = λ names. names ≡ codes "10" ∷ [];
  Memory = λ t extra. Fits whole t extra;
  Reads = λ pid r. r ≡ readings stat;
}

abbrev llenar : ℕ → List (ProcessHistory whole)
llenar zero = []
llenar (suc n) = slot [] (pos 0) ∷ llenar n

abbrev slots : List (ProcessHistory whole)
slots = llenar 32

abbrev primera : ProcessTracker whole
primera = record { processes = slots; count = 0; capacity = 32 }

primera_made : init_tracker whole (some slots) ≡ some primera
unfolding init_tracker
primera_made = refl

-- The loop has begun to read /proc.
abbrev leido : Sistema whole
leido =
    print whole (nueva_iteracion ∷ [])
      (record (arranque whole (small none) primera 0) { principal = leyendo (codes "10" ∷ []) })

leido_reached : (stat : Option Text) → Reach whole (small stat) leido
leido_reached stat =
    sigue (sigue (inicio slots primera 0 refl primera_made) (conserva 0 refl (omega arith)))
      (abre (codes "10" ∷ []) refl refl)

-- The thread of the process has been created.
abbrev creado : Sistema whole
creado = record leido { principal = leyendo []; hilos = nuevo (codes "10") ∷ [] }

creado_reached : (stat : Option Text) → Reach whole (small stat) creado
unfolding starts_digit is_digit
creado_reached stat = sigue (leido_reached stat) (crea (codes "10") [] refl refl)

listed : (stat : Option Text) (names : List Text) → (small stat).Listing names → All IsShort names
listed stat names e = subst (All IsShort) (sym e) (omega arith, tt)

grown :
    (stat : Option Text) (t : ProcessTracker whole) (extra : Option (List (ProcessHistory whole)))
    → (small stat).Memory t extra
    → Fits whole t extra
grown stat t extra m = m

Reach-IsSafe_example : IsSafe whole creado
Reach-IsSafe_example =
    Reach-IsSafe whole (small (some stat_line)) (listed (some stat_line)) (grown (some stat_line))
      (creado_reached (some stat_line))
