-- ===== src/Scanner/Main.antt =====
-- Ports_Scanner.c, `main`: the argument, the threads, and what they print together.
pub mod Argument
pub mod Threads
use antibawirus.Common.{ℕ, Bool, ◌||◌, List, [], ◌∷◌, Option, none, some, map, if◌then◌else◌}
use antibawirus.Common.Int.{ℤ, pos, pos_part, ltb_ℤ}
use antibawirus.Common.Text.{Text}
use antibawirus.Common.Text.Scan.{scan_int, literal}
use antibawirus.Scanner.Ports.{Line, Net, port_scanner}
use antibawirus.Scanner.Split.{Creado, ScanArgs, start_threads}

-- `sscanf(argv[1], "%d-%d", …)`: both numbers, if both conversions are made.
unfoldable pub scan_range : Text → Option (ℤ × ℤ)
scan_range s = elim (scan_int s) [
  | none ↦ none
  | some (first, rest) ↦ elim (literal b'-' rest) [
    | none ↦ none
    | some rest' ↦ elim (scan_int rest') [ none ↦ none | some (last, _) ↦ some (first, last) ]
  ]
]

unfoldable pub out_of_range : ℤ → ℤ → Bool
out_of_range first last = ltb_ℤ first (pos 1) || ltb_ℤ (pos 65535) last || ltb_ℤ last first

-- How a run ends. `started` holds the lines that each thread prints, the threads in order of
-- creation; `undefined` is the read of freed arguments.
pub data Run : Type 0 where
  usage bad_format bad_range undefined : Run
  started : List (List Line) → Run

unfoldable pub scan_thread : Net → ScanArgs → List Line
scan_thread net a = port_scanner net a.start_port a.end_port

unfoldable pub run_threads : Net → Option (List ScanArgs) → Run
unfolding scan_thread
run_threads net none = undefined
run_threads net (some threads) = started (map (scan_thread net) threads)

unfoldable pub scan_checked : Net → (ℕ → Creado) → ℤ → ℤ → Run
unfolding run_threads
scan_checked net create first last =
    if out_of_range first last
    then bad_range
    else run_threads net (start_threads create (pos_part first) (pos_part last))

-- The arguments are those behind the program's name.
unfoldable pub main : Net → (ℕ → Creado) → List Text → Run
unfolding scan_checked
main net create [] = usage
main net create (arg ∷ []) = elim (scan_range arg) [
  | none ↦ bad_format
  | some (first, last) ↦ scan_checked net create first last
]
main net create (arg ∷ more ∷ rest) = usage
