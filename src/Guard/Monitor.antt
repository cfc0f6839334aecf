-- ===== src/Guard/Monitor.antt =====
-- Guardia del tesoro real/monitor.c: the white list, and the figures read from /proc.
pub mod Laws
use antibawirus.Common.{
  ℕ, zero, suc, ◌+◌, Bool, true, false, List, [], ◌∷◌, ◌++◌, Option, none, some, ltb, if◌then◌else◌,
  length, drop,
}
use antibawirus.Common.Int.{ℤ, pos, ◌+ℤ◌}
use antibawirus.Common.Text.{Text, codes, str_eq, is_prefix, fgets_lines, fit}
use antibawirus.Common.Text.Scan.{scan_long}

-- The names of the white list; `none` is the null pointer that closes it.
abbrev pub lista : List (Option Text)
lista =
    some (codes "systemd")
    ∷ some (codes "kthreadd")
    ∷ some (codes "rcu_sched")
    ∷ some (codes "gnome-shell")
    ∷ some (codes "sshd")
    ∷ none
    ∷ []

unfoldable pub en_lista : Text → List (Option Text) → Bool
en_lista name [] = false
en_lista name (none ∷ rest) = false
en_lista name (some n ∷ rest) = if str_eq name n then true else en_lista name rest

unfoldable pub lista_blanca : Text → Bool
unfolding en_lista
lista_blanca name = en_lista name lista

-- `access` answers whether a path exists.
unfoldable pub pid_exists : (Text → Bool) → Text → Bool
pid_exists access pid = access (fit 256 (codes "/proc/" ++ pid))

-- Up to `n` conversions `%ld`, each after white space: the numbers that are stored.
unfoldable pub scan_longs : ℕ → Text → List ℤ
scan_longs zero s = []
scan_longs (suc n) s = elim (scan_long s) [ none ↦ [] | some (v, rest) ↦ v ∷ scan_longs n rest ]

abbrev pub suma : List ℤ → ℤ
suma [] = pos 0
suma (v ∷ vs) = v +ℤ suma vs

-- `sscanf(line, "cpu %ld …")`: the literal, and then up to eight numbers.
unfoldable pub scan_cpu : Text → List ℤ
unfolding scan_longs
scan_cpu line = if is_prefix (codes "cpu") line then scan_longs 8 (drop 3 line) else []

-- Fewer than four numbers give 0; of the others, those that were stored are added up.
unfoldable pub cpu_total : List ℤ → ℤ
cpu_total vs = if ltb (length vs) 4 then pos 0 else suma vs

-- `none` is a file that cannot be opened.
unfoldable pub get_cpu_time : Option Text → ℤ
unfolding scan_cpu cpu_total
get_cpu_time none = pos 0
get_cpu_time (some file) = elim (fgets_lines 1024 file) [
  | [] ↦ pos 0
  | line ∷ _ ↦ cpu_total (scan_cpu line)
]

-- The first line that starts with `MemTotal:` ends the loop, whether or not a number follows.
unfoldable pub mem_total : List Text → ℤ
mem_total [] = pos 0
mem_total (line ∷ rest) =
    if is_prefix (codes "MemTotal:") line
    then elim (scan_long (drop 9 line)) [ none ↦ pos 0 | some (v, _) ↦ v ]
    else mem_total rest

unfoldable pub get_total_ram : Option Text → ℤ
unfolding mem_total
get_total_ram none = pos 0
get_total_ram (some file) = mem_total (fgets_lines 256 file)
