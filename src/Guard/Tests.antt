-- ===== src/Guard/Tests.antt =====
-- The process monitor at concrete inputs.
mod System
use antibawirus.Common.{
  ◌≡◌, refl, ◌↔◌, Bool, true, false, List, [], ◌∷◌, ◌++◌, some, In, ◌+◌, ◌-◌, arith,
}
use mathlib.Core.List.{Perm}
use antibawirus.Common.Int.{ℤ, pos, ltb_ℤ, ◌-ℤ◌}
use antibawirus.Common.Text.{Text, codes, str_eq, fgets_lines}
use antibawirus.Guard.Monitor.{lista_blanca, get_total_ram}
use antibawirus.Common.Text.Scan.{value, is_digit}
use antibawirus.Guard.Process.{tiempos}
use antibawirus.Guard.Process.Times.{spaced, tiempos-spaced}
use antibawirus.Guard.Tracker.{
  Floats, ProcessHistory, ProcessTracker, Sample, pico_ram, Updated, done, update_process, cleanup,
}
use antibawirus.Guard.Tracker.Invariant.{
  str_eq-false, IsValid, IsValidOutcome, update_process-IsValid,
}
use antibawirus.Guard.Tracker.Cleanup.{active, keep, cleanup-keep}
use antibawirus.Guard.Tracker.Stale.{dos_muestras, second_sample}

-- Whole percents stand for the floating-point numbers.
abbrev pub whole : Floats
whole = record {
  Float = ℤ;
  zero_f = pos 0;
  ten = pos 10;
  percent = λ a b. a;
  per_cpu = λ a n. a;
  exceeds = λ a b l. ltb_ℤ l (a -ℤ b);
  above = λ a l. ltb_ℤ l a;
  minus = λ a b. a -ℤ b;
  print = λ v. codes "7.00";
  of_long = λ v. v;
  to_long = λ v. v;
}

abbrev pub slot : Text → ℤ → ProcessHistory whole
slot p ram = record {
  pid = p;
  name = codes "sh";
  prev_cpu = pos 0;
  prev_memory = pos 0;
  prev_ram_percent = ram;
  prev_alert = pos 0;
  prev_proc_time = pos 0;
  prev_total_cpu = pos 0;
}

-- Two processes in a table of four slots, the third of which holds an old value.
abbrev two : ProcessTracker whole
two = record {
  processes =
      slot (codes "10") (pos 1)
      ∷ slot (codes "11") (pos 2)
      ∷ slot (codes "9") (pos 40)
      ∷ slot [] (pos 0)
      ∷ [];
  count = 2;
  capacity = 4;
}

two-IsValid : IsValid whole two
unfolding str_eq
two-IsValid = record {
  slots = refl;
  within = omega arith;
  room = omega arith;
  distinct = ((str_eq-false (codes "11") (codes "10") refl, tt), (tt, tt));
}

abbrev sample : Text → ℤ → Sample whole
sample p ram = record {
  pid = p;
  name = codes "bash";
  current_proc_time = pos 5;
  current_total_cpu = pos 10;
  memory = pos 3;
  ram_percent = ram;
  num_cpus = pos 1;
}

abbrev only_eleven : Text → Bool
only_eleven p = str_eq p (codes "11")

abbrev meminfo : Text
meminfo = codes "Cached: 1\nMemTotal: 2048 kB\n"

get_total_ram-meminfo : get_total_ram (some meminfo) ≡ pos 2048
unfolding get_total_ram fgets_lines antibawirus.Common.Text.is_prefix
    antibawirus.Common.Text.Scan.scan_long
get_total_ram-meminfo = refl

update_process-IsValid_example : IsValidOutcome whole (
    update_process whole
      (pos 50)
      lista_blanca
      (some (slot [] (pos 0) ∷ slot [] (pos 0) ∷ slot [] (pos 0) ∷ slot [] (pos 0) ∷ []))
      (sample (codes "12") (pos 3))
      two)
update_process-IsValid_example =
    update_process-IsValid whole (pos 50) lista_blanca
      (slot [] (pos 0) ∷ slot [] (pos 0) ∷ slot [] (pos 0) ∷ slot [] (pos 0) ∷ [])
      (sample (codes "12") (pos 3)) two two-IsValid (omega arith) refl

cleanup-keep_example :
    Perm
      (active whole (cleanup whole only_eleven two))
      (keep (λ h. only_eleven h.pid) (active whole two))
cleanup-keep_example = cleanup-keep whole only_eleven two two-IsValid

second_sample_example :
    (u : Updated whole) × (dos_muestras whole
        (pos 50)
        lista_blanca
        (sample (codes "12") (pos 3))
        (sample (codes "12") (pos 4))
        two
      ≡ done u)
    × (In (pico_ram (pos 4) (pos 40) (codes "bash") (codes "12")) u.printed
        ↔ ((ltb_ℤ (pos 10) (pos 4 -ℤ pos 40) ≡ true) × (lista_blanca (codes "bash") ≡ false)))
unfolding str_eq
second_sample_example =
    second_sample whole (pos 50) lista_blanca (sample (codes "12") (pos 3))
      (sample (codes "12") (pos 4)) two (slot (codes "9") (pos 40)) two-IsValid (omega arith)
      (
        str_eq-false (codes "10") (codes "12") refl,
        (str_eq-false (codes "11") (codes "12") refl, tt),
      )
      (omega arith) refl refl

-- Thirteen words for twelve fields: the second one is `(Web App)`.
abbrev two_words : List Text
two_words =
    codes "7"
    ∷ codes "(Web"
    ∷ codes "App)"
    ∷ codes "S"
    ∷ codes "1"
    ∷ codes "7"
    ∷ codes "7"
    ∷ codes "0"
    ∷ codes "-1"
    ∷ codes "64"
    ∷ codes "90"
    ∷ codes "0"
    ∷ codes "0"
    ∷ []

tiempos-spaced_example :
    tiempos (spaced two_words ++ (codes "4" ++ 32 ∷ (codes "250" ++ codes " 31")))
    ≡ some (pos (value 0 (codes "4")), pos (value 0 (codes "250")))
unfolding value is_digit
tiempos-spaced_example =
    tiempos-spaced two_words (codes "4") (codes "250") (codes " 31") refl
      (
        (refl, tt),
        (
          (refl, (refl, (refl, (refl, tt)))),
          (
            (refl, (refl, (refl, (refl, tt)))),
            (
              (refl, tt),
              (
                (refl, tt),
                (
                  (refl, tt),
                  (
                    (refl, tt),
                    (
                      (refl, tt),
                      (
                        (refl, (refl, tt)),
                        ((refl, (refl, tt)), ((refl, (refl, tt)), ((refl, tt), ((refl, tt), tt)))),
                      ),
                    ),
                  ),
                ),
              ),
            ),
          ),
        ),
      )
      (refl, tt) (refl, (refl, (refl, tt))) (omega arith) (omega arith) refl
