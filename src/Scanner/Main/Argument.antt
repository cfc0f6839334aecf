-- ===== src/Scanner/Main/Argument.antt =====
-- How `main` reads its argument, and which runs it refuses.
use antibawirus.Common.{
  ℕ, ◌≤◌, ◌<◌, ◌^◌, ◌≡◌, refl, ◌≢◌, inl, inr, true, false, List, [], ◌∷◌, ◌++◌, none, some, arith,
  length, length-map, Bool-cases, Option-cases,
}
use antibawirus.Common.Int.{ℤ, pos, negsuc, pos_part}
use antibawirus.Common.Text.{Text}
use antibawirus.Common.Text.Scan.{value, is_digit, literal}
use antibawirus.Common.Text.Scan.Laws.{IsNumber, Stops, scan_int-number, is_digit-dash}
use antibawirus.Scanner.Ports.{Net}
use antibawirus.Scanner.Split.Partition.{start_threads_covers}
use antibawirus.Scanner.Split.{Creado, trabaja}
use antibawirus.Scanner.Main.{
  scan_range, out_of_range, Run, usage, bad_format, bad_range, started, main, run_threads,
  scan_checked,
}

-- The program's own form of a range, "first-last" in decimal with numbers below 2^31, is read as
-- its two numbers, whatever follows them that is not a digit.
pub scan_range-numbers :
    (first last rest : Text)
    → IsNumber first
    → IsNumber last
    → value 0 first < 2 ^ 31
    → value 0 last < 2 ^ 31
    → Stops is_digit rest
    → scan_range (first ++ b'-' ∷ (last ++ rest)) ≡ some (pos (value 0 first), pos (value 0 last))
unfolding scan_range literal
scan_range-numbers first last rest h1 h2 l1 l2 st =
    rw
      (
        scan_int-number first (b'-' ∷ (last ++ rest)) h1 is_digit-dash l1,
        scan_range,
        scan_int-number last rest h2 st l2,
      )
      refl

-- The bounds that `main` lets through.
abbrev pub InRange : ℤ → ℤ → Type 0
InRange first last =
    (first ≡ pos (pos_part first))
    × (last ≡ pos (pos_part last))
    × (1 ≤ pos_part first)
    × (pos_part first ≤ pos_part last)
    × (pos_part last ≤ 65535)

accepted-InRange : (first last : ℤ) → out_of_range first last ≡ false → InRange first last
unfolding out_of_range
accepted-InRange (pos a) (pos b) h = ground arith
accepted-InRange (pos a) (negsuc b) h = ground arith
accepted-InRange (negsuc a) last h = ground arith

refused-not_InRange : (first last : ℤ) → out_of_range first last ≡ true → ¬ InRange first last
unfolding out_of_range
refused-not_InRange (pos a) (pos b) h v = ground arith
refused-not_InRange (pos a) (negsuc b) h v = ground arith
refused-not_InRange (negsuc a) last h v = ground arith

abbrev pub Outcome : Net → (ℕ → Creado) → List Text → Run → Type 0
Outcome net create argv usage = length argv ≢ 1
Outcome net create argv bad_format = (arg : Text) × (argv ≡ arg ∷ []) × (scan_range arg ≡ none)
Outcome net create argv bad_range =
    (arg : Text) × (first : ℤ) × (last : ℤ) × (argv ≡ arg ∷ [])
    × (scan_range arg ≡ some (first, last))
    × (¬ InRange first last)
Outcome net create argv (started threads) =
    (arg : Text) × (first : ℤ) × (last : ℤ) × (argv ≡ arg ∷ [])
    × (scan_range arg ≡ some (first, last))
    × InRange first last
    × (length threads ≤ 64)
Outcome net create argv Run.undefined = ⊥

checked-Outcome :
    (net : Net) (create : ℕ → Creado) (arg : Text) (first last : ℤ)
    → ((k : ℕ) → create k ≡ trabaja)
    → scan_range arg ≡ some (first, last)
    → Outcome net create (arg ∷ []) (scan_checked net create first last)
unfolding scan_checked run_threads
checked-Outcome net create arg first last ok e = elim (Bool-cases (out_of_range first last)) [
  | inl r ↦ rw (r, scan_checked) (arg, first, last, refl, e, refused-not_InRange first last r)
  | inr r ↦
      let v = accepted-InRange first last r in
      let (args, launched, _, few, _) =
        start_threads_covers create (pos_part first) (pos_part last) ok v.2 v.3 in
      rw (r, scan_checked, launched) (arg, first, last, refl, e, v, rw length-map few)
]

-- If every thread can be created and has not ended when `main` reads its arguments again for the next
-- round, a run ends in one of four ways, and does not read freed memory:
-- the usage line exactly when there is not one argument; the format error when the argument does
-- not scan as two numbers; the range error when these are not 1 ≤ first ≤ last ≤ 65535; and else
-- it starts at most 64 threads.
pub main-Outcome :
    (net : Net) (create : ℕ → Creado) (argv : List Text)
    → ((k : ℕ) → create k ≡ trabaja)
    → Outcome net create argv (main net create argv)
unfolding main
main-Outcome net create [] ok = λ e. omega arith
main-Outcome net create (arg ∷ a ∷ rest) ok = λ e. omega arith
main-Outcome net create (arg ∷ []) ok = elim (Option-cases (scan_range arg)) [
  | inl e ↦ rw (e, main) (arg, refl, e)
  | inr ((first, last), e) ↦ rw (e, main) (checked-Outcome net create arg first last ok e)
]
