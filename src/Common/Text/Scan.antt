-- ===== src/Common/Text/Scan.antt =====
-- The conversions of `sscanf` that the programs use. A conversion returns what it stored and the
-- rest of the input, or `none` where it does not match.
pub mod Laws
use Prim.Native.Nat.{ℕ, zero, suc, ◌+◌, ◌-◌, ◌*◌, ◌%◌, ◌^◌, min}
use mathlib.Core.Bool.{Bool, true, false, ◌&&◌, ◌||◌, not}
use mathlib.Core.Option.{Option, none, some}
use mathlib.Core.List.{[], ◌∷◌}
use antibawirus.Common.Tests.{ltb, leb, ◌==◌, if◌then◌else◌}
use antibawirus.Common.Lists.{length, drop}
use antibawirus.Common.Int.{ℤ, pos, negsuc}
use antibawirus.Common.Text.{Text}

-- `isspace` and `isdigit` in the C locale.
unfoldable pub is_space : ℕ → Bool
is_space c = c == 32 || (leb 9 c && leb c 13)

unfoldable pub is_digit : ℕ → Bool
is_digit c = leb b'0' c && leb c b'9'

unfoldable pub skip_space : Text → Text
unfolding is_space
skip_space [] = []
skip_space (c ∷ s) = if is_space c then skip_space s else c ∷ s

-- The longest run of at most `n` characters that pass the test.
unfoldable pub run_of : (ℕ → Bool) → ℕ → Text → Text
run_of p zero s = []
run_of p (suc n) [] = []
run_of p (suc n) (c ∷ s) = if p c then c ∷ run_of p n s else []

-- A conversion that stores such a run fails on the empty one.
abbrev stored : Text → Text → Option (Text × Text)
stored [] s = none
stored (c ∷ r) s = some (c ∷ r, drop (length (c ∷ r)) s)

unfoldable pub scan_run : (ℕ → Bool) → ℕ → Text → Option (Text × Text)
unfolding run_of
scan_run p n s = stored (run_of p n s) s

-- `%n[^stop]`
unfoldable pub scan_until : ℕ → ℕ → Text → Option (Text × Text)
unfolding scan_run
scan_until stop n s = scan_run (λ c. not (c == stop)) n s

-- `%ns`
unfoldable pub scan_word : ℕ → Text → Option (Text × Text)
unfolding scan_run skip_space is_space
scan_word n s = scan_run (λ c. not (is_space c)) n (skip_space s)

-- The number that decimal digits stand for, after `acc`.
unfoldable pub value : ℕ → Text → ℕ
value acc [] = acc
value acc (d ∷ ds) = value (acc * 10 + (d - b'0')) ds

-- `strtol` saturates at the bounds of `long`.
unfoldable pub to_long : Bool → ℕ → ℤ
to_long false n = pos (min n (2 ^ 63 - 1))
to_long true zero = pos 0
to_long true (suc n) = negsuc (min n (2 ^ 63 - 1))

abbrev number : Bool → Text → Text → Option (ℤ × Text)
number negative [] s = none
number negative (d ∷ r) s = some (to_long negative (value 0 (d ∷ r)), drop (length (d ∷ r)) s)

scan_digits : Bool → Text → Option (ℤ × Text)
unfolding run_of is_digit to_long value
scan_digits negative s = number negative (run_of is_digit (length s) s) s

scan_sign : Text → Option (ℤ × Text)
unfolding scan_digits
scan_sign [] = none
scan_sign (c ∷ s) =
    if c == b'-'
    then scan_digits true s
    else if c == b'+'
    then scan_digits false s
    else scan_digits false (c ∷ s)

-- `%ld`
unfoldable pub scan_long : Text → Option (ℤ × Text)
unfolding scan_sign skip_space is_space
scan_long s = scan_sign (skip_space s)

-- The conversion of a residue modulo 2^32 to `int`.
abbrev signed_residue : ℕ → ℤ
signed_residue m = if ltb m (2 ^ 31) then pos m else negsuc (2 ^ 32 - 1 - m)

unfoldable pub to_int : ℤ → ℤ
to_int (pos n) = signed_residue (n % 2 ^ 32)
to_int (negsuc n) = signed_residue (2 ^ 32 - 1 - n % 2 ^ 32)

-- `%d`, which stores the low 32 bits.
abbrev as_int : Option (ℤ × Text) → Option (ℤ × Text)
as_int none = none
as_int (some (v, rest)) = some (to_int v, rest)

unfoldable pub scan_int : Text → Option (ℤ × Text)
unfolding scan_long to_int
scan_int s = as_int (scan_long s)

-- A character of the format that must stand in the input.
unfoldable pub literal : ℕ → Text → Option Text
literal c [] = none
literal c (x ∷ s) = if x == c then some s else none
