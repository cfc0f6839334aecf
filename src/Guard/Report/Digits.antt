-- ===== src/Guard/Report/Digits.antt =====
-- The characters of printed numbers.
use antibawirus.Common.{
  ℕ, zero, suc, ◌+◌, ◌/◌, ◌%◌, ◌<◌, ◌≡◌, refl, false, [], ◌∷◌, arith, ltb, inl, inr, All,
  All-append, Bool-cases,
}
use antibawirus.Common.Int.{ℤ, pos, negsuc}
use antibawirus.Common.Text.{Text}
use antibawirus.Common.Text.Scan.{is_space}
use antibawirus.Common.Text.Words.{EndsInk, EndsInk-append, Lacks}
use antibawirus.Guard.Report.{digits, decimal, decimal_int}

-- The code of a digit.
abbrev pub IsDigit : ℕ → Type 0
IsDigit c = (47 < c) × (c < 58)

digits-IsDigit : (fuel n : ℕ) → All IsDigit (digits fuel n)
unfolding digits
digits-IsDigit zero n = tt
digits-IsDigit (suc fuel) n = elim (Bool-cases (ltb n 10)) [
  | inl e ↦ rw e ((ground arith, ground arith), tt)
  | inr e ↦ rw e (
      All-append IsDigit (digits fuel (n / 10)) _ (digits-IsDigit fuel (n / 10))
        ((omega arith, omega arith), tt))
]

space_digit : (c : ℕ) → IsDigit c → is_space c ≡ false
unfolding is_space
space_digit c h = ground arith

pub decimal-EndsInk : (n : ℕ) → EndsInk (decimal n)
unfolding decimal digits
decimal-EndsInk n = elim (Bool-cases (ltb n 10)) [
  | inl e ↦ rw e (space_digit (n + b'0') (ground arith, ground arith))
  | inr e ↦ rw e (
      EndsInk-append (digits n (n / 10)) ((n % 10 + b'0') ∷ [])
        (space_digit (n % 10 + b'0') (omega arith, omega arith)))
]

pub decimal_int-EndsInk : (z : ℤ) → EndsInk (decimal_int z)
unfolding decimal_int
decimal_int-EndsInk (pos n) = decimal-EndsInk n
decimal_int-EndsInk (negsuc n) =
    EndsInk-append (b'-' ∷ []) (decimal (suc n)) (decimal-EndsInk (suc n))

Lacks-semicolon : (s : Text) → All IsDigit s → Lacks b';' s
Lacks-semicolon [] h = tt
Lacks-semicolon (c ∷ s) h = (ground (arith, h.0), Lacks-semicolon s h.1)

pub decimal-Lacks : (n : ℕ) → Lacks b';' (decimal n)
unfolding decimal
decimal-Lacks n = Lacks-semicolon (decimal n) (digits-IsDigit (suc n) n)

pub decimal_int-Lacks : (z : ℤ) → Lacks b';' (decimal_int z)
unfolding decimal_int
decimal_int-Lacks (pos n) = decimal-Lacks n
decimal_int-Lacks (negsuc n) = (refl, decimal-Lacks (suc n))
