-- ===== src/Guard/Report/Value.antt =====
-- guardia_info.c: the printed decimals stand for the numbers.
use antibawirus.Common.{
  ℕ, zero, suc, ◌+◌, ◌-◌, ◌*◌, ◌/◌, ◌%◌, ◌≤◌, ◌<◌, ◌≡◌, refl, inl, inr, [], ◌∷◌, ◌++◌, arith, ltb,
  Bool-cases,
}
use antibawirus.Common.Text.{Text}
use antibawirus.Common.Text.Scan.{value}
use antibawirus.Guard.Report.{digits, decimal}

-- The value of digits that one more digit follows.
value-snoc :
    (acc : ℕ) (s : Text) (d : ℕ) → value acc (s ++ (d ∷ [])) ≡ value acc s * 10 + (d - b'0')
unfolding value
value-snoc acc [] d = refl
value-snoc acc (c ∷ s) d = value-snoc (acc * 10 + (c - b'0')) s d

value-digits : (fuel n : ℕ) → n < fuel → value 0 (digits fuel n) ≡ n
unfolding digits value
value-digits zero n h = absurd (omega (arith, h))
value-digits (suc fuel) n h = elim (Bool-cases (ltb n 10)) [
  | inl e ↦ rw e (omega arith)
  | inr e ↦
      let big : 10 ≤ n = ground (arith, e) in
      let smaller : n / 10 < fuel = omega (arith, h, big) in
      rw
        (e, value-snoc 0 (digits fuel (n / 10)) (n % 10 + b'0'), value-digits fuel (n / 10) smaller)
        (omega arith)
]

-- The decimal that is printed of a number stands for that number: the fuel is enough.
pub value-decimal : (n : ℕ) → value 0 (decimal n) ≡ n
unfolding decimal
value-decimal n = value-digits (suc n) n (omega arith)
