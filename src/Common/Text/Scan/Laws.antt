-- ===== src/Common/Text/Scan/Laws.antt =====
-- What the conversions read from a text that was written for them.
use antibawirus.Common.{
  ℕ, zero, suc, ◌^◌, ◌≤◌, ◌<◌, ◌≡◌, refl, ap, ◌∙◌, Bool, true, false, not, [], ◌∷◌, ◌++◌, some,
  arith, length, length-append, drop, All,
}
use antibawirus.Common.Int.{pos}
use antibawirus.Common.Text.{Text}
use antibawirus.Common.Text.Scan.{
  is_space, is_digit, skip_space, run_of, scan_run, scan_word, stored, number, as_int, value,
  to_long, scan_digits, scan_sign, scan_long, to_int, scan_int,
}

-- The text is empty or goes on with a character that fails the test.
abbrev pub Stops : (ℕ → Bool) → Text → Type 0
Stops p [] = Unit
Stops p (c ∷ s) = p c ≡ false

pub run_of-append :
    (p : ℕ → Bool) (n : ℕ) (ds rest : Text)
    → All (λ c. p c ≡ true) ds
    → length ds ≤ n
    → Stops p rest
    → run_of p n (ds ++ rest) ≡ ds
unfolding run_of
run_of-append p zero [] rest h le st = refl
run_of-append p zero (d ∷ ds) rest h le st = absurd (omega arith)
run_of-append p (suc n) [] [] h le st = refl
run_of-append p (suc n) [] (c ∷ rest) h le st = rw st refl
run_of-append p (suc n) (d ∷ ds) rest h le st =
    rw (h.0, run_of-append p n ds rest h.1 (omega arith) st) refl

pub drop-append : (ds rest : Text) → drop (length ds) (ds ++ rest) ≡ rest
drop-append [] rest = refl
drop-append (d ∷ ds) rest = drop-append ds rest

pub scan_run-append :
    (p : ℕ → Bool) (n d : ℕ) (ds rest : Text)
    → All (λ c. p c ≡ true) (d ∷ ds)
    → length (d ∷ ds) ≤ n
    → Stops p rest
    → scan_run p n (d ∷ ds ++ rest) ≡ some (d ∷ ds, rest)
unfolding scan_run
scan_run-append p n d ds rest h le st =
    ap (λ r. stored r (d ∷ ds ++ rest)) (run_of-append p n (d ∷ ds) rest h le st)
    ∙ ap (λ t. some (d ∷ ds, t)) (drop-append (d ∷ ds) rest)

-- A nonempty decimal number.
abbrev pub IsNumber : Text → Type 0
IsNumber [] = ⊥
IsNumber (d ∷ ds) = All (λ c. is_digit c ≡ true) (d ∷ ds)

pub is_digit-dash : is_digit b'-' ≡ false
unfolding is_digit
is_digit-dash = refl

digit_not_space : (c : ℕ) → is_digit c ≡ true → is_space c ≡ false
unfolding is_digit is_space
digit_not_space c h = ground arith

scan_digits-number :
    (negative : Bool) (d : ℕ) (ds rest : Text)
    → IsNumber (d ∷ ds)
    → Stops is_digit rest
    → scan_digits negative (d ∷ ds ++ rest) ≡ some (to_long negative (value 0 (d ∷ ds)), rest)
unfolding scan_digits
scan_digits-number negative d ds rest h st =
    ap (λ r. number negative r (d ∷ ds ++ rest))
      (run_of-append is_digit (length (d ∷ ds ++ rest)) (d ∷ ds) rest h
        (omega (arith, length-append ds rest)) st)
    ∙ ap (λ t. some (to_long negative (value 0 (d ∷ ds)), t)) (drop-append (d ∷ ds) rest)

scan_sign-digit :
    (c : ℕ) (s : Text) → is_digit c ≡ true → scan_sign (c ∷ s) ≡ scan_digits false (c ∷ s)
unfolding scan_sign is_digit
scan_sign-digit c s h = ground arith

pub scan_long-number :
    (ds rest : Text)
    → IsNumber ds
    → Stops is_digit rest
    → value 0 ds < 2 ^ 63
    → scan_long (ds ++ rest) ≡ some (pos (value 0 ds), rest)
unfolding scan_long skip_space to_long
scan_long-number [] rest h st le = absurd h
scan_long-number (d ∷ ds) rest h st le =
    rw
      (
        digit_not_space d h.0,
        scan_sign-digit d (ds ++ rest) h.0,
        scan_digits-number false d ds rest h st,
      )
      (ground arith)

to_int-small : (n : ℕ) → n < 2 ^ 31 → to_int (pos n) ≡ pos n
unfolding to_int
to_int-small n h = ground arith

pub scan_int-number :
    (ds rest : Text)
    → IsNumber ds
    → Stops is_digit rest
    → value 0 ds < 2 ^ 31
    → scan_int (ds ++ rest) ≡ some (pos (value 0 ds), rest)
unfolding scan_int to_int
scan_int-number ds rest h st le =
    ap as_int (scan_long-number ds rest h st (omega arith))
    ∙ ap (λ v. some (v, rest)) (to_int-small (value 0 ds) le)

-- A nonempty run of characters without white space.
abbrev pub IsWord : Text → Type 0
IsWord [] = ⊥
IsWord (c ∷ s) = All (λ d. is_space d ≡ false) (c ∷ s)

pub not_spaces : (s : Text) → All (λ d. is_space d ≡ false) s → All (λ d. not (is_space d) ≡ true) s
not_spaces [] h = tt
not_spaces (c ∷ s) h = (rw h.0 refl, not_spaces s h.1)

-- `%ns` reads a word that fits, up to the space behind it.
pub scan_word-word :
    (n : ℕ) (word rest : Text)
    → IsWord word
    → length word ≤ n
    → scan_word n (word ++ 32 ∷ rest) ≡ some (word, 32 ∷ rest)
unfolding scan_word skip_space
scan_word-word n [] rest h le = absurd h
scan_word-word n (c ∷ s) rest h le =
    rw h.0
      (scan_run-append (λ d. not (is_space d)) n c s (32 ∷ rest) (not_spaces (c ∷ s) h) le refl)
