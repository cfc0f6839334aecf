-- ===== src/Common/Text.antt =====
-- C strings as lists of character codes (without the closing NUL), and the functions of the C
-- library that the programs apply to them. A pointer into a string is the rest of it.
pub mod Scan
pub mod Search
pub mod Words
use Prim.Native.Char.{code}
use Prim.Native.Nat.{ℕ, suc, ◌+◌, ◌-◌}
use Prim.Native.String.{String}
use mathlib.Core.Path.{◌≡◌, refl, ap}
use mathlib.Core.Logic.{◌↔◌, inl, inr}
use mathlib.Core.Bool.{Bool, true, false, ◌&&◌, ◌||◌}
use mathlib.Core.Option.{Option, none, some}
use mathlib.Core.List.{List, [], ◌∷◌, ◌++◌}
use native.Mathlib.Omega.{arith}
use antibawirus.Common.Tests.{◌==◌, if◌then◌else◌, Bool-cases}
use antibawirus.Common.Lists.{take}

abbrev pub Text : Type 0
Text = List ℕ

-- The codes of a literal of the source.
abbrev pub codes : String → Text
codes String.[] = []
codes (String.◌∷◌ c s) = code c ∷ codes s

-- `strcmp(s, t) == 0`
unfoldable pub str_eq : Text → Text → Bool
str_eq [] [] = true
str_eq [] (b ∷ t) = false
str_eq (a ∷ s) [] = false
str_eq (a ∷ s) (b ∷ t) = a == b && str_eq s t

pub str_eq_iff : (s t : Text) → (str_eq s t ≡ true) ↔ (s ≡ t)
unfolding str_eq
str_eq_iff [] [] = (λ _. refl, λ _. refl)
str_eq_iff [] (b ∷ t) = (λ h. cc, λ h. cc)
str_eq_iff (a ∷ s) [] = (λ h. cc, λ h. cc)
str_eq_iff (a ∷ s) (b ∷ t) =
    (λ h. ground (arith, str_eq_iff s t), λ h. ground (arith, str_eq_iff s t))

pub str_eq_refl : (s : Text) → str_eq s s ≡ true
str_eq_refl s = (str_eq_iff s s).1 refl

-- `strncmp(s, p, strlen(p)) == 0`
unfoldable pub is_prefix : Text → Text → Bool
is_prefix [] s = true
is_prefix (a ∷ p) [] = false
is_prefix (a ∷ p) (b ∷ s) = a == b && is_prefix p s

-- `strstr(s, p)`
unfoldable pub strstr : Text → Text → Option Text
strstr [] p = if is_prefix p [] then some [] else none
strstr (c ∷ s) p = if is_prefix p (c ∷ s) then some (c ∷ s) else strstr s p

-- `strstr(s, p) != NULL`
unfoldable pub contains : Text → Text → Bool
contains s p = elim (strstr s p) [ none ↦ false | some _ ↦ true ]

-- `strchr(s, c)`
unfoldable pub strchr : Text → ℕ → Option Text
strchr [] c = none
strchr (x ∷ s) c = if x == c then some (x ∷ s) else strchr s c

-- `strrchr(s, c) - s`
unfoldable pub strrchr : Text → ℕ → Option ℕ
strrchr [] c = none
strrchr (x ∷ s) c = elim (strrchr s c) [
  | some i ↦ some (suc i)
  | none ↦ if x == c then some 0 else none
]

-- What `snprintf` leaves in a buffer of `n` bytes.
abbrev pub fit : ℕ → Text → Text
fit n s = take (n - 1) s

abbrev pub newline : ℕ
newline = 10

abbrev onto : ℕ → List Text → List Text
onto c [] = (c ∷ []) ∷ []
onto c (l ∷ ls) = (c ∷ l) ∷ ls

-- The lines that calls of `fgets` read with `room` bytes left of `limit`.
fgets_from : ℕ → ℕ → Text → List Text
fgets_from limit room [] = []
fgets_from limit room (c ∷ s) =
    let ends = c == newline || room == 1 in
    let rest = fgets_from limit (if ends then limit else room - 1) s in
    if ends then (c ∷ []) ∷ rest else onto c rest

-- `while (fgets(line, n, f))` on a file with the text `s`.
unfoldable pub fgets_lines : ℕ → Text → List Text
unfolding fgets_from
fgets_lines n s = fgets_from (n - 1) (n - 1) s

abbrev pub concat : List Text → Text
concat [] = []
concat (l ∷ ls) = l ++ concat ls

concat-onto : (c : ℕ) (ls : List Text) → concat (onto c ls) ≡ c ∷ concat ls
concat-onto c [] = refl
concat-onto c (l ∷ ls) = refl

concat-fgets_from : (limit room : ℕ) (s : Text) → concat (fgets_from limit room s) ≡ s
unfolding fgets_from
concat-fgets_from limit room [] = refl
concat-fgets_from limit room (c ∷ s) = elim (Bool-cases (c == newline || room == 1)) [
  | inl e ↦ rw e (ap (λ t. c ∷ t) (concat-fgets_from limit limit s))
  | inr e ↦
      rw (e, concat-onto c (fgets_from limit (room - 1) s))
        (ap (λ t. c ∷ t) (concat-fgets_from limit (room - 1) s))
]

-- The lines read make up the file.
pub concat-fgets_lines : (n : ℕ) (s : Text) → concat (fgets_lines n s) ≡ s
unfolding fgets_lines
concat-fgets_lines n s = concat-fgets_from (n - 1) (n - 1) s
