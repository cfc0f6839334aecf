-- ===== src/Common/Text/Words.antt =====
-- Texts that lack a character, and texts that end in a character that is no white space.
use antibawirus.Common.{ℕ, ◌≡◌, refl, false, [], ◌∷◌, ◌++◌, some, ◌==◌, ==_iff, All}
use antibawirus.Common.Text.{Text, strchr}
use antibawirus.Common.Text.Scan.{is_space}
use antibawirus.Common.Text.Scan.Laws.{IsWord}

-- The text does not hold the character.
abbrev pub Lacks : ℕ → Text → Type 0
Lacks d s = All (λ c. (c == d) ≡ false) s

pub strchr-Lacks : (d : ℕ) (s rest : Text) → Lacks d s → strchr (s ++ d ∷ rest) d ≡ some (d ∷ rest)
unfolding strchr
strchr-Lacks d [] rest h = rw ((==_iff d d).1 refl) refl
strchr-Lacks d (c ∷ s) rest h = rw (h.0, strchr-Lacks d s rest h.1) refl

-- The last character is no white space.
abbrev pub EndsInk : Text → Type 0
EndsInk [] = ⊥
EndsInk (c ∷ []) = is_space c ≡ false
EndsInk (c ∷ d ∷ s) = EndsInk (d ∷ s)

pub EndsInk-append : (s t : Text) → EndsInk t → EndsInk (s ++ t)
EndsInk-append [] t e = e
EndsInk-append (c ∷ []) [] e = absurd e
EndsInk-append (c ∷ []) (d ∷ t) e = e
EndsInk-append (c ∷ d ∷ s) t e = EndsInk-append (d ∷ s) t e

pub IsWord-EndsInk : (s : Text) → IsWord s → EndsInk s
IsWord-EndsInk [] w = absurd w
IsWord-EndsInk (c ∷ []) w = w.0
IsWord-EndsInk (c ∷ d ∷ s) w = IsWord-EndsInk (d ∷ s) w.1
