-- ===== src/Common/Text/Search.antt =====
-- `strstr` on a line of words between separators.
use antibawirus.Common.{
  ℕ, ◌≡◌, refl, ◌∙◌, true, false, [], ◌∷◌, ◌++◌, none, some, ◌==◌, ==_iff, All, Bool-cases, inl,
  inr,
}
use antibawirus.Common.Text.{Text, is_prefix, strstr}

-- A character that a text does not hold.
abbrev pub Without : ℕ → Text → Type 0
Without c p = All (λ d. (d == c) ≡ false) p

is_prefix-separated :
    (p xs rest : Text) (c : ℕ) → Without c p → is_prefix p (xs ++ c ∷ rest) ≡ is_prefix p xs
unfolding is_prefix
is_prefix-separated [] xs rest c h = refl
is_prefix-separated (a ∷ p) [] rest c h = rw h.0 refl
is_prefix-separated (a ∷ p) (x ∷ xs) rest c h = rw (is_prefix-separated p xs rest c h.1) refl

no_room : (a : ℕ) (p : Text) → is_prefix (a ∷ p) [] ≡ false
unfolding is_prefix
no_room a p = refl

pub strstr-separated :
    (a : ℕ) (p xs rest : Text) (c : ℕ)
    → Without c (a ∷ p)
    → strstr xs (a ∷ p) ≡ none
    → strstr (xs ++ c ∷ rest) (a ∷ p) ≡ strstr rest (a ∷ p)
unfolding strstr
strstr-separated a p [] rest c h e = rw (is_prefix-separated (a ∷ p) [] rest c h, no_room a p) refl
strstr-separated a p (x ∷ xs) rest c h e = elim (Bool-cases (is_prefix (a ∷ p) (x ∷ xs))) [
  | inl t ↦ cc (rw (t, strstr) at e)
  | inr t ↦
      let t' : is_prefix (a ∷ p) (x ∷ xs ++ c ∷ rest) ≡ false =
        is_prefix-separated (a ∷ p) (x ∷ xs) rest c h ∙ t in
      rw t' (strstr-separated a p xs rest c h (rw (t, strstr) at e))
]

is_prefix_self : (p rest : Text) → is_prefix p (p ++ rest) ≡ true
unfolding is_prefix
is_prefix_self [] rest = refl
is_prefix_self (a ∷ p) rest = rw ((==_iff a a).1 refl, is_prefix_self p rest) refl

pub strstr_self : (a : ℕ) (p rest : Text) → strstr (a ∷ p ++ rest) (a ∷ p) ≡ some (a ∷ p ++ rest)
unfolding strstr
strstr_self a p rest = rw (is_prefix_self (a ∷ p) rest) refl
