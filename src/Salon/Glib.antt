-- ===== src/Salon/Glib.antt =====
-- The functions of GLib that Salon/UI.c applies to the lines that it reads, and what their
-- documentation says of them.
use antibawirus.Common.{ℕ, ◌≡◌, Bool, true, List, [], ◌∷◌, ◌++◌, All}
use antibawirus.Common.Text.{Text, is_prefix}
use antibawirus.Common.Text.Scan.{is_space}
use antibawirus.Common.Text.Words.{Lacks, EndsInk}

-- `strsplit s d` is `g_strsplit(s, delimiter, -1)` for a delimiter of the one character `d`.
pub record Glib : Type 0 where
  pub str_has_prefix : Text → Text → Bool
  pub strsplit : Text → ℕ → List Text
  pub strchomp : Text → Text

-- Texts with the character `d` between them.
abbrev pub join : ℕ → List Text → Text
join d [] = []
join d (f ∷ []) = f
join d (f ∷ g ∷ fs) = f ++ d ∷ join d (g ∷ fs)

pub record IsGlib (g : Glib) : Type 0 where
  pub prefix_lem : (s p : Text) → g.str_has_prefix s p ≡ is_prefix p s
  pub split-join :
      (d : ℕ) (f h : Text) (fs : List Text)
      → All (Lacks d) (f ∷ h ∷ fs)
      → g.strsplit (join d (f ∷ h ∷ fs)) d ≡ f ∷ h ∷ fs
  pub chomp_lem :
      (s ws : Text) → EndsInk s → All (λ c. is_space c ≡ true) ws → g.strchomp (s ++ ws) ≡ s
