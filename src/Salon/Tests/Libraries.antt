-- ===== src/Salon/Tests/Libraries.antt =====
-- The parameters of the window's model as functions on texts, with the laws that it relies on.
use mathlib.Core.List.{append_assoc, append-nil}
use antibawirus.Common.{
  ℕ, ◌≡◌, refl, sym, ap, ◌∙◌, true, List, [], ◌∷◌, ◌++◌, All, ◌==◌, ==_iff, if◌then◌else◌,
}
use antibawirus.Common.Int.{ℤ, pos, ltb_ℤ, ◌-ℤ◌}
use antibawirus.Common.Text.{Text, codes, is_prefix}
use antibawirus.Guard.Tracker.{Floats}
use antibawirus.Common.Text.Scan.{is_space}
use antibawirus.Common.Text.Words.{Lacks, EndsInk}
use antibawirus.Salon.Glib.{Glib, IsGlib, join}
use antibawirus.Salon.Buffer.{TextBuffer, IsTextBuffer}

abbrev onto : ℕ → List Text → List Text
onto c [] = (c ∷ []) ∷ []
onto c (f ∷ fs) = (c ∷ f) ∷ fs

abbrev split : ℕ → Text → List Text
split d [] = [] ∷ []
split d (c ∷ s) = if c == d then [] ∷ split d s else onto c (split d s)

split_first : (d : ℕ) (f s : Text) → Lacks d f → split d (f ++ d ∷ s) ≡ f ∷ split d s
split_first d [] s h = rw ((==_iff d d).1 refl) refl
split_first d (c ∷ f) s h = rw (h.0, split_first d f s h.1) refl

split_last : (d : ℕ) (f : Text) → Lacks d f → split d f ≡ f ∷ []
split_last d [] h = refl
split_last d (c ∷ f) h = rw (h.0, split_last d f h.1) refl

split-join :
    (d : ℕ) (f : Text) (fs : List Text)
    → All (Lacks d) (f ∷ fs)
    → split d (join d (f ∷ fs)) ≡ f ∷ fs
split-join d f [] h = split_last d f h.0
split-join d f (h ∷ fs) l =
    split_first d f (join d (h ∷ fs)) l.0 ∙ ap (λ r. f ∷ r) (split-join d h fs l.1)

abbrev chomped : ℕ → Text → Text
chomped c [] = if is_space c then [] else c ∷ []
chomped c (d ∷ s) = c ∷ d ∷ s

abbrev chomp : Text → Text
chomp [] = []
chomp (c ∷ s) = chomped c (chomp s)

chomp_blank : (ws : Text) → All (λ c. is_space c ≡ true) ws → chomp ws ≡ []
chomp_blank [] h = refl
chomp_blank (c ∷ ws) h = rw (chomp_blank ws h.1, h.0) refl

chomp_ink : (s ws : Text) → EndsInk s → All (λ c. is_space c ≡ true) ws → chomp (s ++ ws) ≡ s
chomp_ink [] ws e h = absurd e
chomp_ink (c ∷ []) ws e h = rw (chomp_blank ws h, e) refl
chomp_ink (c ∷ d ∷ s) ws e h = ap (chomped c) (chomp_ink (d ∷ s) ws e h)

abbrev pub texts : Glib
texts = record {
  str_has_prefix = λ s p. is_prefix p s;
  strsplit = λ s d. split d s;
  strchomp = chomp;
}

pub texts-IsGlib : IsGlib texts
texts-IsGlib = record {
  prefix_lem = λ s p. refl;
  split-join = λ d f h fs l. split-join d f (h ∷ fs) l;
  chomp_lem = chomp_ink;
}

-- A text with a cursor: what is before it and what is behind it.
abbrev pub cursor : TextBuffer
cursor = record {
  Buffer = Text × Text;
  empty_buffer = ([], []);
  set_text = λ t b. (t, []);
  insert_at_cursor = λ t b. (b.0 ++ t, b.1);
  get_text = λ b. b.0 ++ b.1;
}

pub cursor-IsTextBuffer : IsTextBuffer cursor
cursor-IsTextBuffer = record {
  AtEnd = λ b. b.1 ≡ [];
  set_text-AtEnd = λ t b. refl;
  get_text-set_text = λ t b. append-nil t;
  insert-AtEnd = λ t b e. e;
  get_text-insert = λ t b e.
      append_assoc b.0 t b.1
      ∙ ap (λ r. b.0 ++ r) (ap (λ r. t ++ r) e ∙ append-nil t)
      ∙ ap (λ r. r ++ t) (sym (ap (λ r. b.0 ++ r) e ∙ append-nil b.0));
}

-- Whole percents stand for the floating-point numbers; each is printed in the same way.
abbrev pub whole : Floats
whole = record {
  Float = ℤ;
  zero_f = pos 0;
  ten = pos 10;
  percent = λ a b. a;
  per_cpu = λ a n. a;
  exceeds = λ a b l. ltb_ℤ l (a -ℤ b);
  above = λ a l. ltb_ℤ l a;
  minus = λ a b. a -ℤ b;
  print = λ v. codes "7.00";
  of_long = λ v. v;
  to_long = λ v. v;
}
