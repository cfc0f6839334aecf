-- ===== src/Provoke/Stdio.antt =====
-- The calls on streams that the small programs make, over the state of the system, and what is
-- documented of them, for files on which no error of reading occurs.
use antibawirus.Common.{ℕ, ◌≡◌, ◌≢◌, Bool, true, [], ◌++◌, Option, some, take, drop}
use antibawirus.Common.Text.{Text, codes}
use antibawirus.Provoke.Posix.{Posix}

-- `fread s f n` reads at most `n` bytes, and `fwrite` stands for `fprintf` of a text, too. `fwrite`
-- and `fclose` answer whether they have succeeded.
pub record Stdio (P : Posix) : Type 0 where
  pub fopen : P.State → Text → Text → Option (ℕ × P.State)
  pub fread : P.State → ℕ → ℕ → Text × P.State
  pub fwrite : P.State → ℕ → Text → Bool × P.State
  pub fclose : P.State → ℕ → Bool × P.State

-- `content s p` is what is in a file. A stream that is `Reading p t` still has the text `t` of the
-- file `p` to be read; one that is `Writing p t` has taken the text `t` for the file `p`. No two
-- paths are links to one file.
pub record IsStdio (P : Posix) (F : Stdio P) : Type 1 where
  pub content : P.State → Text → Option Text
  pub Reading : P.State → ℕ → Text → Text → Type 0
  pub Writing : P.State → ℕ → Text → Text → Type 0
  pub fopen-Reading :
      (s s' : P.State) (p t : Text) (f : ℕ)
      → content s p ≡ some t
      → F.fopen s p (codes "rb") ≡ some (f, s')
      → Reading s' f p t
  pub fopen-Writing :
      (s s' : P.State) (p : Text) (f : ℕ)
      → F.fopen s p (codes "wb") ≡ some (f, s')
      → Writing s' f p []
  -- A stream of another file is read on, and is another stream.
  pub fopen-other :
      (s s' : P.State) (p q t : Text) (f g : ℕ)
      → Reading s f q t
      → q ≢ p
      → F.fopen s p (codes "wb") ≡ some (g, s')
      → (f ≢ g) × Reading s' f q t
  pub fread-Reading :
      (s : P.State) (f n : ℕ) (p t : Text)
      → Reading s f p t
      → ((F.fread s f n).0 ≡ take n t) × Reading (F.fread s f n).1 f p (drop n t)
  pub fread-Writing :
      (s : P.State) (f g n : ℕ) (p t : Text)
      → Writing s g p t
      → f ≢ g
      → Writing (F.fread s f n).1 g p t
  pub fwrite-Writing :
      (s : P.State) (f : ℕ) (p t more : Text)
      → Writing s f p t
      → (F.fwrite s f more).0 ≡ true
      → Writing (F.fwrite s f more).1 f p (t ++ more)
  pub fwrite-Reading :
      (s : P.State) (f g : ℕ) (p t more : Text)
      → Reading s f p t
      → f ≢ g
      → Reading (F.fwrite s g more).1 f p t
  pub fclose-content :
      (s : P.State) (f : ℕ) (p t : Text)
      → Writing s f p t
      → (F.fclose s f).0 ≡ true
      → content (F.fclose s f).1 p ≡ some t
  pub fclose-Writing :
      (s : P.State) (f g : ℕ) (p t : Text)
      → Writing s g p t
      → f ≢ g
      → Writing (F.fclose s f).1 g p t
