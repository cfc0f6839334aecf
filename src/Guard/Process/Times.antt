-- ===== src/Guard/Process/Times.antt =====
-- guardia_info.c: which fields of the line the two times are.
use antibawirus.Common.{◌<◌, ◌^◌, ◌≡◌, refl, List, [], ◌∷◌, ◌++◌, some, length, All}
use mathlib.Core.List.{append_assoc}
use antibawirus.Common.Int.{pos}
use antibawirus.Common.Text.{Text}
use antibawirus.Common.Text.Scan.{value, is_digit, scan_long, skip_space, is_space}
use antibawirus.Common.Text.Scan.Laws.{IsNumber, Stops, scan_long-number}
use antibawirus.Common.Text.Words.{Lacks, strchr-Lacks}
use antibawirus.Guard.Monitor.{scan_longs}
use antibawirus.Guard.Process.{avanzar, tiempos}

-- Words, each with a space behind it.
abbrev pub spaced : List Text → Text
spaced [] = []
spaced (f ∷ fs) = f ++ 32 ∷ spaced fs

avanzar-spaced :
    (fs : List Text) (rest : Text)
    → All (Lacks 32) fs
    → avanzar (length fs) (spaced fs ++ rest) ≡ some rest
unfolding avanzar
avanzar-spaced [] rest n = refl
avanzar-spaced (f ∷ fs) rest n =
    rw (append_assoc f (32 ∷ spaced fs) rest, avanzar, strchr-Lacks 32 f (spaced fs ++ rest) n.0)
      (avanzar-spaced fs rest n.1)

scan_long-space : (s : Text) → scan_long (32 ∷ s) ≡ scan_long s
unfolding scan_long skip_space is_space
scan_long-space s = refl

scan_longs-two :
    (u s rest : Text)
    → IsNumber u
    → IsNumber s
    → value 0 u < 2 ^ 63
    → value 0 s < 2 ^ 63
    → Stops is_digit rest
    → scan_longs 2 (u ++ 32 ∷ (s ++ rest)) ≡ pos (value 0 u) ∷ pos (value 0 s) ∷ []
unfolding scan_longs is_digit
scan_longs-two u s rest hu hs lu ls st =
    rw
      (
        scan_long-number u (32 ∷ (s ++ rest)) hu refl lu,
        scan_longs,
        scan_long-space (s ++ rest),
        scan_long-number s rest hs st ls,
      )
      refl

-- In a line of thirteen words between spaces and then two numbers, the times read are these
-- numbers, each below 2^63.
pub tiempos-spaced :
    (fs : List Text) (u s rest : Text)
    → length fs ≡ 13
    → All (Lacks 32) fs
    → IsNumber u
    → IsNumber s
    → value 0 u < 2 ^ 63
    → value 0 s < 2 ^ 63
    → Stops is_digit rest
    → tiempos (spaced fs ++ (u ++ 32 ∷ (s ++ rest))) ≡ some (pos (value 0 u), pos (value 0 s))
unfolding tiempos
tiempos-spaced fs u s rest l n hu hs lu ls st =
    let all : avanzar 13 (spaced fs ++ (u ++ 32 ∷ (s ++ rest))) ≡ some (u ++ 32 ∷ (s ++ rest)) =
      rw l at (avanzar-spaced fs (u ++ 32 ∷ (s ++ rest)) n) in
    rw (all, tiempos, scan_longs-two u s rest hu hs lu ls st) refl
