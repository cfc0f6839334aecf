-- ===== src/Provoke/Expansion.antt =====
-- Tests_USB/Test1_Growth.c makes a file of 2 KB and, 5 seconds later, expands it to 500 MB.
pub mod Alarm
use antibawirus.Common.{ℕ, zero, suc, ◌-◌, ◌/◌, [], ◌∷◌, Option, none, some}
use antibawirus.Common.Text.{Text, codes}
use antibawirus.Provoke.Posix.{Posix}
use antibawirus.Provoke.Descriptors.{Descriptors, wronly, wronly_creat_trunc}

abbrev pub target : Text
target = codes "/media/adrianux/ADRI/documento.doc"

abbrev initial_size : ℕ
initial_size = 2048

abbrev pub final_size : ℕ
final_size = 524288000

abbrev pub buffer_size : ℕ
buffer_size = 1024

-- `buffer i` is what the calls of `rand` put into the buffer before its `i`-th last writing, and
-- `sleep` is what the other programs do during the 5 seconds.
module _ (P : Posix) (D : Descriptors P) (buffer : ℕ → Text) where
  -- The result of `write` is not looked at here.
  abbrev pub after : P.State → Option (ℕ × P.State) → P.State
  after s none = s
  after s (some (k, s')) = s'

  unfoldable pub llenar : ℕ → ℕ → P.State → P.State
  llenar zero fd s = s
  llenar (suc n) fd s = llenar n fd (after s (D.write s fd (buffer n)))

  -- `none` is the exit with status 1.
  unfoldable pub crear : P.State → Option P.State
  unfolding llenar
  crear s = elim (D.open_file s target wronly_creat_trunc) [
    | none ↦ none
    | some (fd, s') ↦ some (D.close (llenar (initial_size / buffer_size) fd s') fd)
  ]

  abbrev pub escrito : ℕ → P.State → Option (ℕ × P.State) → ℕ × P.State
  escrito fd s none = (1, D.close s fd)
  escrito fd s (some (k, s')) = (0, D.close s' fd)

  -- `write(fd, "", 1)` writes the closing NUL.
  abbrev movido : ℕ → P.State → Option P.State → ℕ × P.State
  movido fd s none = (1, D.close s fd)
  movido fd s (some s') = escrito fd s' (D.write s' fd (0 ∷ []))

  unfoldable pub expandir : P.State → ℕ × P.State
  expandir s = elim (D.open_file s target wronly) [
    | none ↦ (1, s)
    | some (fd, s') ↦ movido fd s' (D.lseek s' fd (final_size - 1))
  ]

  unfoldable pub main : (P.State → P.State) → P.State → ℕ × P.State
  unfolding crear expandir
  main sleep s = elim (crear s) [ none ↦ (1, s) | some s' ↦ expandir (sleep s') ]
