-- ===== src/Provoke/Replication.antt =====
-- Tests_USB/Test2_Replication.c makes five copies of a file, under names with three random letters.
pub mod Copies
pub mod Alarm
use antibawirus.Common.{
  ℕ, zero, suc, ◌+◌, ◌*◌, ◌%◌, [], ◌∷◌, ◌++◌, Option, none, some, length, drop, ◌⊎◌, inl, inr,
}
use antibawirus.Common.Text.{Text, codes, fit}
use antibawirus.Patrol.Listing.{Stat}
use antibawirus.Provoke.Posix.{Posix}
use antibawirus.Provoke.Descriptors.{Descriptors, rdonly, wronly_creat, wronly_creat_trunc}

abbrev pub original : Text
original = codes "documento.pdf"

abbrev prefix : Text
prefix = codes "documento_copy_"

abbrev pub num_copies : ℕ
num_copies = 5

-- `rand k` is the result of the `k`-th call of `rand`.
module _ (rand : ℕ → ℕ) where
  -- `'a' + (rand() % 26)`
  abbrev letra : ℕ → ℕ
  letra k = b'a' + rand k % 26

  abbrev suffix : ℕ → Text
  suffix i = letra (3 * i) ∷ letra (3 * i + 1) ∷ letra (3 * i + 2) ∷ []

  unfoldable pub dest_path : ℕ → Text
  dest_path i = fit 256 (prefix ++ (suffix i ++ codes ".pdf"))

  module _ (P : Posix) (D : Descriptors P) where
    -- What `write` answers is not looked at.
    abbrev pub escrito : P.State → Option (ℕ × P.State) → P.State
    escrito s none = s
    escrito s (some (k, s')) = s'

    unfoldable pub copiar_una : Text → ℕ → P.State → P.State
    unfolding dest_path
    copiar_una buffer i s = elim (D.open_file s (dest_path i) wronly_creat_trunc) [
      | none ↦ s
      | some (fd, s') ↦ D.close (escrito s' (D.write s' fd buffer)) fd
    ]

    -- The loop, from the copy `i` on.
    unfoldable pub copiar : Text → ℕ → ℕ → P.State → P.State
    unfolding copiar_una
    copiar buffer zero i s = s
    copiar buffer (suc n) i s = copiar buffer n (i + 1) (copiar_una buffer i s)

    -- The bytes read overwrite the start of the block, and nothing is done about a failure.
    abbrev pub leido : Text → Option (Text × P.State) → Text
    leido block none = block
    leido block (some (bytes, s)) = bytes ++ drop (length bytes) block

    abbrev pub tras_leer : P.State → Option (Text × P.State) → P.State
    tras_leer s none = s
    tras_leer s (some (bytes, s')) = s'

    -- `malloc n` is a block as it is found, or `none`.
    module _ (malloc : ℕ → Option Text) where
      -- Up to the loop: the status and the state at an early end, or the bytes to write.
      abbrev pub con_buffer : ℕ → ℕ → P.State → Option Text → (ℕ × P.State) ⊎ (Text × P.State)
      con_buffer n fd s none = inl (1, D.close s fd)
      con_buffer n fd s (some block) =
          let r = D.read s fd n in inr (leido block r, D.close (tras_leer s r) fd)

      abbrev pub con_stat : P.State → Option Stat → (ℕ × P.State) ⊎ (Text × P.State)
      con_stat s none = inl (1, s)
      con_stat s (some st) = elim (D.open_file s original rdonly) [
        | none ↦ inl (1, s)
        | some (fd, s') ↦ con_buffer st.st_size fd s' (malloc st.st_size)
      ]

      unfoldable pub preparar : P.State → (ℕ × P.State) ⊎ (Text × P.State)
      preparar s = elim (D.open_file s original wronly_creat) [
        | none ↦ inl (1, s)
        | some (fd, s') ↦ con_stat (D.close s' fd) (P.stat (D.close s' fd) original)
      ]

      unfoldable pub main : P.State → ℕ × P.State
      unfolding copiar preparar
      main s = elim (preparar s) [
        | inl r ↦ r
        | inr (buffer, s') ↦ (0, copiar buffer num_copies 0 s')
      ]
