-- ===== src/Provoke/Copy/Whole.antt =====
-- copia.c: the loop ends, and when it makes a whole copy.
use antibawirus.Common.{ℕ, zero, suc, ◌≡◌, false, [], ◌∷◌, some, ◌⊎◌}
use antibawirus.Common.Text.{Text, codes}
use antibawirus.Common.Exec.{ok}
use antibawirus.Provoke.Posix.{Posix}
use antibawirus.Provoke.Stdio.{Stdio, IsStdio}
use antibawirus.Provoke.Copy.{documento, documento_copy, buffer_size, copiar}

module _ (P : Posix) (F : Stdio P) where
  -- In one of the rounds of the loop that begins in the state `s`, `fwrite` has failed.
  abbrev pub Lost : ℕ → ℕ → ℕ → P.State → Type 0
  Lost zero origen destino s = ⊥
  Lost (suc fuel) origen destino s =
      let r = F.fread s origen buffer_size in
      elim r.0 [
        | [] ↦ ⊥
        | ◌∷◌ c bytes ↦
            ((F.fwrite r.1 destino (c ∷ bytes)).0 ≡ false)
            ⊎ Lost fuel origen destino (F.fwrite r.1 destino (c ∷ bytes)).1
      ]

  module _ (law : IsStdio P F) where
    -- A run from `s` that opens both files, goes through its loop and ends in `s'`: the copy holds the
    -- text `t`, or `fwrite` or the `fclose` of the copy has failed in this run.
    abbrev pub IsCopied : ℕ → Text → P.State → P.State → Type 0
    IsCopied fuel t s s' =
        (origen : ℕ) × (destino : ℕ) × (s1 : P.State) × (s2 : P.State) × (s3 : P.State) × (F.fopen s
            documento (codes "rb")
          ≡ some (origen, s1))
        × (F.fopen s1 documento_copy (codes "wb") ≡ some (destino, s2))
        × (copiar P F fuel origen destino s2 ≡ ok s3)
        × (s' ≡ (F.fclose (F.fclose s3 origen).1 destino).1)
        × ((law.content s' documento_copy ≡ some t)
            ⊎ (Lost fuel origen destino s2 ⊎ ((F.fclose (F.fclose s3 origen).1 destino).0 ≡ false)))
