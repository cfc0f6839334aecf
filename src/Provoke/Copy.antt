-- ===== src/Provoke/Copy.antt =====
-- Patrullas Fronterizas/copia.c copies a file of the USB device, in blocks.
pub mod Whole
use antibawirus.Common.{ℕ, zero, suc, [], ◌∷◌, Option, none, some}
use antibawirus.Common.Text.{Text, codes}
use antibawirus.Common.Exec.{◌>>=◌, Exec, ok, exhausted}
use antibawirus.Provoke.Posix.{Posix}
use antibawirus.Provoke.Stdio.{Stdio}

abbrev pub documento : Text
documento = codes "/media/adrianux/ADRI/documento.doc"

abbrev pub documento_copy : Text
documento_copy = codes "/media/adrianux/ADRI/documento_copy.doc"

abbrev pub buffer_size : ℕ
buffer_size = 1024

module _ (P : Posix) (F : Stdio P) where
  -- The loop, which ends when nothing is read, and does not look at what `fwrite` answers; `fuel`
  -- counts its rounds.
  unfoldable pub copiar : ℕ → ℕ → ℕ → P.State → Exec P.State
  copiar zero origen destino s = exhausted
  copiar (suc fuel) origen destino s =
      let r = F.fread s origen buffer_size in
      elim r.0 [
        | [] ↦ ok r.1
        | ◌∷◌ c bytes ↦ copiar fuel origen destino (F.fwrite r.1 destino (c ∷ bytes)).1
      ]

  abbrev con_destino : ℕ → ℕ → P.State → Option (ℕ × P.State) → Exec (ℕ × P.State)
  con_destino fuel origen s none = ok (1, (F.fclose s origen).1)
  con_destino fuel origen s (some (destino, s')) = do
    s'' ← copiar fuel origen destino s'
    ok (0, (F.fclose (F.fclose s'' origen).1 destino).1)

  unfoldable pub main : ℕ → P.State → Exec (ℕ × P.State)
  unfolding copiar
  main fuel s = elim (F.fopen s documento (codes "rb")) [
    | none ↦ ok (1, s)
    | some (origen, s') ↦ con_destino fuel origen s' (F.fopen s' documento_copy (codes "wb"))
  ]
