-- ===== src/Earlier/Devices/Numbers.antt =====
-- Patrullas.c, `main`: the run ends, and numbers the devices.
use antibawirus.Common.{ℕ, zero, suc, ◌+◌, ◌<◌, ◌≡◌, List, [], ◌∷◌, ◌++◌, none, some}
use antibawirus.Common.Text.{Text}
use antibawirus.Common.Exec.{Exec, ok}
use antibawirus.Earlier.Outline.Walk.{Tree, Shows, height}
use antibawirus.Earlier.Devices.{System, Salida, dispositivo, disco}

-- Every directory is the root of a finite tree, whose height is below `fuel`.
abbrev pub IsBounded : System → ℕ → Type 0
IsBounded Y fuel =
    (s : Y.State) (path : Text) (names : List Text)
    → (Y.disk s).opendir 0 path ≡ some names
    → (t : Tree) × Shows (Y.disk s) path names t × (height t < fuel)

-- The numbers under which devices are shown.
abbrev numero : Salida → List ℕ
numero (dispositivo n) = n ∷ []
numero _ = []

abbrev pub numeros : List Salida → List ℕ
numeros [] = []
numeros (line ∷ out) = numero line ++ numeros out

-- `n` numbers from `from` on.
abbrev pub seguidos : ℕ → ℕ → List ℕ
seguidos from zero = []
seguidos from (suc n) = from ∷ seguidos (from + 1) n

-- How many of the devices have a node that names a disk.
abbrev pub discos : System → List Text → ℕ
discos Y [] = 0
discos Y (syspath ∷ rest) = elim (disco (Y.device syspath)) [
  | none ↦ discos Y rest
  | some _ ↦ suc (discos Y rest)
]

module _ (Y : System) (fuel : ℕ) (bounded : IsBounded Y fuel) (some_fuel : 0 < fuel) where
  -- A part of a run that ends, and shows no device by number.
  abbrev Returns : Exec (List Salida × Y.State) → Type 0
  Returns r = (out : List Salida) × (s' : Y.State) × (r ≡ ok (out, s')) × (numeros out ≡ [])
