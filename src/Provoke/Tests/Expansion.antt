-- ===== src/Provoke/Tests/Expansion.antt =====
-- Test1_Growth.c, on files in memory.
use mathlib.Core.Option.{some-injective}
use antibawirus.Common.{
  ℕ, zero, suc, ◌≤◌, ◌≡◌, refl, sym, ap, inl, [], ◌∷◌, Option, none, some, In, length,
}
use antibawirus.Common.Int.{pos, ◌-ℤ◌}
use antibawirus.Common.Text.{Text, codes, str_eq}
use antibawirus.Patrol.Files.{ArchivoInfo}
use antibawirus.Patrol.Listing.{Stat, info}
use antibawirus.Patrol.Compare.{grown, tamano}
use antibawirus.Provoke.Expansion.{target, final_size, crear, expandir, main, llenar}
use antibawirus.Provoke.Expansion.Alarm.{expansion_reported}
use antibawirus.Provoke.Tests.Handles.{
  Handles, handles, files_open, files_open-IsDescriptors, blank,
}

abbrev pub zeros : ℕ → Text
zeros zero = []
zeros (suc n) = 0 ∷ zeros n

pub length-zeros : (n : ℕ) → length (zeros n) ≡ n
length-zeros zero = refl
length-zeros (suc n) = ap suc (length-zeros n)

abbrev empty : Handles
empty = (λ p. none, none)

abbrev or_empty : Option Handles → Handles
or_empty none = empty
or_empty (some s) = s

abbrev asleep : Handles
asleep = or_empty (crear handles files_open (λ i. zeros 1024) empty)

abbrev ended : Handles
ended = (main handles files_open (λ i. zeros 1024) (λ s. s) empty).1

abbrev in_snapshot : ℕ → ArchivoInfo
in_snapshot n = info target (codes "documento.doc") (blank n)

expansion_reported_example :
    (st : Stat) × (st' : Stat) × (asleep.0 target ≡ some st)
    × (ended.0 target ≡ some st')
    × (st.st_size ≤ 2048)
    × (st'.st_size ≡ final_size)
    × In
        (grown (info target (codes "documento.doc") st') (pos st'.st_size -ℤ pos st.st_size))
        (tamano (in_snapshot 2048 ∷ []) (in_snapshot final_size ∷ []))
unfolding crear main expandir llenar str_eq
expansion_reported_example =
    expansion_reported handles files_open files_open-IsDescriptors (λ i. zeros 1024) (λ s. s) empty
      asleep ended (codes "documento.doc") (in_snapshot 2048 ∷ []) (in_snapshot final_size ∷ [])
      (λ i. length-zeros 1024) (λ t. refl) refl refl
      (λ st e.
        inl (ap (info target (codes "documento.doc")) (sym (some-injective (blank 2048) st e))))
      (λ st e.
        inl
          (ap (info target (codes "documento.doc")) (sym (some-injective (blank final_size) st e))))
