-- ===== src/Provoke/Tests/Replication.antt =====
-- Test2_Replication.c, on files in memory.
use mathlib.Core.Option.{some-injective}
use antibawirus.Common.{
  ◌≡◌, refl, sym, ap, ◌∙◌, inl, inr, [], ◌∷◌, none, some, In, length, arith, ◌++◌, if◌then◌else◌,
}
use antibawirus.Common.Text.{Text, codes, str_eq}
use antibawirus.Patrol.Files.{ArchivoInfo, nombre_sin_extension}
use antibawirus.Patrol.Listing.{Stat, info}
use antibawirus.Patrol.Compare.{copied, anadir_eliminar}
use antibawirus.Patrol.Compare.Copies.{LooksLike}
use antibawirus.Provoke.Descriptors.{size}
use antibawirus.Provoke.Replication.{
  original, num_copies, dest_path, preparar, main, copiar, copiar_una,
}
use antibawirus.Provoke.Replication.Alarm.{replication_reported}
use antibawirus.Provoke.Replication.Copies.{AllWritten}
use antibawirus.Provoke.Tests.Handles.{
  Handles, handles, files_open, files_open-IsDescriptors, blank,
}
use antibawirus.Provoke.Tests.Expansion.{zeros, length-zeros}

-- The original is there, and nothing is open.
abbrev before : Handles
before = (λ p. if str_eq p original then some (blank 9) else none, none)

abbrev ended : Handles
ended = (main (λ k. k) handles files_open (λ n. some (zeros n)) before).1

abbrev usb : Text
usb = codes "/media/usb/"

abbrev listed : ArchivoInfo
listed = info (usb ++ original) original (blank 9)

abbrev copy_path : Text
copy_path = usb ++ dest_path (λ k. k) 2

abbrev copy : Stat → ArchivoInfo
copy st = info copy_path (dest_path (λ k. k) 2) st

-- The loop begins in the state `before`, since nothing is open then.
loop_begins :
    preparar (λ k. k) handles files_open (λ n. some (zeros n)) before ≡ inr (zeros 9, before)
unfolding preparar str_eq
loop_begins = refl

all_written : AllWritten (λ k. k) handles files_open (zeros 9) num_copies 0 before
unfolding copiar_una dest_path str_eq
all_written = (
  (_, _, _, refl, refl),
  (
    (_, _, _, refl, refl),
    ((_, _, _, refl, refl), ((_, _, _, refl, refl), ((_, _, _, refl, refl), tt))),
  ),
)

replication_reported_example :
    (main (λ k. k) handles files_open (λ n. some (zeros n)) before ≡ (0, ended))
    × ((st' : Stat) × (ended.0 (dest_path (λ k. k) 2) ≡ some st')
        × (st'.st_size ≡ 9)
        × (size handles ended original ≡ some 9)
        × ((u : ArchivoInfo) × In u (listed ∷ [])
            × LooksLike (copy st') u
            × In
                (copied (copy st') u)
                (anadir_eliminar (listed ∷ []) (listed ∷ copy (blank 9) ∷ []) 1 1)))
unfolding main copiar copiar_una dest_path str_eq info nombre_sin_extension
replication_reported_example =
    replication_reported handles files_open files_open-IsDescriptors (λ k. k) (λ n. some (zeros n))
      (λ n block e. ap length (sym (some-injective _ _ e)) ∙ length-zeros n) before before ended
      (zeros 9) (blank 9) (usb ++ original) copy_path (listed ∷ []) (listed ∷ copy (blank 9) ∷ []) 1
      1 2 refl loop_begins all_written refl (omega arith)
      (λ st e. inl (ap (info (usb ++ original) original) (sym (some-injective (blank 9) st e))))
      (λ st e. inr (inl (ap copy (sym (some-injective (blank 9) st e)))))
      (λ st g m same. elim m [
        | inl e ↦ let h : 18 ≡ 9 = ap length (same.0 ∙ ap (λ v. v.nombre) e) in omega (arith, h)
        | inr z ↦ z
      ])
      (omega arith) refl
