-- ===== src/Patrol/Files/Laws.antt =====
-- How a file's name falls into the two parts that are kept.
use antibawirus.Common.{
  ℕ, zero, suc, ◌≡◌, refl, sym, ap, ◌⊎◌, ◌↔◌, inl, inr, true, false, [], ◌∷◌, ◌++◌, none, some,
  arith, ◌==◌, take, drop, All, Option-cases,
}
use native.Mathlib.Numerals.{add-one}
use antibawirus.Common.Text.{Text, str_eq_iff, strrchr}
use antibawirus.Patrol.Files.{ArchivoInfo, extension, nombre_sin_extension, mismo_archivo}

abbrev pub NoDot : Text → Type 0
NoDot s = All (λ c. (c == b'.') ≡ false) s

strrchr-none : (s : Text) → strrchr s b'.' ≡ none → NoDot s
unfolding strrchr
strrchr-none [] e = tt
strrchr-none (c ∷ s) e = elim (Option-cases (strrchr s b'.')) [
  | inl f ↦ (ground arith, strrchr-none s f)
  | inr (i, f) ↦ ground arith
]

-- The name at the last dot.
strrchr-some :
    (s : Text) (i : ℕ)
    → strrchr s b'.' ≡ some i
    → (take i s ++ b'.' ∷ drop (suc i) s ≡ s) × NoDot (drop (suc i) s)
unfolding strrchr
strrchr-some [] i e = cc
strrchr-some (c ∷ s) zero e = elim (Option-cases (strrchr s b'.')) [
  | inl f ↦ let dot : c ≡ b'.' = ground arith in (rw dot refl, strrchr-none s f)
  | inr (j, f) ↦ absurd (ground arith)
]
strrchr-some (c ∷ s) (suc i) e = elim (Option-cases (strrchr s b'.')) [
  | inl f ↦ absurd (ground arith)
  | inr (j, f) ↦
      let here : strrchr s b'.' ≡ some i = ground arith in
      let ih = strrchr-some s i here in (ap (λ t. c ∷ t) ih.0, ih.1)
]

suc-ne-zero : (i : ℕ) → (suc i == 0) ≡ false
suc-ne-zero i = ground arith

-- The name and the extension kept of a file are those of its file name: with no dot the whole name
-- is the name; with a dot behind the first character the two give the file name back, around the
-- last dot; and of a hidden file, whose only dot comes first, both are empty.
pub split_name :
    (s : Text)
    → ((nombre_sin_extension s ≡ s) × (extension s ≡ []) × NoDot s)
      ⊎ ((nombre_sin_extension s ++ b'.' ∷ extension s ≡ s) × NoDot (extension s))
      ⊎ ((rest : Text) × (s ≡ b'.' ∷ rest)
          × NoDot rest
          × (nombre_sin_extension s ≡ [])
          × (extension s ≡ []))
unfolding nombre_sin_extension extension
split_name s = elim (Option-cases (strrchr s b'.')) [
  | inl e ↦ rw (e, nombre_sin_extension, extension) (inl (refl, refl, strrchr-none s e))
  | inr (zero, e) ↦
      let (whole, plain) = strrchr-some s 0 e in
      rw (e, nombre_sin_extension, extension) (inr (inr (drop 1 s, sym whole, plain, refl, refl)))
  | inr (suc i, e) ↦
      let (whole, plain) = strrchr-some s (suc i) e in
      rw (e, nombre_sin_extension, extension, add-one, suc-ne-zero i) (inr (inl (whole, plain)))
]

abbrev pub SameFile : ArchivoInfo → ArchivoInfo → Type 0
SameFile v n =
    (v.nombre ≡ n.nombre) × (v.extension ≡ n.extension) × (v.ruta_completa ≡ n.ruta_completa)

pub mismo_archivo_iff : (v n : ArchivoInfo) → (mismo_archivo v n ≡ true) ↔ SameFile v n
unfolding mismo_archivo
mismo_archivo_iff v n = (
  λ h. ground (
    arith,
    str_eq_iff v.nombre n.nombre,
    str_eq_iff v.extension n.extension,
    str_eq_iff v.ruta_completa n.ruta_completa,
  ),
  λ h. ground (
    arith,
    str_eq_iff v.nombre n.nombre,
    str_eq_iff v.extension n.extension,
    str_eq_iff v.ruta_completa n.ruta_completa,
  ),
)
