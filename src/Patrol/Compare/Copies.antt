-- ===== src/Patrol/Compare/Copies.antt =====
-- Files that are missing from a snapshot, and the search for a file that one may be a copy of.
use antibawirus.Common.{
  ◌≡◌, refl, sym, ◌↔◌, inl, inr, Bool, true, false, ◌&&◌, List, [], ◌∷◌, none, some, arith, In,
  ◌==◌, Bool-cases, if◌then◌else◌,
}
use antibawirus.Common.Text.{str_eq, str_eq_iff}
use antibawirus.Patrol.Files.{ArchivoInfo, mismo_archivo}
use antibawirus.Patrol.Files.Laws.{SameFile, mismo_archivo_iff}
use antibawirus.Patrol.Compare.{is_name, copia, encontrado}

-- No file of the list passes the test.
abbrev pub Absent : (ArchivoInfo → Bool) → List ArchivoInfo → Type 0
Absent same fs = (f : ArchivoInfo) → In f fs → same f ≡ false

pub encontrado-zero :
    (same : ArchivoInfo → Bool) (fs : List ArchivoInfo) → encontrado same fs ≡ 0 → Absent same fs
unfolding encontrado
encontrado-zero same [] e f m = absurd m
encontrado-zero same (g ∷ fs) e f (inl p) = rw p (ground arith)
encontrado-zero same (g ∷ fs) e f (inr m) = encontrado-zero same fs (ground arith) f m

pub zero-encontrado :
    (same : ArchivoInfo → Bool) (fs : List ArchivoInfo) → Absent same fs → encontrado same fs ≡ 0
unfolding encontrado
zero-encontrado same [] h = refl
zero-encontrado same (g ∷ fs) h =
    rw (h g (inl refl), zero-encontrado same fs (λ f m. h f (inr m))) refl

-- What `copia` looks for in the old files: the same extension and size, and the new name starting
-- with the old one.
abbrev pub LooksLike : ArchivoInfo → ArchivoInfo → Type 0
LooksLike f v = (v.extension ≡ f.extension) × (v.tamano ≡ f.tamano) × (is_name v f ≡ true)

abbrev looks_like : ArchivoInfo → ArchivoInfo → Bool
looks_like f v = str_eq v.extension f.extension && v.tamano == f.tamano && is_name v f

looks_like_iff : (f v : ArchivoInfo) → (looks_like f v ≡ true) ↔ LooksLike f v
looks_like_iff f v = (
  λ h. ground (arith, str_eq_iff v.extension f.extension),
  λ h. ground (arith, str_eq_iff v.extension f.extension),
)

copia-cons :
    (f v : ArchivoInfo) (vs : List ArchivoInfo)
    → copia f (v ∷ vs) ≡ (if looks_like f v then some v else copia f vs)
unfolding copia
copia-cons f v vs = refl

pub copia-none :
    (f : ArchivoInfo) (vs : List ArchivoInfo)
    → copia f vs ≡ none
    → (v : ArchivoInfo) → In v vs
    → ¬ LooksLike f v
unfolding copia
copia-none f [] e v m like = absurd m
copia-none f (u ∷ vs) e v m like = elim (Bool-cases (looks_like f u)) [
  | inl t ↦ cc (rw (copia-cons, t) at e)
  | inr t ↦ elim m [
    | inl p ↦ cc ((looks_like_iff f u).1 (rw p at like))
    | inr q ↦ copia-none f vs (rw (copia-cons, t) at e) v q like
  ]
]

pub none-copia :
    (f : ArchivoInfo) (vs : List ArchivoInfo)
    → ((v : ArchivoInfo) → In v vs → ¬ LooksLike f v)
    → copia f vs ≡ none
unfolding copia
none-copia f [] h = refl
none-copia f (u ∷ vs) h = elim (Bool-cases (looks_like f u)) [
  | inl t ↦ absurd (h u (inl refl) ((looks_like_iff f u).0 t))
  | inr t ↦ rw (copia-cons, t) (none-copia f vs (λ v m. h v (inr m)))
]

pub copia-some :
    (f v : ArchivoInfo) (vs : List ArchivoInfo) → copia f vs ≡ some v → In v vs × LooksLike f v
unfolding copia
copia-some f v [] e = cc
copia-some f v (u ∷ vs) e = elim (Bool-cases (looks_like f u)) [
  | inl t ↦
      let same : v ≡ u = cc (rw (copia-cons, t) at e) in
      (inl same, rw same ((looks_like_iff f u).0 t))
  | inr t ↦ let (m, like) = copia-some f v vs (rw (copia-cons, t) at e) in (inr m, like)
]

-- No file of the list is the same as `f`: equal name, extension and path.
abbrev pub Missing : ArchivoInfo → List ArchivoInfo → Type 0
Missing f fs = (g : ArchivoInfo) → In g fs → ¬ SameFile f g

pub Absent-Missing :
    (v : ArchivoInfo) (ns : List ArchivoInfo) → Absent (λ n. mismo_archivo v n) ns ↔ Missing v ns
Absent-Missing v ns = (
  λ h n m s. cc (h n m, (mismo_archivo_iff v n).1 s),
  λ h n m. elim (Bool-cases (mismo_archivo v n)) [
    | inl e ↦ absurd (h n m ((mismo_archivo_iff v n).0 e))
    | inr e ↦ e
  ],
)

SameFile-sym : (f g : ArchivoInfo) → SameFile f g → SameFile g f
SameFile-sym f g (a, b, c) = (sym a, sym b, sym c)

pub Missing-Absent :
    (f : ArchivoInfo) (vs : List ArchivoInfo) → Absent (λ v. mismo_archivo v f) vs ↔ Missing f vs
Missing-Absent f vs = (
  λ h v m s. cc (h v m, (mismo_archivo_iff v f).1 (SameFile-sym f v s)),
  λ h v m. elim (Bool-cases (mismo_archivo v f)) [
    | inl e ↦ absurd (h v m (SameFile-sym v f ((mismo_archivo_iff v f).0 e)))
    | inr e ↦ e
  ],
)
