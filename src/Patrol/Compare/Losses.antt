-- ===== src/Patrol/Compare/Losses.antt =====
-- Fronteras.c, `anadir_eliminar`: snapshots of different numbers of files.
use antibawirus.Common.{
  ℕ, suc, ◌≤◌, ◌<◌, ◌≡◌, refl, ◌⊎◌, inl, inr, List, [], ◌∷◌, ◌++◌, arith, length, length-append, In,
  In-append, In-append_left, In-append_right, Bool-cases,
}
use antibawirus.Patrol.Files.{ArchivoInfo, mismo_archivo}
use antibawirus.Patrol.Files.Laws.{SameFile, mismo_archivo_iff}
use antibawirus.Patrol.Compare.{removed, added, copied, anadir_eliminar}
use antibawirus.Patrol.Compare.Copies.{Missing, LooksLike}
use antibawirus.Patrol.Compare.Counts.{removed_iff, new_reported}

-- No two files of the list are the same.
abbrev pub Distinct : List ArchivoInfo → Type 0
Distinct [] = Unit {0}
Distinct (f ∷ fs) = Missing f fs × Distinct fs

abbrev Found : ArchivoInfo → List ArchivoInfo → Type 0
Found f gs = (g : ArchivoInfo) × In g gs × SameFile f g

split-In :
    (g : ArchivoInfo) (gs : List ArchivoInfo)
    → In g gs
    → (front : List ArchivoInfo) × (back : List ArchivoInfo) × (gs ≡ front ++ g ∷ back)
split-In g [] m = absurd m
split-In g (h ∷ gs) (inl e) = ([], gs, rw e refl)
split-In g (h ∷ gs) (inr m) = let (front, back, e) = split-In g gs m in (h ∷ front, back, rw e refl)

-- A match of another file is still there when `g`, the match of `f`, is taken out.
Found-elsewhere :
    (f g u : ArchivoInfo) (front back : List ArchivoInfo)
    → SameFile f g
    → ¬ SameFile f u
    → Found u (front ++ g ∷ back)
    → Found u (front ++ back)
Found-elsewhere f g u front back (s0, s1, s2) other (k, m, (t0, t1, t2)) =
    elim (In-append k front (g ∷ back) m) [
      | inl l ↦ (k, In-append_left k front back l, (t0, t1, t2))
      | inr (inl e) ↦ absurd (other (cc, cc, cc))
      | inr (inr r) ↦ (k, In-append_right k front back r, (t0, t1, t2))
    ]

length-middle :
    (g : ArchivoInfo) (front back : List ArchivoInfo)
    → length (front ++ g ∷ back) ≡ suc (length (front ++ back))
length-middle g front back = omega (arith, length-append front (g ∷ back), length-append front back)

-- Different files have different matches.
matched-le :
    (fs gs : List ArchivoInfo)
    → Distinct fs
    → ((f : ArchivoInfo) → In f fs → Found f gs)
    → length fs ≤ length gs
matched-le [] gs d h = omega arith
matched-le (f ∷ fs) gs (apart, d) h =
    let (g, m, s) = h f (inl refl) in
    let (front, back, e) = split-In g gs m in
    let rest =
      matched-le fs (front ++ back) d
        (λ u mu. Found-elsewhere f g u front back s (apart u mu) (rw e at (h u (inr mu)))) in
    rw e (omega (arith, rest, length-middle g front back))

Found-or_Missing : (f : ArchivoInfo) (gs : List ArchivoInfo) → Found f gs ⊎ Missing f gs
Found-or_Missing f [] = inr (λ g m s. m)
Found-or_Missing f (g ∷ gs) = elim (Bool-cases (mismo_archivo f g)) [
  | inl e ↦ inl (g, inl refl, (mismo_archivo_iff f g).0 e)
  | inr e ↦ elim (Found-or_Missing f gs) [
    | inl (k, m, s) ↦ inl (k, inr m, s)
    | inr gone ↦ inr (λ k m s. elim m [
      | inl p ↦ cc ((mismo_archivo_iff f g).1 (rw p at s))
      | inr q ↦ gone k q s
    ])
  ]
]

all-Found_or_Missing :
    (fs gs : List ArchivoInfo)
    → ((f : ArchivoInfo) → In f fs → Found f gs) ⊎ ((f : ArchivoInfo) × In f fs × Missing f gs)
all-Found_or_Missing [] gs = inl (λ f m. absurd m)
all-Found_or_Missing (f ∷ fs) gs = elim (Found-or_Missing f gs) [
  | inr gone ↦ inr (f, inl refl, gone)
  | inl here ↦ elim (all-Found_or_Missing fs gs) [
    | inr (u, m, gone) ↦ inr (u, inr m, gone)
    | inl rest ↦ inl (λ u m. elim m [ inl e ↦ rw e here | inr q ↦ rest u q ])
  ]
]

some-Missing :
    (fs gs : List ArchivoInfo)
    → length gs < length fs
    → Distinct fs
    → (f : ArchivoInfo) × In f fs × Missing f gs
some-Missing fs gs fewer d = elim (all-Found_or_Missing fs gs) [
  | inl all ↦ absurd (omega (arith, matched-le fs gs d all))
  | inr lost ↦ lost
]

-- If the files of the old snapshot are distinct, the new one has fewer, and the number of devices
-- is the same, then some file is reported as removed, and it is one that the new snapshot lacks.
pub loss_reported :
    (vs ns : List ArchivoInfo) (a b : ℕ)
    → length ns < length vs
    → a ≡ b
    → Distinct vs
    → (v : ArchivoInfo) × In v vs × Missing v ns × In (removed v) (anadir_eliminar vs ns a b)
loss_reported vs ns a b fewer same d =
    let (v, m, gone) = some-Missing vs ns fewer d in
    (v, m, gone, (removed_iff vs ns a b v).1 (fewer, same, m, gone))

-- If the files of the new snapshot are distinct, there are more of them than before, and the
-- number of devices is the same, then some file that the old snapshot lacks is reported, as added
-- or as a copy.
pub gain_reported :
    (vs ns : List ArchivoInfo) (a b : ℕ)
    → length vs < length ns
    → a ≡ b
    → Distinct ns
    → (f : ArchivoInfo) × In f ns
      × Missing f vs
      × (In (added f) (anadir_eliminar vs ns a b)
          ⊎ ((v : ArchivoInfo) × In v vs
              × LooksLike f v
              × In (copied f v) (anadir_eliminar vs ns a b)))
gain_reported vs ns a b more same d =
    let (f, m, gone) = some-Missing ns vs more d in
    (f, m, gone, new_reported vs ns a b f more same m gone)
