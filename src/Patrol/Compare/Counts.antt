-- ===== src/Patrol/Compare/Counts.antt =====
-- Which files the alerts on removed, added and copied files name.
use antibawirus.Common.{
  ℕ, ◌<◌, ◌≡◌, refl, ◌∙◌, ◌≢◌, ◌⊎◌, ◌↔◌, inl, inr, ◌&&◌, List, [], ◌∷◌, Option, none, some, arith,
  length, In, In-append, In-append_left, In-append_right, ltb, ltb→lt, ◌==◌, Bool-cases,
  Option-cases, if◌then◌else◌,
}
use antibawirus.Patrol.Files.{ArchivoInfo, mismo_archivo}
use antibawirus.Patrol.Compare.Copies.{
  Absent, encontrado-zero, zero-encontrado, LooksLike, copia-none, none-copia, copia-some, Missing,
  Absent-Missing, Missing-Absent,
}
use antibawirus.Patrol.Compare.{
  as_alert, copied, removed, added, copia, encontrado, eliminados, anadidos, anadir_eliminar,
}

-- One alert behind two tests of numbers.
In-one :
    (k a b : ℕ) (x y : ArchivoInfo)
    → In (removed x) (if k == 0 then (if a == b then removed y ∷ [] else []) else [])
      ↔ ((x ≡ y) × (k ≡ 0) × (a ≡ b))
In-one k a b x y = (λ h. ground arith, λ h. ground arith)

-- `eliminados` reports the files that are missing from the new snapshot.
In-eliminados :
    (vs ns : List ArchivoInfo) (a b : ℕ) (v : ArchivoInfo)
    → In (removed v) (eliminados vs ns a b)
      ↔ ((a ≡ b) × In v vs × Absent (λ n. mismo_archivo v n) ns)
unfolding eliminados
In-eliminados [] ns a b v = (λ h. absurd h, λ (_, m, _). absurd m)
In-eliminados (u ∷ vs) ns a b v =
    let rest = In-eliminados vs ns a b v in
    let here = In-one (encontrado (λ n. mismo_archivo u n) ns) a b v u in
    (
      λ h. elim (In-append (removed v) _ (eliminados vs ns a b) h) [
        | inl l ↦ let (e, z, same) = here.0 l in (same, inl e, rw e (encontrado-zero _ ns z))
        | inr r ↦ let (same, m, none_there) = rest.0 r in (same, inr m, none_there)
      ],
      λ (same, m, none_there). elim m [
        | inl e ↦
            In-append_left (removed v) _ (eliminados vs ns a b)
              (here.1 (e, zero-encontrado _ ns (rw e at none_there), same))
        | inr m' ↦
            In-append_right (removed v) _ (eliminados vs ns a b) (rest.1 (same, m', none_there))
      ],
    )

-- The alert for a new file behind the test of its counter.
In-new :
    (k : ℕ) (x f : ArchivoInfo) (c : Option ArchivoInfo)
    → In (added x) (if k == 0 then as_alert f c ∷ [] else []) ↔ ((x ≡ f) × (k ≡ 0) × (c ≡ none))
In-new k x f none = (λ h. ground arith, λ h. ground arith)
In-new k x f (some v) = (λ h. ground arith, λ h. ground arith)

removed-not_new :
    (k : ℕ) (x f : ArchivoInfo) (c : Option ArchivoInfo)
    → ¬ In (removed x) (if k == 0 then as_alert f c ∷ [] else [])
removed-not_new k x f none h = ground arith
removed-not_new k x f (some v) h = ground arith

anadidos-not_removed :
    (fs vs : List ArchivoInfo) (v : ArchivoInfo) → ¬ In (removed v) (anadidos fs vs)
unfolding anadidos
anadidos-not_removed [] vs v h = h
anadidos-not_removed (f ∷ fs) vs v h = elim (In-append (removed v) _ (anadidos fs vs) h) [
  | inl l ↦ removed-not_new _ v f (copia f vs) l
  | inr r ↦ anadidos-not_removed fs vs v r
]

In-anadidos :
    (fs vs : List ArchivoInfo) (x : ArchivoInfo)
    → In (added x) (anadidos fs vs)
      ↔ (In x fs × Absent (λ v. mismo_archivo v x) vs × (copia x vs ≡ none))
unfolding anadidos
In-anadidos [] vs x = (λ h. absurd h, λ (m, _, _). absurd m)
In-anadidos (f ∷ fs) vs x =
    let rest = In-anadidos fs vs x in
    let here = In-new (encontrado (λ v. mismo_archivo v f) vs) x f (copia f vs) in
    (
      λ h. elim (In-append (added x) _ (anadidos fs vs) h) [
        | inl l ↦ let (e, z, c) = here.0 l in (inl e, rw e (encontrado-zero _ vs z), rw e c)
        | inr r ↦ let (m, none_there, c) = rest.0 r in (inr m, none_there, c)
      ],
      λ (m, none_there, c). elim m [
        | inl e ↦
            In-append_left (added x) _ (anadidos fs vs)
              (here.1 (e, zero-encontrado _ vs (rw e at none_there), rw e at c))
        | inr m' ↦ In-append_right (added x) _ (anadidos fs vs) (rest.1 (m', none_there, c))
      ],
    )

eliminados-not_added :
    (vs ns : List ArchivoInfo) (a b : ℕ) (x : ArchivoInfo) → ¬ In (added x) (eliminados vs ns a b)
unfolding eliminados
eliminados-not_added [] ns a b x h = h
eliminados-not_added (u ∷ vs) ns a b x h = elim (In-append (added x) _ (eliminados vs ns a b) h) [
  | inl l ↦ ground arith
  | inr r ↦ eliminados-not_added vs ns a b x r
]

-- The three branches of `anadir_eliminar`.
branches :
    (vs ns : List ArchivoInfo) (a b : ℕ)
    → let r = anadir_eliminar vs ns a b in
      ((length ns < length vs) × (r ≡ eliminados vs ns a b))
      ⊎ ((length vs < length ns) × (a ≡ b) × (r ≡ anadidos ns vs))
      ⊎ ((¬ (length ns < length vs)) × (¬ ((length vs < length ns) × (a ≡ b))) × (r ≡ []))
unfolding anadir_eliminar
branches vs ns a b = elim (Bool-cases (ltb (length ns) (length vs))) [
  | inl fewer ↦ rw (fewer, anadir_eliminar) (inl (ltb→lt _ _ fewer, refl))
  | inr e ↦ elim (Bool-cases (ltb (length vs) (length ns) && a == b)) [
    | inl t ↦ rw (e, t, anadir_eliminar) (inr (inl (ground arith, ground arith, refl)))
    | inr t ↦ rw (e, t, anadir_eliminar) (inr (inr (λ l. ground arith, λ l. ground arith, refl)))
  ]
]

-- A file is reported as removed exactly when the new snapshot has fewer files, the number of
-- devices is the same, and the file was in the old snapshot and is not in the new one.
pub removed_iff :
    (vs ns : List ArchivoInfo) (a b : ℕ) (v : ArchivoInfo)
    → In (removed v) (anadir_eliminar vs ns a b)
      ↔ ((length ns < length vs) × (a ≡ b) × In v vs × Missing v ns)
unfolding anadir_eliminar
removed_iff vs ns a b v = elim (branches vs ns a b) [
  | inl (fewer, e) ↦ rw e (
    λ h.
        let (same, m, gone) = (In-eliminados vs ns a b v).0 h in
        (fewer, same, m, (Absent-Missing v ns).0 gone),
    λ (_, same, m, gone). (In-eliminados vs ns a b v).1 (same, m, (Absent-Missing v ns).1 gone),
  )
  | inr (inl (more, _, e)) ↦
      rw e (λ h. absurd (anadidos-not_removed ns vs v h), λ (fewer, _, _, _). absurd (omega arith))
  | inr (inr (not_fewer, _, e)) ↦ rw e (λ h. absurd h, λ (fewer, _, _, _). absurd (not_fewer fewer))
]

-- A file is reported as added exactly when the new snapshot has more files, the number of devices
-- is the same, the file is in the new snapshot and not in the old one, and no old file has its
-- extension and size and a name that its name starts with.
pub added_iff :
    (vs ns : List ArchivoInfo) (a b : ℕ) (f : ArchivoInfo)
    → In (added f) (anadir_eliminar vs ns a b) ↔ (
        (length vs < length ns)
        × (a ≡ b)
        × In f ns
        × Missing f vs
        × ((v : ArchivoInfo) → In v vs → ¬ LooksLike f v))
unfolding anadir_eliminar
added_iff vs ns a b f = elim (branches vs ns a b) [
  | inl (fewer, e) ↦
      rw e (
        λ h. absurd (eliminados-not_added vs ns a b f h),
        λ (more, _, _, _, _). absurd (omega arith),
      )
  | inr (inl (more, same, e)) ↦ rw e (
    λ h.
        let (m, gone, c) = (In-anadidos ns vs f).0 h in
        (more, same, m, (Missing-Absent f vs).0 gone, copia-none f vs c),
    λ (_, _, m, gone, original).
        (In-anadidos ns vs f).1 (m, (Missing-Absent f vs).1 gone, none-copia f vs original),
  )
  | inr (inr (_, not_more, e)) ↦
      rw e (λ h. absurd h, λ (more, same, _, _, _). absurd (not_more (more, same)))
]

anadidos-reports :
    (fs vs : List ArchivoInfo) (f : ArchivoInfo)
    → In f fs
    → Absent (λ v. mismo_archivo v f) vs
    → In (as_alert f (copia f vs)) (anadidos fs vs)
unfolding anadidos
anadidos-reports [] vs f m gone = absurd m
anadidos-reports (g ∷ fs) vs f (inl e) gone =
    In-append_left _ _ (anadidos fs vs)
      (rw (← e, zero-encontrado (λ v. mismo_archivo v f) vs gone) (inl refl))
anadidos-reports (g ∷ fs) vs f (inr m) gone =
    In-append_right _ _ (anadidos fs vs) (anadidos-reports fs vs f m gone)

-- When the new snapshot has more files and the number of devices is the same, each file that the
-- old snapshot lacks is reported: as added, or as a possible copy of an old file with the same
-- extension and size whose name it starts with.
pub new_reported :
    (vs ns : List ArchivoInfo) (a b : ℕ) (f : ArchivoInfo)
    → length vs < length ns
    → a ≡ b
    → In f ns
    → Missing f vs
    → In (added f) (anadir_eliminar vs ns a b)
      ⊎ ((v : ArchivoInfo) × In v vs × LooksLike f v × In (copied f v) (anadir_eliminar vs ns a b))
new_reported vs ns a b f more same m gone = elim (branches vs ns a b) [
  | inl (fewer, _) ↦ absurd (omega arith)
  | inr (inl (_, _, e)) ↦
      let told = anadidos-reports ns vs f m ((Missing-Absent f vs).1 gone) in
      elim (Option-cases (copia f vs)) [
        | inl c ↦ rw e (inl (rw c at told))
        | inr (v, c) ↦
            let (mv, like) = copia-some f v vs c in rw e (inr (v, mv, like, rw c at told))
      ]
  | inr (inr (_, not_more, _)) ↦ absurd (not_more (more, same))
]

eliminados-devices_changed :
    (vs ns : List ArchivoInfo) (a b : ℕ) → a ≢ b → eliminados vs ns a b ≡ []
unfolding eliminados
eliminados-devices_changed [] ns a b h = refl
eliminados-devices_changed (v ∷ vs) ns a b h =
    let rest = eliminados-devices_changed vs ns a b h in ground arith

-- When the number of devices changes, no removed or added file is reported.
pub anadir_eliminar-devices_changed :
    (vs ns : List ArchivoInfo) (a b : ℕ) → a ≢ b → anadir_eliminar vs ns a b ≡ []
anadir_eliminar-devices_changed vs ns a b h = elim (branches vs ns a b) [
  | inl (_, e) ↦ e ∙ eliminados-devices_changed vs ns a b h
  | inr (inl (_, same, _)) ↦ absurd (h same)
  | inr (inr (_, _, e)) ↦ e
]
