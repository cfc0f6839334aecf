-- ===== src/Provoke/Expansion/Alarm.antt =====
-- Test1_Growth.c and Fronteras.c: the expansion of the file, and the alert that it provokes.
use Prim.Native.Nat.{max}
use mathlib.Core.Option.{some-injective}
use antibawirus.Common.{
  ℕ, zero, suc, ◌+◌, ◌-◌, ◌*◌, ◌≤◌, ◌<◌, ◌≡◌, refl, sym, ap, ◌∙◌, inl, inr, List, [], ◌∷◌, Option,
  none, some, arith, In, length, Option-cases,
}
use antibawirus.Common.Int.{pos, ◌-ℤ◌}
use antibawirus.Common.Text.{Text}
use antibawirus.Patrol.Files.{ArchivoInfo}
use antibawirus.Patrol.Listing.{Stat, info}
use antibawirus.Patrol.Compare.{grown, growth_limit, tamano}
use antibawirus.Patrol.Compare.Changes.{tamano_iff}
use antibawirus.Provoke.Status.{failed_only}
use antibawirus.Provoke.Posix.{Posix}
use antibawirus.Provoke.Descriptors.{
  Descriptors, IsDescriptors, wronly, wronly_creat_trunc, size_in, size,
}
use antibawirus.Provoke.Attributes.Alarm.{Lists}
use antibawirus.Provoke.Expansion.{
  target, final_size, buffer_size, after, llenar, crear, expandir, main,
}

pub size-stat :
    (o : Option Stat) (n : ℕ) → size_in o ≡ some n → (st : Stat) × (o ≡ some st) × (st.st_size ≡ n)
size-stat none n e = cc
size-stat (some st) n e = (st, refl, some-injective _ _ e)

module _ (P : Posix) (D : Descriptors P) (law : IsDescriptors P D) (buffer : ℕ → Text) where
  -- The descriptor stands in a file of at most `b` bytes, at a place of it.
  abbrev IsWithin : ℕ → ℕ → P.State → Type 0
  IsWithin b fd s =
      (off : ℕ) × (n : ℕ) × (law.at s fd ≡ some (target, off))
      × (size P s target ≡ some n)
      × (off ≤ b)
      × (n ≤ b)

  module _ (full : (i : ℕ) → length (buffer i) ≡ buffer_size) where
    write-IsWithin :
        (b fd i : ℕ) (s : P.State)
        → IsWithin b fd s
        → IsWithin (b + buffer_size) fd (after P D buffer s (D.write s fd (buffer i)))
    write-IsWithin b fd i s (off, n, here, sz, l, m) =
        elim (Option-cases (D.write s fd (buffer i))) [
          | inl e ↦ rw e (off, n, here, sz, omega (arith, l), omega (arith, m))
          | inr ((k, s'), e) ↦
              let some_bytes : 0 < length (buffer i) = rw (full i) (omega arith) in
              let (_, fits, here', sz') =
                law.write-at s s' fd off n k target (buffer i) here sz some_bytes e in
              let fits' : k ≤ buffer_size = rw (full i) at fits in
              rw e (
                off + k,
                max n (off + k),
                here',
                sz',
                omega (arith, l, fits'),
                omega (arith, l, m, fits'),
              )
        ]

    llenar-IsWithin :
        (rounds b fd : ℕ) (s : P.State)
        → IsWithin b fd s
        → IsWithin (b + rounds * buffer_size) fd (llenar P D buffer rounds fd s)
    unfolding llenar
    llenar-IsWithin zero b fd s (off, n, here, sz, l, m) =
        (off, n, here, sz, omega (arith, l), omega (arith, m))
    llenar-IsWithin (suc rounds) b fd s w =
        let (off, n, here, sz, l, m) =
          llenar-IsWithin rounds (b + buffer_size) fd _ (write-IsWithin b fd rounds s w) in
        (off, n, here, sz, omega (arith, l), omega (arith, m))

    crear_small :
        (s s' : P.State)
        → crear P D buffer s ≡ some s'
        → (n : ℕ) × (size P s' target ≡ some n) × (n ≤ 2048)
    unfolding crear
    crear_small s s' done = elim (Option-cases (D.open_file s target wronly_creat_trunc)) [
      | inl e ↦ let z : none ≡ some s' = rw (crear, e) at done in cc
      | inr ((fd, t), e) ↦
          let start : IsWithin 0 fd t = (
            0,
            0,
            law.open-at s t target wronly_creat_trunc fd e,
            law.open-truncated s t target wronly_creat_trunc fd refl e,
            omega arith,
            omega arith,
          ) in
          let (off, n, here, sz, l, m) = llenar-IsWithin 2 0 fd t start in
          let closed = some-injective _ _ (rw (crear, e) at done) in
          (
            n,
            ap (λ u. size P u target) (sym closed)
                ∙ law.close-size (llenar P D buffer 2 fd t) fd target
                ∙ sz,
            omega (arith, m),
          )
    ]

  expandir-size :
      (s s' : P.State) (n : ℕ)
      → size P s target ≡ some n
      → n < final_size
      → expandir P D buffer s ≡ (0, s')
      → size P s' target ≡ some final_size
  unfolding expandir
  expandir-size s s' n sz small run = elim (Option-cases (D.open_file s target wronly)) [
    | inl e ↦ absurd (failed_only s s' (rw (expandir, e) at run))
    | inr ((fd, t), e) ↦
        let open_at = law.open-at s t target wronly fd e in
        let kept = law.open-kept s t target wronly fd n refl sz e in
        elim (Option-cases (D.lseek t fd (final_size - 1))) [
          | inl f ↦ absurd (failed_only (D.close t fd) s' (rw (expandir, e, f) at run))
          | inr (u, f) ↦
              let moved = law.lseek-at t u fd 0 (final_size - 1) target open_at f in
              let kept' = law.lseek-size t u fd (final_size - 1) target f ∙ kept in
              elim (Option-cases (D.write u fd (0 ∷ []))) [
                | inl h ↦ absurd (failed_only (D.close u fd) s' (rw (expandir, e, f, h) at run))
                | inr ((k, v), h) ↦
                    let (one, most, _, grew) =
                      law.write-at u v fd (final_size - 1) n k target (0 ∷ []) moved kept'
                        (omega arith) h in
                    let ended : D.close v fd ≡ s' = ap (λ r. r.1) (rw (expandir, e, f, h) at run) in
                    ap (λ w. size P w target) (sym ended)
                    ∙ law.close-size v fd target
                    ∙ grew
                    ∙ ap some (omega (arith, one, most, small))
              ]
        ]
  ]

-- On a system whose calls do what is documented, with nobody else at the file while the program
-- sleeps: if the program can make the file and then ends with status 0, the file has at most 2 KB
-- while it sleeps and 524288000 bytes at the end, and the patrol reports the growth between a
-- snapshot taken while it sleeps and one taken afterwards that both list the file.
pub expansion_reported :
    (P : Posix) (D : Descriptors P)
    → IsDescriptors P D
    → (buffer : ℕ → Text) (sleep : P.State → P.State) (s asleep s' : P.State) (name : Text)
      (vs ns : List ArchivoInfo)
    → ((i : ℕ) → length (buffer i) ≡ buffer_size)
    → ((t : P.State) → size P (sleep t) target ≡ size P t target)
    → crear P D buffer s ≡ some asleep
    → main P D buffer sleep s ≡ (0, s')
    → Lists P (sleep asleep) target name vs
    → Lists P s' target name ns
    → (st : Stat) × (st' : Stat) × (P.stat (sleep asleep) target ≡ some st)
      × (P.stat s' target ≡ some st')
      × (st.st_size ≤ 2048)
      × (st'.st_size ≡ final_size)
      × In (grown (info target name st') (pos st'.st_size -ℤ pos st.st_size)) (tamano vs ns)
unfolding main info
expansion_reported P D law buffer sleep s asleep s' name vs ns full still made run before later =
    let run' : expandir P D buffer (sleep asleep) ≡ (0, s') = rw (main, made) at run in
    let (n, sz, small) = crear_small P D law buffer full s asleep made in
    let sz' = still asleep ∙ sz in
    let end_size =
      expandir-size P D law buffer (sleep asleep) s' n sz' (omega (arith, small)) run' in
    let (st, here, e) = size-stat (P.stat (sleep asleep) target) n sz' in
    let (st', here', e') = size-stat (P.stat s' target) final_size end_size in
    let grew : st.st_size + growth_limit ≤ st'.st_size = omega (arith, e, e', small) in
    (
      st,
      st',
      here,
      here',
      omega (arith, e, small),
      e',
      (tamano_iff vs ns _ _).1
          (info target name st, before st here, later st' here', ((refl, refl, refl), grew), refl),
    )
