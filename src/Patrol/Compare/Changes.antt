-- ===== src/Patrol/Compare/Changes.antt =====
-- Which files the alerts on size, extension, permissions, time and owner name.
use antibawirus.Common.{
  ℕ, ◌+◌, ◌≤◌, ◌≡◌, refl, ◌≢◌, ◌↔◌, inl, inr, Bool, true, false, List, [], ◌∷◌, ◌++◌, arith, length,
  In, ◌==◌, ==_iff, Bool-cases, if◌then◌else◌,
}
use antibawirus.Common.Int.{ℤ, pos, ◌-ℤ◌, leb_ℤ, eqb_ℤ_iff}
use antibawirus.Common.Text.{str_eq_iff}
use antibawirus.Patrol.Files.{ArchivoInfo, mismo_archivo}
use antibawirus.Patrol.Files.Laws.{SameFile, mismo_archivo_iff}
use antibawirus.Patrol.Compare.{
  Alert, grown, extension_changed, permissions_changed, timestamp_changed, owner_changed, each_pair,
  tamano_pair, tamano, growth_limit, mode_bits, extension_pair, permisos_pair, extension_permisos,
  timestamp_pair, owner_pair, timestamps_ownership,
}
use antibawirus.Patrol.Compare.Pairs.{In-each_pair, each_pair-In}

-- The two shapes of the tests that print an alert.
In-when :
    (b c : Bool) (x a : Alert)
    → In a (if b then (if c then x ∷ [] else []) else []) ↔ ((a ≡ x) × (b ≡ true) × (c ≡ true))
In-when b c x a = (λ h. ground arith, λ h. ground arith)

In-unless :
    (b c : Bool) (x a : Alert)
    → In a (if b then (if c then [] else x ∷ []) else []) ↔ ((a ≡ x) × (b ≡ true) × (c ≡ false))
In-unless b c x a = (λ h. ground arith, λ h. ground arith)

at_least_limit :
    (a b : ℕ) → (leb_ℤ (pos growth_limit) (pos b -ℤ pos a) ≡ true) ↔ (a + growth_limit ≤ b)
unfolding ◌-ℤ◌
at_least_limit a b = (λ h. ground arith, λ h. ground arith)

-- An alert of growth, and for which file.
abbrev pub Grew : ArchivoInfo → ArchivoInfo → Type 0
Grew v n = SameFile v n × (v.tamano + growth_limit ≤ n.tamano)

grown-injective : {m n : ArchivoInfo} {d e : ℤ} → grown m d ≡ grown n e → (m ≡ n) × (d ≡ e)
grown-injective h = (cc, cc)

-- An alert of growth with the difference `d` is printed for a file exactly when the file was there
-- before, under the same name, extension and path, is larger by at least 10 MB, and `d` is the
-- difference.
pub tamano_iff :
    (vs ns : List ArchivoInfo) (n : ArchivoInfo) (d : ℤ)
    → In (grown n d) (tamano vs ns)
      ↔ ((v : ArchivoInfo) × In v vs × In n ns × Grew v n × (d ≡ pos n.tamano -ℤ pos v.tamano))
unfolding tamano tamano_pair
tamano_iff vs ns n d = (
  λ h.
      let (v, m, mv, mn, here) = In-each_pair tamano_pair (grown n d) vs ns h in
      let (e, same, large) = (In-when (mismo_archivo v m) _ _ (grown n d)).0 here in
      let (em, ed) = grown-injective e in
      (
        v,
        mv,
        rw em mn,
        rw em ((mismo_archivo_iff v m).0 same, (at_least_limit v.tamano m.tamano).0 large),
        rw em ed,
      ),
  λ (v, mv, mn, (same, large), ed). each_pair-In tamano_pair (grown n d) v n vs ns mv mn (
      (In-when (mismo_archivo v n) _ _ (grown n d)).1
        (rw ed refl, (mismo_archivo_iff v n).1 same, (at_least_limit v.tamano n.tamano).1 large)),
)

-- A double loop that runs only on snapshots of one size, with a body of two tests.
module _ (left right : ArchivoInfo → ArchivoInfo → List Alert)
    (alert : ArchivoInfo → ArchivoInfo → Alert) (Cond : ArchivoInfo → ArchivoInfo → Type 0)
    (body_in : (u m v n : ArchivoInfo)
      → In (alert v n) (left u m ++ right u m) ↔ ((v ≡ u) × (n ≡ m) × Cond u m)) where
  same_size_iff :
      (vs ns : List ArchivoInfo) (v n : ArchivoInfo)
      → In
          (alert v n)
          (if length ns == length vs then each_pair (λ u m. left u m ++ right u m) vs ns else [])
        ↔ ((length ns ≡ length vs) × In v vs × In n ns × Cond v n)
  same_size_iff vs ns v n = elim (Bool-cases (length ns == length vs)) [
    | inl e ↦ rw e (
      (λ h.
          let (u, m, mu, mm, here) =
            In-each_pair (λ u m. left u m ++ right u m) (alert v n) vs ns h in
          let (ev, en, c) = (body_in u m v n).0 here in
          ((==_iff _ _).0 e, rw ev mu, rw en mm, rw (ev, en) c)),
      (λ (_, mv, mn, c).
          each_pair-In (λ u m. left u m ++ right u m) (alert v n) v n vs ns mv mn
            ((body_in v n v n).1 (refl, refl, c))),
    )
    | inr e ↦ rw e (λ h. absurd h, λ (same, _, _, _). ground arith)
  ]

abbrev pub ExtensionChanged : ArchivoInfo → ArchivoInfo → Type 0
ExtensionChanged v n = (v.nombre ≡ n.nombre) × (v.tamano ≡ n.tamano) × (v.extension ≢ n.extension)

abbrev pub PermissionsChanged : ArchivoInfo → ArchivoInfo → Type 0
PermissionsChanged v n = SameFile v n × (mode_bits v.permisos ≢ mode_bits n.permisos)

abbrev pub TimestampChanged : ArchivoInfo → ArchivoInfo → Type 0
TimestampChanged v n = SameFile v n × (v.ultima_modificacion ≢ n.ultima_modificacion)

abbrev pub OwnerChanged : ArchivoInfo → ArchivoInfo → Type 0
OwnerChanged v n = SameFile v n × (v.owner_uid ≢ n.owner_uid)

In-extension_pair :
    (u m v n : ArchivoInfo)
    → In (extension_changed v n) (extension_pair u m ++ permisos_pair u m)
      ↔ ((v ≡ u) × (n ≡ m) × ExtensionChanged u m)
unfolding extension_pair permisos_pair
In-extension_pair u m v n = (
  λ h. ground (arith, str_eq_iff u.nombre m.nombre, str_eq_iff u.extension m.extension),
  λ h. ground (arith, str_eq_iff u.nombre m.nombre, str_eq_iff u.extension m.extension),
)

In-permisos_pair :
    (u m v n : ArchivoInfo)
    → In (permissions_changed v n) (extension_pair u m ++ permisos_pair u m)
      ↔ ((v ≡ u) × (n ≡ m) × PermissionsChanged u m)
unfolding extension_pair permisos_pair
In-permisos_pair u m v n =
    (λ h. ground (arith, mismo_archivo_iff u m), λ h. ground (arith, mismo_archivo_iff u m))

In-timestamp_pair :
    (u m v n : ArchivoInfo)
    → In (timestamp_changed v n) (timestamp_pair u m ++ owner_pair u m)
      ↔ ((v ≡ u) × (n ≡ m) × TimestampChanged u m)
unfolding timestamp_pair owner_pair
In-timestamp_pair u m v n = (
  λ h. ground (arith, mismo_archivo_iff u m, eqb_ℤ_iff u.ultima_modificacion m.ultima_modificacion),
  λ h. ground (arith, mismo_archivo_iff u m, eqb_ℤ_iff u.ultima_modificacion m.ultima_modificacion),
)

In-owner_pair :
    (u m v n : ArchivoInfo)
    → In (owner_changed v n) (timestamp_pair u m ++ owner_pair u m)
      ↔ ((v ≡ u) × (n ≡ m) × OwnerChanged u m)
unfolding timestamp_pair owner_pair
In-owner_pair u m v n =
    (λ h. ground (arith, mismo_archivo_iff u m), λ h. ground (arith, mismo_archivo_iff u m))

-- Between snapshots of the same number of files, and only then: a change of extension is reported
-- exactly for an old and a new file of equal name and size and different extension, wherever they
-- lie; and a change of permissions exactly for a file with other permission bits than before.
pub extension_permisos_iff :
    (vs ns : List ArchivoInfo) (v n : ArchivoInfo)
    → (In (extension_changed v n) (extension_permisos vs ns)
        ↔ ((length ns ≡ length vs) × In v vs × In n ns × ExtensionChanged v n))
      × (In (permissions_changed v n) (extension_permisos vs ns)
          ↔ ((length ns ≡ length vs) × In v vs × In n ns × PermissionsChanged v n))
unfolding extension_permisos
extension_permisos_iff vs ns v n = (
  same_size_iff extension_pair permisos_pair extension_changed ExtensionChanged In-extension_pair vs
      ns v n,
  same_size_iff extension_pair permisos_pair permissions_changed PermissionsChanged In-permisos_pair
      vs ns v n,
)

-- Between snapshots of the same number of files, and only then, a change of the modification time
-- and a change of the owner are reported exactly for the files where they differ.
pub timestamps_ownership_iff :
    (vs ns : List ArchivoInfo) (v n : ArchivoInfo)
    → (In (timestamp_changed v n) (timestamps_ownership vs ns)
        ↔ ((length ns ≡ length vs) × In v vs × In n ns × TimestampChanged v n))
      × (In (owner_changed v n) (timestamps_ownership vs ns)
          ↔ ((length ns ≡ length vs) × In v vs × In n ns × OwnerChanged v n))
unfolding timestamps_ownership
timestamps_ownership_iff vs ns v n = (
  same_size_iff timestamp_pair owner_pair timestamp_changed TimestampChanged In-timestamp_pair vs ns
      v n,
  same_size_iff timestamp_pair owner_pair owner_changed OwnerChanged In-owner_pair vs ns v n,
)
