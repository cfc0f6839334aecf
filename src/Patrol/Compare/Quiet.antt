-- ===== src/Patrol/Compare/Quiet.antt =====
-- Fronteras.c, the comparisons: a snapshot compared with itself.
use antibawirus.Common.{
  ℕ, ◌≡◌, refl, sym, ap, ◌∙◌, ◌↔◌, inl, inr, true, false, List, [], ◌++◌, arith, length, In, ==_iff,
  Bool-cases,
}
use antibawirus.Common.Int.{◌-ℤ◌}
use antibawirus.Common.Text.{str_eq_iff}
use antibawirus.Patrol.Files.{ArchivoInfo, mismo_archivo}
use antibawirus.Patrol.Files.Laws.{SameFile, mismo_archivo_iff}
use antibawirus.Patrol.Compare.{
  Alert, each_pair, tamano_pair, tamano, extension_pair, permisos_pair, extension_permisos,
  extension_changed, timestamp_pair, owner_pair, timestamps_ownership, anadir_eliminar,
}
use antibawirus.Patrol.Compare.Pairs.{each_pair-nil}
use antibawirus.Patrol.Compare.Changes.{ExtensionChanged, extension_permisos_iff}

-- Name, extension and path tell the files of a snapshot apart.
abbrev pub Unique : List ArchivoInfo → Type 0
Unique s = (v n : ArchivoInfo) → In v s → In n s → SameFile v n → v ≡ n

-- A body that says nothing of a file and itself, and of two different files, says nothing.
quiet_pair :
    (body : ArchivoInfo → ArchivoInfo → List Alert)
    → ((v n : ArchivoInfo) → mismo_archivo v n ≡ false → body v n ≡ [])
    → ((v : ArchivoInfo) → body v v ≡ [])
    → (s : List ArchivoInfo) → Unique s
    → each_pair body s s ≡ []
quiet_pair body apart self s u = each_pair-nil body s s λ v n mv mn.
    elim (Bool-cases (mismo_archivo v n)) [
      | inl e ↦ ap (body v) (sym (u v n mv mn ((mismo_archivo_iff v n).0 e))) ∙ self v
      | inr e ↦ apart v n e
    ]

tamano_pair-apart : (v n : ArchivoInfo) → mismo_archivo v n ≡ false → tamano_pair v n ≡ []
unfolding tamano_pair
tamano_pair-apart v n e = rw e refl

tamano_pair_self : (v : ArchivoInfo) → tamano_pair v v ≡ []
unfolding tamano_pair ◌-ℤ◌
tamano_pair_self v = ground arith

times_pair-apart :
    (v n : ArchivoInfo) → mismo_archivo v n ≡ false → timestamp_pair v n ++ owner_pair v n ≡ []
unfolding timestamp_pair owner_pair
times_pair-apart v n e = rw e refl

times_pair_self : (v : ArchivoInfo) → timestamp_pair v v ++ owner_pair v v ≡ []
unfolding timestamp_pair owner_pair
times_pair_self v = ground arith

-- Comparing a snapshot with itself, whose files are told apart by name, extension and path,
-- reports no growth, no change of time or owner, and no removed, added or copied file.
pub unchanged_quiet :
    (s : List ArchivoInfo) (a b : ℕ)
    → Unique s
    → (tamano s s ≡ []) × (timestamps_ownership s s ≡ []) × (anadir_eliminar s s a b ≡ [])
unfolding tamano timestamps_ownership anadir_eliminar
unchanged_quiet s a b u = (
  quiet_pair tamano_pair tamano_pair-apart tamano_pair_self s u,
  rw ((==_iff (length s) (length s)).1 refl) (
      quiet_pair (λ v n. timestamp_pair v n ++ owner_pair v n) times_pair-apart times_pair_self s
        u),
  ground arith,
)

extension_pair-nil :
    (v n : ArchivoInfo)
    → ¬ ExtensionChanged v n
    → (mismo_archivo v n ≡ true → v ≡ n)
    → extension_pair v n ++ permisos_pair v n ≡ []
unfolding extension_pair permisos_pair
extension_pair-nil v n h u =
    ground (arith, str_eq_iff v.nombre n.nombre, str_eq_iff v.extension n.extension)

-- Comparing a snapshot with itself, whose files are told apart by name, extension and path,
-- `extension_permisos` is silent exactly when no two files have the same name and size and
-- different extensions.
pub extension_permisos-unchanged_iff :
    (s : List ArchivoInfo)
    → Unique s
    → (extension_permisos s s ≡ [])
      ↔ ((v n : ArchivoInfo) → In v s → In n s → ¬ ExtensionChanged v n)
unfolding extension_permisos
extension_permisos-unchanged_iff s u = (
  λ e v n mv mn c.
      let alarm : In (extension_changed v n) (extension_permisos s s) =
        (extension_permisos_iff s s v n).0.1 (refl, mv, mn, c) in
      absurd (rw e at alarm),
  λ h. rw ((==_iff (length s) (length s)).1 refl) (
      each_pair-nil (λ v n. extension_pair v n ++ permisos_pair v n) s s
        (λ v n mv mn.
          extension_pair-nil v n (h v n mv mn) (λ e. u v n mv mn ((mismo_archivo_iff v n).0 e)))),
)
