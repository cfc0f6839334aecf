-- ===== src/Provoke/Tests/Handles.antt =====
-- A file system in memory with one file open at a time, which is read and written in full.
use Prim.Native.Nat.{max}
use mathlib.Core.Option.{some-injective}
use antibawirus.Common.{
  ℕ, suc, ◌+◌, ◌≤◌, ◌<◌, ◌≡◌, ◌≢◌, refl, sym, ap, ◌∙◌, inl, inr, Bool, true, false, [], ◌∷◌, Option,
  none, some, arith, if◌then◌else◌, Bool-cases, Option-cases, length,
}
use antibawirus.Common.Int.{pos}
use antibawirus.Common.Text.{Text, str_eq, str_eq_iff}
use antibawirus.Patrol.Listing.{Stat}
use antibawirus.Provoke.Posix.{Posix}
use antibawirus.Provoke.Descriptors.{Descriptors, IsDescriptors, size_in}
use antibawirus.Provoke.Tests.Memory.{Files, put, get-put}

-- The files, and the open one with the place in it.
abbrev pub Handles : Type 0
Handles = Files × Option (Text × ℕ)

abbrev pub blank : ℕ → Stat
blank n = record { st_size = n; st_mode = 0o100644; st_mtime = pos 7; st_uid = 1000; st_gid = 1000 }

-- No other call is made.
abbrev pub handles : Posix
handles = record {
  State = Handles;
  stat = λ s p. s.0 p;
  access = λ s p. true;
  chmod = λ s p mode. none;
  chown = λ s p u g. none;
  utime = λ s p times. none;
  rename = λ s old new. none;
  remove = λ s p. none;
  getpwnam = λ s name. none;
  mktime = λ tm. pos 0;
}

abbrev opened : Files → Text → Bool → Option Stat → Files
opened m p truncates st =
    if truncates
    then put m p (some (blank 0))
    else elim st [ none ↦ put m p (some (blank 0)) | some _ ↦ m ]

abbrev written : Files → Option (Text × ℕ) → Text → Option (ℕ × Handles)
written m place [] = some (0, (m, place))
written m none (c ∷ bytes) = none
written m (some (p, off)) (c ∷ bytes) = elim (m p) [
  | none ↦ none
  | some st ↦ some (
    suc (length bytes),
    (
      put m p (some (blank (max st.st_size (off + suc (length bytes))))),
      some (p, off + suc (length bytes)),
    ),
  )
]

abbrev moved : Files → ℕ → Option (Text × ℕ) → Option Handles
moved m n none = none
moved m n (some (p, off)) = some (m, some (p, n))

abbrev pub files_open : Descriptors handles
files_open = record {
  open_file = λ s p flags. some (3, (opened s.0 p flags.truncates (s.0 p), some (p, 0)));
  read = λ s fd n. some ([], s);
  write = λ s fd bytes. written s.0 s.1 bytes;
  lseek = λ s fd n. moved s.0 n s.1;
  close = λ s fd. (s.0, none);
}

put-other : (m : Files) (p q : Text) (o : Option Stat) → q ≢ p → put m p o q ≡ m q
put-other m p q o other = elim (Bool-cases (str_eq p q)) [
  | inl e ↦ absurd (other (sym ((str_eq_iff p q).0 e)))
  | inr e ↦ rw e refl
]

opened-other :
    (m : Files) (p q : Text) (truncates : Bool) → q ≢ p → opened m p truncates (m p) q ≡ m q
opened-other m p q true other = put-other m p q _ other
opened-other m p q false other = elim (Option-cases (m p)) [
  | inl e ↦ rw e (put-other m p q _ other)
  | inr (st, e) ↦ rw e refl
]

opened-kept :
    (m : Files) (p : Text) (n : ℕ)
    → size_in (m p) ≡ some n
    → size_in (opened m p false (m p) p) ≡ some n
opened-kept m p n sz = elim (Option-cases (m p)) [
  | inl e ↦ let z : none ≡ some n = rw e at sz in cc
  | inr (st, e) ↦ rw e sz
]

abbrev Wrote : Handles → ℕ → ℕ → ℕ → Text → Text → Type 0
Wrote s' off n k p bytes =
    (0 < k)
    × (k ≤ length bytes)
    × (s'.1 ≡ some (p, off + k))
    × (size_in (s'.0 p) ≡ some (max n (off + k)))

written-at :
    (m : Files) (s' : Handles) (off n k : ℕ) (p bytes : Text)
    → size_in (m p) ≡ some n
    → 0 < length bytes
    → written m (some (p, off)) bytes ≡ some (k, s')
    → Wrote s' off n k p bytes
written-at m s' off n k p [] sz some_bytes done = absurd (omega (arith, some_bytes))
written-at m s' off n k p (c ∷ bytes) sz some_bytes done = elim (Option-cases (m p)) [
  | inl e ↦ let z : none ≡ some n = rw e at sz in cc
  | inr (st, e) ↦
      let made = some-injective _ _ (rw (written, e) at done) in
      let count : suc (length bytes) ≡ k = ap (λ r. r.0) made in
      let old : st.st_size ≡ n = some-injective _ _ (rw e at sz) in
      (
        omega (arith, count),
        omega (arith, count),
        sym (ap (λ r. r.1.1) made) ∙ ap (λ i. some (p, off + i)) count,
        ap (λ r. size_in (r.1.0 p)) (sym made)
            ∙ ap size_in (get-put m p _)
            ∙ ap some (omega (arith, old, count)),
      )
]

written-other :
    (m : Files) (s' : Handles) (off k : ℕ) (p q bytes : Text)
    → q ≢ p
    → written m (some (p, off)) bytes ≡ some (k, s')
    → s'.0 q ≡ m q
written-other m s' off k p q [] other done = ap (λ r. r.1.0 q) (sym (some-injective _ _ done))
written-other m s' off k p q (c ∷ bytes) other done = elim (Option-cases (m p)) [
  | inl e ↦ absurd (ground (arith, rw (written, e) at done))
  | inr (st, e) ↦
      ap (λ r. r.1.0 q) (sym (some-injective _ _ (rw (written, e) at done)))
      ∙ put-other m p q _ other
]

moved_files :
    (m : Files) (s' : Handles) (n : ℕ) (place : Option (Text × ℕ))
    → moved m n place ≡ some s'
    → m ≡ s'.0
moved_files m s' n none done = absurd (ground (arith, done))
moved_files m s' n (some (p, off)) done = ap (λ r. r.0) (some-injective _ _ done)

pub files_open-IsDescriptors : IsDescriptors handles files_open
files_open-IsDescriptors = record {
  at = λ s fd. s.1;
  open-at = λ s s' p flags fd done. ap (λ r. r.1.1) (sym (some-injective _ _ done));
  open-truncated = λ s s' p flags fd cut done.
      ap (λ r. size_in (r.1.0 p)) (sym (some-injective _ _ done))
      ∙ rw cut (ap size_in (get-put s.0 p _));
  open-other = λ s s' p q flags fd other done.
      ap (λ r. size_in (r.1.0 q)) (sym (some-injective _ _ done))
      ∙ ap size_in (opened-other s.0 p q flags.truncates other);
  open-kept = λ s s' p flags fd n whole sz done.
      ap (λ r. size_in (r.1.0 p)) (sym (some-injective _ _ done))
      ∙ rw whole (opened-kept s.0 p n sz);
  read-size = λ s s' fd n bytes q done. ap (λ r. size_in (r.1.0 q)) (sym (some-injective _ _ done));
  read-count =
      λ s s' fd n bytes done. rw (ap (λ r. r.0) (sym (some-injective _ _ done))) (omega arith);
  write-at = λ s s' fd off n k p bytes here sz some_bytes done.
      written-at s.0 s' off n k p bytes sz some_bytes (rw here at done);
  write-nothing = λ s s' fd k q done. ap (λ r. size_in (r.1.0 q)) (sym (some-injective _ _ done));
  write-other = λ s s' fd off k p q bytes here other done.
      ap size_in (written-other s.0 s' off k p q bytes other (rw here at done));
  lseek-at =
      λ s s' fd off n p here done. ap (λ r. r.1) (sym (some-injective _ _ (rw here at done)));
  lseek-size = λ s s' fd n q done. ap (λ m. size_in (m q)) (sym (moved_files s.0 s' n s.1 done));
  close-size = λ s fd q. refl;
}
