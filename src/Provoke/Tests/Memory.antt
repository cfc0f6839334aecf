-- ===== src/Provoke/Tests/Memory.antt =====
-- A file system in memory whose calls do what is documented of them.
use antibawirus.Common.{
  ◌+◌, ◌*◌, ◌/◌, ◌≡◌, refl, sym, ap, ◌∙◌, inl, inr, Bool, true, false, Option, none, some, arith,
  if◌then◌else◌, Bool-cases, Option-cases,
}
use antibawirus.Common.Int.{pos}
use antibawirus.Common.Text.{Text, str_eq, str_eq_refl, str_eq_iff}
use antibawirus.Patrol.Listing.{Stat}
use antibawirus.Provoke.Posix.{Posix, IsPosix}

-- What `stat` says of each path.
abbrev pub Files : Type 0
Files = Text → Option Stat

abbrev pub put : Files → Text → Option Stat → Files
put m p st q = if str_eq p q then st else m q

abbrev change : (Stat → Stat) → Files → Text → Option Files
change f m p = elim (m p) [ none ↦ none | some st ↦ some (put m p (some (f st))) ]

abbrev is_there : Option Stat → Bool
is_there none = false
is_there (some _) = true

abbrev pub memory : Posix
memory = record {
  State = Files;
  stat = λ m p. m p;
  access = λ m p. is_there (m p);
  chmod =
      λ m p mode. change (λ st. record st { st_mode = st.st_mode / 0o10000 * 0o10000 + mode }) m p;
  chown = λ m p u g. change (λ st. record st { st_uid = u; st_gid = g }) m p;
  utime = λ m p times. change (λ st. record st { st_mtime = times.modtime }) m p;
  rename = λ m old new. elim (m old) [
    | none ↦ none
    | some st ↦ some (put (put m new (some st)) old none)
  ];
  remove = λ m p. elim (m p) [ none ↦ none | some st ↦ some (put m p none) ];
  getpwnam = λ m name. some (record { pw_uid = 65534; pw_gid = 65534 });
  mktime = λ tm. pos 1672570800;
}

pub get-put : (m : Files) (p : Text) (o : Option Stat) → put m p o p ≡ o
get-put m p o = rw (str_eq_refl p) refl

some_inside : (m : Files) {n n' : Files} → some n ≡ some n' → n ≡ n'
some_inside m e = ap (λ o. elim o [ none ↦ m | some x ↦ x ]) e

change-stat :
    (f : Stat → Stat) (m m' : Files) (p : Text) (st : Stat)
    → m p ≡ some st
    → change f m p ≡ some m'
    → m' p ≡ some (f st)
change-stat f m m' p st here done =
    ap (λ t. t p) (sym (some_inside m (rw (change, here) at done))) ∙ get-put m p (some (f st))

rename-put :
    (m : Files) (old new : Text) (st : Stat)
    → m old ≡ some st
    → m new ≡ none
    → put (put m new (some st)) old none new ≡ some st
rename-put m old new st here free = elim (Bool-cases (str_eq old new)) [
  | inl e ↦
      let same = (str_eq_iff old new).0 e in
      let z : none ≡ some st = sym free ∙ rw same at here in cc
  | inr e ↦ rw e (get-put m new (some st))
]

pub memory-IsPosix : IsPosix memory
memory-IsPosix = record {
  access-stat = λ s p st here. rw here refl;
  chmod-stat = λ s s' p m st small here done. change-stat _ s s' p st here done;
  chown-stat = λ s s' p u g st here done. (st.st_mode, refl, change-stat _ s s' p st here done);
  utime-stat = λ s s' p times st here done. change-stat _ s s' p st here done;
  rename-stat = λ s s' old new st here free done.
      let e = some_inside s (rw here at done) in
      (
        ap (λ t. t old) (sym e) ∙ get-put (put s new (some st)) old none,
        ap (λ t. t new) (sym e) ∙ rename-put s old new st here free,
      );
  remove-stat = λ s s' p done. elim (Option-cases (s p)) [
    | inl e ↦ absurd (ground (arith, rw e at done))
    | inr (st, e) ↦ ap (λ t. t p) (sym (some_inside s (rw e at done))) ∙ get-put s p none
  ];
}
