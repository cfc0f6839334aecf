-- ===== src/Provoke/Posix.antt =====
-- The calls of the system that the small programs make, over an unknown state of it, and what is
-- documented of them. A call that fails answers `none` and changes nothing.
use antibawirus.Common.{ℕ, ◌+◌, ◌*◌, ◌/◌, ◌%◌, ◌<◌, ◌≡◌, Bool, true, Option, none, some}
use antibawirus.Common.Int.{ℤ}
use antibawirus.Common.Text.{Text}
use antibawirus.Patrol.Listing.{Stat}

-- `struct passwd`, the fields that are read.
pub record Passwd : Type 0 where
  pub pw_uid : ℕ
  pub pw_gid : ℕ

-- `struct tm`, the fields that are set.
pub record Tm : Type 0 where
  pub tm_year : ℕ
  pub tm_mon : ℕ
  pub tm_mday : ℕ
  pub tm_hour : ℕ
  pub tm_min : ℕ
  pub tm_sec : ℕ
  pub tm_isdst : ℤ

-- `struct utimbuf`
pub record Utimbuf : Type 0 where
  pub actime : ℤ
  pub modtime : ℤ

pub record Posix : Type 1 where
  pub State : Type 0
  pub stat : State → Text → Option Stat
  -- `access(path, F_OK) == 0`
  pub access : State → Text → Bool
  pub chmod : State → Text → ℕ → Option State
  pub chown : State → Text → ℕ → ℕ → Option State
  pub utime : State → Text → Utimbuf → Option State
  pub rename : State → Text → Text → Option State
  pub remove : State → Text → Option State
  pub getpwnam : State → Text → Option Passwd
  pub mktime : Tm → ℤ

-- `stat` afterwards differs in what the call sets only; `chown` may clear the bits behind the nine
-- bits of the permissions.
pub record IsPosix (P : Posix) : Type 0 where
  pub access-stat :
      (s : P.State) (p : Text) (st : Stat) → P.stat s p ≡ some st → P.access s p ≡ true
  pub chmod-stat :
      (s s' : P.State) (p : Text) (m : ℕ) (st : Stat)
      → m < 0o1000
      → P.stat s p ≡ some st
      → P.chmod s p m ≡ some s'
      → P.stat s' p ≡ some (record st { st_mode = st.st_mode / 0o10000 * 0o10000 + m })
  pub chown-stat :
      (s s' : P.State) (p : Text) (u g : ℕ) (st : Stat)
      → P.stat s p ≡ some st
      → P.chown s p u g ≡ some s'
      → (mode : ℕ) × (mode % 0o1000 ≡ st.st_mode % 0o1000)
        × (P.stat s' p ≡ some (record st { st_mode = mode; st_uid = u; st_gid = g }))
  pub utime-stat :
      (s s' : P.State) (p : Text) (times : Utimbuf) (st : Stat)
      → P.stat s p ≡ some st
      → P.utime s p times ≡ some s'
      → P.stat s' p ≡ some (record st { st_mtime = times.modtime })
  pub rename-stat :
      (s s' : P.State) (old new : Text) (st : Stat)
      → P.stat s old ≡ some st
      → P.stat s new ≡ none
      → P.rename s old new ≡ some s'
      → (P.stat s' old ≡ none) × (P.stat s' new ≡ some st)
  pub remove-stat : (s s' : P.State) (p : Text) → P.remove s p ≡ some s' → P.stat s' p ≡ none
