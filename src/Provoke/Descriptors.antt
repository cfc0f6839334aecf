-- ===== src/Provoke/Descriptors.antt =====
-- The calls on file descriptors that the small programs make, over the state of the system, and
-- what is documented of them.
use Prim.Native.Nat.{max}
use antibawirus.Common.{
  ℕ, ◌+◌, ◌≤◌, ◌<◌, ◌≡◌, ◌≢◌, Bool, true, false, Option, none, some, length, [],
}
use antibawirus.Common.Text.{Text}
use antibawirus.Patrol.Listing.{Stat}
use antibawirus.Provoke.Posix.{Posix}

-- `O_WRONLY`, or else `O_RDONLY`; `O_CREAT`; `O_TRUNC`.
pub record Flags : Type 0 where
  pub writes : Bool
  pub creates : Bool
  pub truncates : Bool

abbrev pub rdonly : Flags
rdonly = record { writes = false; creates = false; truncates = false }

abbrev pub wronly : Flags
wronly = record { writes = true; creates = false; truncates = false }

abbrev pub wronly_creat : Flags
wronly_creat = record { writes = true; creates = true; truncates = false }

abbrev pub wronly_creat_trunc : Flags
wronly_creat_trunc = record { writes = true; creates = true; truncates = true }

-- `open_file` stands for `open`. It takes the mode 0644, `lseek` measures from the start, and a call that fails answers `none`.
pub record Descriptors (P : Posix) : Type 0 where
  pub open_file : P.State → Text → Flags → Option (ℕ × P.State)
  pub read : P.State → ℕ → ℕ → Option (Text × P.State)
  pub write : P.State → ℕ → Text → Option (ℕ × P.State)
  pub lseek : P.State → ℕ → ℕ → Option P.State
  pub close : P.State → ℕ → P.State

-- The size that `stat` tells of a file.
abbrev pub size_in : Option Stat → Option ℕ
size_in none = none
size_in (some st) = some st.st_size

abbrev pub size : (P : Posix) → P.State → Text → Option ℕ
size P s p = size_in (P.stat s p)

-- `at s fd` is the file behind a descriptor, and the place where it is read and written next. No two
-- paths are links to one file.
pub record IsDescriptors (P : Posix) (D : Descriptors P) : Type 0 where
  pub at : P.State → ℕ → Option (Text × ℕ)
  pub open-at :
      (s s' : P.State) (p : Text) (flags : Flags) (fd : ℕ)
      → D.open_file s p flags ≡ some (fd, s')
      → at s' fd ≡ some (p, 0)
  pub open-truncated :
      (s s' : P.State) (p : Text) (flags : Flags) (fd : ℕ)
      → flags.truncates ≡ true
      → D.open_file s p flags ≡ some (fd, s')
      → size P s' p ≡ some 0
  pub open-other :
      (s s' : P.State) (p q : Text) (flags : Flags) (fd : ℕ)
      → q ≢ p
      → D.open_file s p flags ≡ some (fd, s')
      → size P s' q ≡ size P s q
  pub open-kept :
      (s s' : P.State) (p : Text) (flags : Flags) (fd n : ℕ)
      → flags.truncates ≡ false
      → size P s p ≡ some n
      → D.open_file s p flags ≡ some (fd, s')
      → size P s' p ≡ some n
  pub read-size :
      (s s' : P.State) (fd n : ℕ) (bytes q : Text)
      → D.read s fd n ≡ some (bytes, s')
      → size P s' q ≡ size P s q
  pub read-count :
      (s s' : P.State) (fd n : ℕ) (bytes : Text)
      → D.read s fd n ≡ some (bytes, s')
      → length bytes ≤ n
  -- Some bytes are written, if there are any to write, from the place on.
  pub write-at :
      (s s' : P.State) (fd off n k : ℕ) (p bytes : Text)
      → at s fd ≡ some (p, off)
      → size P s p ≡ some n
      → 0 < length bytes
      → D.write s fd bytes ≡ some (k, s')
      → (0 < k)
        × (k ≤ length bytes)
        × (at s' fd ≡ some (p, off + k))
        × (size P s' p ≡ some (max n (off + k)))
  pub write-nothing :
      (s s' : P.State) (fd k : ℕ) (q : Text)
      → D.write s fd [] ≡ some (k, s')
      → size P s' q ≡ size P s q
  pub write-other :
      (s s' : P.State) (fd off k : ℕ) (p q bytes : Text)
      → at s fd ≡ some (p, off)
      → q ≢ p
      → D.write s fd bytes ≡ some (k, s')
      → size P s' q ≡ size P s q
  pub lseek-at :
      (s s' : P.State) (fd off n : ℕ) (p : Text)
      → at s fd ≡ some (p, off)
      → D.lseek s fd n ≡ some s'
      → at s' fd ≡ some (p, n)
  pub lseek-size :
      (s s' : P.State) (fd n : ℕ) (q : Text) → D.lseek s fd n ≡ some s' → size P s' q ≡ size P s q
  pub close-size : (s : P.State) (fd : ℕ) (q : Text) → size P (D.close s fd) q ≡ size P s q
