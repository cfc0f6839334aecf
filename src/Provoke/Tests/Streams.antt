-- ===== src/Provoke/Tests/Streams.antt =====
-- copia.c, on a file system in memory with one stream to read from and one to write to.
use mathlib.Core.Option.{some-injective}
use antibawirus.Common.{
  ℕ, ◌≡◌, refl, sym, ap, ◌∙◌, [], ◌++◌, Option, none, some, arith, true, if◌then◌else◌, Bool, false,
  length, take, drop, ◌==◌,
}
use antibawirus.Common.Int.{pos}
use antibawirus.Common.Text.{Text, codes, str_eq, str_eq_refl}
use antibawirus.Patrol.Listing.{Stat}
use antibawirus.Provoke.Posix.{Posix}
use antibawirus.Provoke.Stdio.{Stdio, IsStdio}
use antibawirus.Provoke.Copy.{documento}
use antibawirus.Provoke.Tests.Handles.{blank}

abbrev Contents : Type 0
Contents = Text → Option Text

abbrev store : Contents → Text → Text → Contents
store c p t q = if str_eq p q then some t else c q

get-store : (c : Contents) (p t : Text) → store c p t p ≡ some t
get-store c p t = rw (str_eq_refl p) refl

-- The files, what is left to be read, and the file written with what was written to it.
abbrev Streams : Type 0
Streams = Contents × Text × (Text × Text)

abbrev stat_of : Option Text → Option Stat
stat_of none = none
stat_of (some t) = some (blank (length t))

abbrev streams : Posix
streams = record {
  State = Streams;
  stat = λ s p. stat_of (s.0 p);
  access = λ s p. true;
  chmod = λ s p mode. none;
  chown = λ s p u g. none;
  utime = λ s p times. none;
  rename = λ s old new. none;
  remove = λ s p. none;
  getpwnam = λ s name. none;
  mktime = λ tm. pos 0;
}

abbrev to_read : Streams → Option Text → Option (ℕ × Streams)
to_read s none = none
to_read s (some t) = some (1, (s.0, t, s.2))

abbrev to_write : Streams → Text → Option (ℕ × Streams)
to_write s p = some (2, (store s.0 p [], s.1, (p, [])))

abbrev closed : Streams → Streams
closed s = (store s.0 s.2.0 s.2.1, s.1, s.2)

abbrev stdio : Stdio streams
stdio = record {
  fopen = λ s p mode. if str_eq mode (codes "rb") then to_read s (s.0 p) else to_write s p;
  fread = λ s f n. (take n s.1, (s.0, drop n s.1, s.2));
  fwrite = λ s f t. (true, (s.0, s.1, (s.2.0, s.2.1 ++ t)));
  fclose = λ s f. (true, if f == 1 then s else closed s);
}

abbrev IsWriting : Streams → ℕ → Text → Text → Type 0
IsWriting s f p t = (f ≡ 2) × (s.2.0 ≡ p) × (s.2.1 ≡ t)

kept :
    (s : Streams) (f : ℕ) (p t : Text) (b : Bool)
    → IsWriting s f p t
    → IsWriting (if b then s else closed s) f p t
kept s f p t true h = h
kept s f p t false h = h

stdio-IsStdio : IsStdio streams stdio
unfolding str_eq
stdio-IsStdio = record {
  content = λ s p. s.0 p;
  Reading = λ s f p t. (f ≡ 1) × (s.1 ≡ t);
  Writing = IsWriting;
  fopen-Reading = λ s s' p t f holds done.
      let made = some-injective _ _ (rw holds at done) in
      (ap (λ r. r.0) (sym made), ap (λ r. r.1.1) (sym made));
  fopen-Writing = λ s s' p f done.
      let made = sym (some-injective _ _ done) in
      (ap (λ r. r.0) made, ap (λ r. r.1.2.0) made, ap (λ r. r.1.2.1) made);
  fopen-other = λ s s' p q t f g reading other done.
      let made = sym (some-injective _ _ done) in
      (
        λ same. let h : 1 ≡ 2 = sym reading.0 ∙ same ∙ ap (λ r. r.0) made in omega (arith, h),
        (reading.0, ap (λ r. r.1.1) made ∙ reading.1),
      );
  fread-Reading = λ s f n p t reading. (ap (take n) reading.1, (reading.0, ap (drop n) reading.1));
  fread-Writing = λ s f g n p t writing apart. writing;
  fwrite-Writing =
      λ s f p t more writing good. (writing.0, writing.1, ap (λ r. r ++ more) writing.2);
  fwrite-Reading = λ s f g p t more reading apart. reading;
  fclose-content =
      λ s f p t writing good. rw writing.0 (rw (writing.1, writing.2) (get-store s.0 p t));
  fclose-Writing = λ s f g p t writing apart. kept s g p t (f == 1) writing;
}

abbrev with_document : Streams
with_document = (λ p. if str_eq p documento then some (codes "hola") else none, [], ([], []))
