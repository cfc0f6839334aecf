-- ===== src/Patrol/Audit/Fields.antt =====
-- How the values of a line of the audit log are read.
use antibawirus.Common.{ℕ, ◌≤◌, ◌≡◌, refl, ap, ◌∷◌, ◌++◌, none, some, arith, length}
use antibawirus.Common.Text.{Text, codes, strstr, is_prefix}
use antibawirus.Common.Text.Scan.{scan_word}
use antibawirus.Common.Text.Scan.Laws.{IsWord, scan_word-word, drop-append}
use antibawirus.Common.Text.Search.{Without, strstr-separated, strstr_self}
use antibawirus.Patrol.Audit.{Registro, campo, guardado, extraer}

-- A word behind a key, in a line where the key does not stand earlier and a space comes before it.
campo-word :
    (n a : ℕ) (key pre word rest : Text)
    → Without 32 (a ∷ key)
    → strstr pre (a ∷ key) ≡ none
    → IsWord word
    → length word ≤ n
    → campo (scan_word n) (a ∷ key) (pre ++ 32 ∷ (a ∷ key ++ (word ++ 32 ∷ rest))) ≡ some word
unfolding campo
campo-word n a key pre word rest w e iw le =
    rw
      (
        strstr-separated a key pre (a ∷ key ++ (word ++ 32 ∷ rest)) 32 w e,
        campo,
        strstr_self a key (word ++ 32 ∷ rest),
        drop-append (a ∷ key) (word ++ 32 ∷ rest),
        scan_word-word n word rest iw le,
      )
      refl

-- A line with a key and a word between spaces.
abbrev pub with_field : Text → Text → Text → Text → Text
with_field pre key word rest = pre ++ 32 ∷ (key ++ (word ++ 32 ∷ rest))

-- In a line where a space and `ppid=` or `tty=` come before a word that fits the buffer, followed
-- by a space, and the key does not stand earlier, that word is what the buffer holds afterwards.
pub extraer_words :
    (r : Registro) (pre word rest : Text)
    → IsWord word
    → length word ≤ 31
    → strstr pre (codes "ppid=") ≡ none
    → strstr pre (codes "tty=") ≡ none
    → ((extraer r (with_field pre (codes "ppid=") word rest)).ppid ≡ word)
      × ((extraer r (with_field pre (codes "tty=") word rest)).tty ≡ word)
unfolding extraer
extraer_words r pre word rest iw le ep et = (
  ap (λ o. guardado o r.ppid)
      (campo-word 31 b'p' (codes "pid=") pre word rest (refl, (refl, (refl, (refl, (refl, tt))))) ep
        iw le),
  ap (λ o. guardado o r.tty)
      (campo-word 63 b't' (codes "ty=") pre word rest (refl, (refl, (refl, (refl, tt)))) et iw
        (omega arith)),
)

-- `uid=` is the end of `auid=`.
skip_a : (s : Text) → strstr (codes "auid=" ++ s) (codes "uid=") ≡ some (codes "uid=" ++ s)
unfolding strstr is_prefix
skip_a s = refl

campo-auid :
    (pre word rest : Text)
    → strstr pre (codes "uid=") ≡ none
    → IsWord word
    → length word ≤ 31
    → campo (scan_word 31) (codes "uid=") (with_field pre (codes "auid=") word rest) ≡ some word
unfolding campo
campo-auid pre word rest e iw le =
    rw
      (
        strstr-separated b'u' (codes "id=") pre (codes "auid=" ++ (word ++ 32 ∷ rest)) 32
            (refl, (refl, (refl, (refl, tt)))) e,
        campo,
        skip_a (word ++ 32 ∷ rest),
        scan_word-word 31 word rest iw le,
      )
      refl

-- In a line where ` auid=` comes before any `uid=`,
-- the buffer `uid` receives the word behind `auid=`, whatever user the rest of the line names.
pub extraer_auid :
    (r : Registro) (pre word rest : Text)
    → IsWord word
    → length word ≤ 31
    → strstr pre (codes "uid=") ≡ none
    → (extraer r (with_field pre (codes "auid=") word rest)).uid ≡ word
unfolding extraer
extraer_auid r pre word rest iw le e = ap (λ o. guardado o r.uid) (campo-auid pre word rest e iw le)
