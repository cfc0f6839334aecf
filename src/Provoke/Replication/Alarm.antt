-- ===== src/Provoke/Replication/Alarm.antt =====
-- Test2_Replication.c and Fronteras.c: the copies, and the alerts that they provoke.
use antibawirus.Common.{ℕ, ◌<◌, ◌≡◌, refl, sym, ap, ◌∙◌, inl, inr, List, Option, some, In, length}
use antibawirus.Common.Text.{Text, is_prefix}
use antibawirus.Patrol.Files.{ArchivoInfo, extension, nombre_sin_extension}
use antibawirus.Patrol.Listing.{Stat, info}
use antibawirus.Patrol.Compare.{copied, anadir_eliminar, is_name}
use antibawirus.Patrol.Compare.Copies.{LooksLike, Missing}
use antibawirus.Patrol.Compare.Counts.{added_iff, new_reported}
use antibawirus.Provoke.Posix.{Posix}
use antibawirus.Provoke.Descriptors.{Descriptors, IsDescriptors, size}
use antibawirus.Provoke.Expansion.Alarm.{size-stat}
use antibawirus.Provoke.Replication.{original, num_copies, dest_path, preparar, main}
use antibawirus.Provoke.Replication.Copies.{AllWritten, main-IsReplicated}

-- A snapshot taken in the state `s` lists the file that the program calls `name`, under that name,
-- at the path that it has for the patrol.
abbrev ListsAt : (P : Posix) → P.State → Text → Text → List ArchivoInfo → Type 0
ListsAt P s name path fs = (st : Stat) → P.stat s name ≡ some st → In (info path name st) fs

-- A copy's name is the original's, up to the extension, with more behind it.
copy-LooksLike :
    (rand : ℕ → ℕ) (j : ℕ) (path path' : Text) (st st' : Stat)
    → st'.st_size ≡ st.st_size
    → LooksLike (info path' (dest_path rand j) st') (info path original st)
unfolding info is_name is_prefix extension nombre_sin_extension dest_path
copy-LooksLike rand j path path' st st' same = (refl, sym same, refl)

pub reported_as_copy :
    (vs ns : List ArchivoInfo) (a b : ℕ) (f v : ArchivoInfo)
    → length vs < length ns
    → a ≡ b
    → In f ns
    → Missing f vs
    → In v vs
    → LooksLike f v
    → (u : ArchivoInfo) × In u vs × LooksLike f u × In (copied f u) (anadir_eliminar vs ns a b)
reported_as_copy vs ns a b f v more same m gone mv like =
    elim (new_reported vs ns a b f more same m gone) [
      | inl h ↦ absurd (((added_iff vs ns a b f).0 h).4 v mv like)
      | inr h ↦ h
    ]

-- On a system whose calls do what is documented: if the original is there, the program gets to its
-- loop, and in this run each of the five copies can be opened and is written in full, then it ends
-- with status 0, the original keeps its size, and each of the copies has that size and is reported
-- by the patrol as a copy, of a file that it looks like. The snapshot taken before lists the
-- original and not the copy, the one taken afterwards lists the copy and has more files, and the
-- number of devices is the same.
pub replication_reported :
    (P : Posix) (D : Descriptors P) (law : IsDescriptors P D) (rand : ℕ → ℕ)
    (malloc : ℕ → Option Text)
    → ((n : ℕ) (block : Text) → malloc n ≡ some block → length block ≡ n)
    → (s t s' : P.State) (buffer : Text) (st : Stat) (path path' : Text) (vs ns : List ArchivoInfo)
      (a b j : ℕ)
    → P.stat s original ≡ some st
    → preparar rand P D malloc s ≡ inr (buffer, t)
    → AllWritten rand P D buffer num_copies 0 t
    → s' ≡ (main rand P D malloc s).1
    → j < num_copies
    → ListsAt P s original path vs
    → ListsAt P s' (dest_path rand j) path' ns
    → ((st' : Stat) → Missing (info path' (dest_path rand j) st') vs)
    → length vs < length ns
    → a ≡ b
    → (main rand P D malloc s ≡ (0, s'))
      × ((st' : Stat) × (P.stat s' (dest_path rand j) ≡ some st')
          × (st'.st_size ≡ st.st_size)
          × (size P s' original ≡ some st.st_size)
          × ((u : ArchivoInfo) × In u vs
              × LooksLike (info path' (dest_path rand j) st') u
              × In (copied (info path' (dest_path rand j) st') u) (anadir_eliminar vs ns a b)))
replication_reported P D law rand malloc block_size s t s' buffer st path path' vs ns a b j here
      ready all ended small before after fresh more same =
    let sz : size P s original ≡ some st.st_size = rw here refl in
    let (u, run, (kept, made)) =
      main-IsReplicated P D law rand malloc block_size st.st_size s t buffer sz ready all in
    let final : u ≡ s' = sym (ended ∙ ap (λ r. r.1) run) in
    let grown : size P s' (dest_path rand j) ≡ some st.st_size =
      ap (λ x. size P x (dest_path rand j)) (sym final) ∙ made j small in
    let (st', here', e) = size-stat (P.stat s' (dest_path rand j)) st.st_size grown in
    (
      run ∙ ap (λ x. (0, x)) final,
      (
        st',
        here',
        e,
        ap (λ x. size P x original) (sym final) ∙ kept,
        reported_as_copy vs ns a b (info path' (dest_path rand j) st') (info path original st) more
            same (after st' here') (fresh st') (before st here)
            (copy-LooksLike rand j path path' st st' e),
      ),
    )
