-- ===== src/Patrol/Listing/Limit.antt =====
-- Fronteras.c, `listar_archivos`: the listing ends on every disk.
use antibawirus.Common.{
  ℕ, zero, suc, ◌≤◌, ◌<◌, ◌≡◌, refl, inl, inr, List, [], ◌∷◌, none, arith, Bool-cases, Option-cases,
  ◌++◌,
}
use antibawirus.Common.Text.{Text}
use antibawirus.Common.Exec.{Exec, ok}
use antibawirus.Patrol.Listing.{
  Disk, nested, is_dir, is_dots, fullpath, info, Lista, entry, entries, listar_archivos,
}

abbrev pub Returns : Exec Lista → Type 0
Returns r = (lista : Lista) × (r ≡ ok lista)

module _ (disk : Disk) (go : Text → Lista → Exec Lista)
    (below : (path : Text) (lista : Lista) → Returns (go path lista)) where
  entry-Returns : (path name : Text) (lista : Lista) → Returns (entry disk go path name lista)
  unfolding entry
  entry-Returns path name lista = elim (Bool-cases (is_dots name)) [
    | inl d ↦ (lista, rw (entry, d) refl)
    | inr d ↦ elim (Option-cases (disk.stat (fullpath path name))) [
      | inl e ↦ (lista, rw (entry, d, e) refl)
      | inr (st, e) ↦
          let lista' = lista ++ info (fullpath path name) name st ∷ [] in
          elim (Bool-cases (is_dir st.st_mode)) [
            | inl f ↦
                let (listed, ran) = below (fullpath path name) lista' in
                (listed, rw (entry, d, e, f) ran)
            | inr f ↦ (lista', rw (entry, d, e, f) refl)
          ]
    ]
  ]

  entries-Returns :
      (path : Text) (names : List Text) (lista : Lista) → Returns (entries disk go path names lista)
  unfolding entries
  entries-Returns path [] lista = (lista, refl)
  entries-Returns path (name ∷ names) lista =
      let (here, ran) = entry-Returns path name lista in
      let (all, ran') = entries-Returns path names here in (all, rw (entries, ran) ran')

-- If no directory can be opened while `limit` or more are open, then the listing of any directory
-- ends, whatever the disk holds, directories that seem to hold themselves included, and any fuel
-- above the limit is enough.
pub listar_archivos-Returns :
    (disk : Disk) (limit fuel : ℕ) (path : Text) (lista : Lista)
    → ((n : ℕ) (p : Text) → limit ≤ n → disk.opendir n p ≡ none)
    → limit < fuel
    → Returns (listar_archivos disk fuel path lista)
unfolding listar_archivos
listar_archivos-Returns disk limit zero path lista closed h = absurd (omega (arith, h))
listar_archivos-Returns disk zero (suc fuel) path lista closed h =
    (lista, rw (listar_archivos, closed 0 path (omega arith)) refl)
listar_archivos-Returns disk (suc limit) (suc fuel) path lista closed h =
    elim (Option-cases (disk.opendir 0 path)) [
      | inl e ↦ (lista, rw (listar_archivos, e) refl)
      | inr (names, e) ↦
          let (all, ran) =
            entries-Returns disk (listar_archivos (nested disk) fuel)
              (λ p l.
                listar_archivos-Returns (nested disk) limit fuel p l
                  (λ n q m. closed (suc n) q (omega (arith, m))) (omega (arith, h)))
              path names lista in
          (all, rw (listar_archivos, e) ran)
    ]
