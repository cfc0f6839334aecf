-- ===== src/Patrol/Tests.antt =====
-- The comparisons of Fronteras.c at concrete snapshots.
mod System
use antibawirus.Common.{
  ℕ, ◌<◌, ◌≡◌, refl, sym, ◌∙◌, ◌⊎◌, ◌↔◌, inl, inr, false, [], ◌∷◌, ◌++◌, In, length, ◌+◌, arith,
}
use antibawirus.Common.Int.{pos, ◌-ℤ◌}
use antibawirus.Common.Text.{Text, codes, str_eq}
use antibawirus.Patrol.Files.{ArchivoInfo, extension, nombre_sin_extension, mismo_archivo}
use antibawirus.Patrol.Files.Laws.{NoDot, split_name, SameFile, mismo_archivo_iff}
use antibawirus.Patrol.Compare.{
  grown, extension_changed, copied, removed, added, tamano, extension_permisos, anadir_eliminar,
}
use antibawirus.Patrol.Compare.Changes.{Grew, ExtensionChanged, tamano_iff}
use antibawirus.Patrol.Compare.Copies.{Missing, LooksLike}
use antibawirus.Patrol.Compare.Counts.{removed_iff, added_iff}
use antibawirus.Patrol.Compare.Losses.{loss_reported}
use antibawirus.Patrol.Compare.Quiet.{Unique, extension_permisos-unchanged_iff}

abbrev pub archivo : Text → Text → Text → ℕ → ArchivoInfo
archivo ruta nombre ext tam = record {
  ruta_completa = ruta;
  nombre = nombre;
  extension = ext;
  tamano = tam;
  permisos = 0o100644;
  ultima_modificacion = pos 7;
  owner_uid = 1000;
  group_gid = 1000;
}

abbrev pub nota : ArchivoInfo
nota = archivo (codes "/u/nota.txt") (codes "nota") (codes "txt") 100

abbrev nota_grande : ArchivoInfo
nota_grande = record nota { tamano = 10485860 }

-- The name and size of `nota`, under another extension.
abbrev nota_pdf : ArchivoInfo
nota_pdf = archivo (codes "/u/nota.pdf") (codes "nota") (codes "pdf") 100

abbrev nota_copia : ArchivoInfo
nota_copia = archivo (codes "/u/nota(1).txt") (codes "nota(1)") (codes "txt") 100

pub apart : (f g : ArchivoInfo) → mismo_archivo f g ≡ false → ¬ SameFile f g
apart f g e s = cc (e, (mismo_archivo_iff f g).1 s)

Missing-one : (f g : ArchivoInfo) → mismo_archivo f g ≡ false → Missing f (g ∷ [])
Missing-one f g e h (inl q) s = cc (e, q, (mismo_archivo_iff f h).1 s)
Missing-one f g e h (inr z) s = elim z [ ]

Unique-two :
    (f g : ArchivoInfo)
    → mismo_archivo f g ≡ false
    → mismo_archivo g f ≡ false
    → Unique (f ∷ g ∷ [])
Unique-two f g e d v n (inl p) (inl q) s = p ∙ sym q
Unique-two f g e d v n (inl p) (inr (inl q)) s = elim (apart f g e (rw (p, q) at s)) [ ]
Unique-two f g e d v n (inr (inl p)) (inl q) s = elim (apart g f d (rw (p, q) at s)) [ ]
Unique-two f g e d v n (inr (inl p)) (inr (inl q)) s = p ∙ sym q
Unique-two f g e d v n (inr (inr z)) m s = elim z [ ]
Unique-two f g e d v n (inl p) (inr (inr z)) s = elim z [ ]
Unique-two f g e d v n (inr (inl p)) (inr (inr z)) s = elim z [ ]

split_name_example :
    ((nombre_sin_extension (codes "a.b.gz") ≡ codes "a.b.gz")
      × (extension (codes "a.b.gz") ≡ [])
      × NoDot (codes "a.b.gz"))
    ⊎ ((nombre_sin_extension (codes "a.b.gz") ++ b'.' ∷ extension (codes "a.b.gz") ≡ codes "a.b.gz")
        × NoDot (extension (codes "a.b.gz")))
    ⊎ ((rest : Text) × (codes "a.b.gz" ≡ b'.' ∷ rest)
        × NoDot rest
        × (nombre_sin_extension (codes "a.b.gz") ≡ [])
        × (extension (codes "a.b.gz") ≡ []))
split_name_example = split_name (codes "a.b.gz")

split_name_last :
    (nombre_sin_extension (codes "a.b.gz") ≡ codes "a.b")
    × (extension (codes "a.b.gz") ≡ codes "gz")
unfolding nombre_sin_extension extension
split_name_last = (refl, refl)

tamano_iff_example :
    In (grown nota_grande (pos 10485760)) (tamano (nota ∷ []) (nota_grande ∷ [])) ↔ (
      (v : ArchivoInfo) × In v (nota ∷ [])
      × In nota_grande (nota_grande ∷ [])
      × Grew v nota_grande
      × (pos 10485760 ≡ pos nota_grande.tamano -ℤ pos v.tamano))
tamano_iff_example = tamano_iff (nota ∷ []) (nota_grande ∷ []) nota_grande (pos 10485760)

tamano_limit : tamano (nota ∷ []) (nota_grande ∷ []) ≡ grown nota_grande (pos 10485760) ∷ []
unfolding tamano mismo_archivo str_eq ◌-ℤ◌
tamano_limit = refl

removed_iff_example :
    In (removed nota_pdf) (anadir_eliminar (nota ∷ nota_pdf ∷ []) (nota ∷ []) 1 1) ↔ (
      (length (nota ∷ []) < length (nota ∷ nota_pdf ∷ []))
      × (◌≡◌ {A = ℕ} 1 1)
      × In nota_pdf (nota ∷ nota_pdf ∷ [])
      × Missing nota_pdf (nota ∷ []))
removed_iff_example = removed_iff (nota ∷ nota_pdf ∷ []) (nota ∷ []) 1 1 nota_pdf

added_iff_example : In (added nota_pdf) (anadir_eliminar (nota ∷ []) (nota ∷ nota_pdf ∷ []) 1 1) ↔ (
    (length (nota ∷ []) < length (nota ∷ nota_pdf ∷ []))
    × (◌≡◌ {A = ℕ} 1 1)
    × In nota_pdf (nota ∷ nota_pdf ∷ [])
    × Missing nota_pdf (nota ∷ [])
    × ((v : ArchivoInfo) → In v (nota ∷ []) → ¬ LooksLike nota_pdf v))
added_iff_example = added_iff (nota ∷ []) (nota ∷ nota_pdf ∷ []) 1 1 nota_pdf

anadir_copia :
    anadir_eliminar (nota ∷ []) (nota ∷ nota_copia ∷ []) 1 1 ≡ copied nota_copia nota ∷ []
unfolding anadir_eliminar mismo_archivo str_eq antibawirus.Common.Text.is_prefix
anadir_copia = refl

loss_reported_example :
    (v : ArchivoInfo) × In v (nota ∷ nota_pdf ∷ [])
    × Missing v (nota ∷ [])
    × In (removed v) (anadir_eliminar (nota ∷ nota_pdf ∷ []) (nota ∷ []) 1 1)
unfolding mismo_archivo str_eq
loss_reported_example =
    loss_reported (nota ∷ nota_pdf ∷ []) (nota ∷ []) 1 1 (omega arith) refl
      (Missing-one nota nota_pdf refl, (λ g z s. elim z [ ], tt))

extension_permisos-unchanged_iff_example :
    (extension_permisos (nota ∷ nota_pdf ∷ []) (nota ∷ nota_pdf ∷ []) ≡ []) ↔ (
      (v n : ArchivoInfo)
      → In v (nota ∷ nota_pdf ∷ [])
      → In n (nota ∷ nota_pdf ∷ [])
      → ¬ ExtensionChanged v n)
unfolding mismo_archivo str_eq
extension_permisos-unchanged_iff_example =
    extension_permisos-unchanged_iff (nota ∷ nota_pdf ∷ []) (Unique-two nota nota_pdf refl refl)

-- Two files that nobody touched.
extension_permisos_twins :
    extension_permisos (nota ∷ nota_pdf ∷ []) (nota ∷ nota_pdf ∷ [])
    ≡ extension_changed nota nota_pdf ∷ extension_changed nota_pdf nota ∷ []
unfolding extension_permisos str_eq mismo_archivo
extension_permisos_twins = refl
