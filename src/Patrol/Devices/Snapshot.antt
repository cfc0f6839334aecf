-- ===== src/Patrol/Devices/Snapshot.antt =====
-- Fronteras.c, `ensenar`: the growing array, and the files that it is to hold.
use mathlib.Core.List.{append_assoc, append-nil}
use antibawirus.Common.{
  ℕ, ◌+◌, ◌≤◌, ◌≡◌, refl, sym, ◌∙◌, List, [], ◌∷◌, ◌++◌, Option, none, some, arith, length,
  length-append,
}
use antibawirus.Common.Text.{Text}
use antibawirus.Common.Exec.{Exec, ok, crash, exhausted, ◌>>=◌}
use antibawirus.Patrol.Files.{ArchivoInfo}
use antibawirus.Patrol.Listing.{listar_archivos}
use antibawirus.Patrol.Devices.{
  World, Device, Tabla, obtener, reservar, copiar, con_montaje, con_nodo, con_dispositivo,
  ensenar_uno, ensenar_from, ensenar,
}

-- `total` counts the files, and they fit.
pub record Fits (t : Tabla) : Type 0 where
  pub counted : length t.archivos ≡ t.total
  pub within : t.total ≤ t.capacidad

copiar_lem :
    (fs : List ArchivoInfo) (t : Tabla)
    → let r = copiar fs t in
      (r.archivos ≡ t.archivos ++ fs)
      × (r.capacidad ≡ t.capacidad)
      × (r.total ≡ t.total + length fs)
unfolding copiar
copiar_lem [] t = (sym (append-nil t.archivos), refl, omega arith)
copiar_lem (f ∷ fs) t =
    let (a, b, c) =
      copiar_lem fs (record t { archivos = t.archivos ++ f ∷ []; total = t.total + 1 }) in
    (a ∙ append_assoc t.archivos (f ∷ []) fs, b, omega arith)

store_lem :
    (fs : List ArchivoInfo) (t : Tabla)
    → Fits t
    → let r = copiar fs (reservar (length fs) t) in Fits r × (r.archivos ≡ t.archivos ++ fs)
unfolding reservar
store_lem fs t v =
    ground (arith, copiar_lem fs (reservar (length fs) t), length-append t.archivos fs)

-- The files of the device behind a `syspath`: none unless it has a node that is mounted.
abbrev mounted_files : World → ℕ → Option Text → Exec (List ArchivoInfo)
mounted_files w fuel none = ok []
mounted_files w fuel (some punto) = listar_archivos w.disk fuel punto []

abbrev node_files : World → ℕ → Option Text → Exec (List ArchivoInfo)
node_files w fuel none = ok []
node_files w fuel (some nodo) = obtener w.mtab (some nodo) >>= mounted_files w fuel

abbrev device_files : World → ℕ → Option Device → Exec (List ArchivoInfo)
device_files w fuel none = ok []
device_files w fuel (some d) = node_files w fuel d.devnode

-- The files of several, in order.
abbrev pub files_of : World → ℕ → List Text → Exec (List ArchivoInfo)
files_of w fuel [] = ok []
files_of w fuel (ruta ∷ rest) = device_files w fuel (w.device ruta) >>= λ here.
    files_of w fuel rest >>= λ more. ok (here ++ more)

-- The table after `t` and the files that were to be copied: both, or the same failure.
abbrev pub Agrees : Tabla → Exec Tabla → Exec (List ArchivoInfo) → Type 0
Agrees t (ok r) (ok fs) = Fits r × (r.archivos ≡ t.archivos ++ fs)
Agrees t crash crash = Unit
Agrees t exhausted exhausted = Unit
Agrees t r fs = ⊥

abbrev pub empty_table : Tabla
empty_table = record { archivos = []; capacidad = 100; total = 0 }

module _ (w : World) (fuel : ℕ) where
  copied-Agrees :
      (t : Tabla) (r : Exec (List ArchivoInfo))
      → Fits t
      → Agrees t (r >>= λ fs. ok (copiar fs (reservar (length fs) t))) r
  copied-Agrees t (ok fs) v = store_lem fs t v
  copied-Agrees t crash v = tt
  copied-Agrees t exhausted v = tt

  nothing-Agrees : (t : Tabla) → Fits t → Agrees t (ok t) (ok [])
  nothing-Agrees t v = (v, sym (append-nil t.archivos))

  con_montaje-Agrees :
      (t : Tabla) (m : Option Text)
      → Fits t
      → Agrees t (con_montaje w fuel t m) (mounted_files w fuel m)
  con_montaje-Agrees t none v = nothing-Agrees t v
  con_montaje-Agrees t (some punto) v = copied-Agrees t (listar_archivos w.disk fuel punto []) v

  bound-Agrees :
      (t : Tabla) (m : Exec (Option Text))
      → Fits t
      → Agrees t (m >>= con_montaje w fuel t) (m >>= mounted_files w fuel)
  bound-Agrees t (ok m) v = con_montaje-Agrees t m v
  bound-Agrees t crash v = tt
  bound-Agrees t exhausted v = tt

  con_nodo-Agrees :
      (t : Tabla) (n : Option Text) → Fits t → Agrees t (con_nodo w fuel t n) (node_files w fuel n)
  con_nodo-Agrees t none v = nothing-Agrees t v
  con_nodo-Agrees t (some nodo) v = bound-Agrees t (obtener w.mtab (some nodo)) v

  con_dispositivo-Agrees :
      (t : Tabla) (d : Option Device)
      → Fits t
      → Agrees t (con_dispositivo w fuel t d) (device_files w fuel d)
  con_dispositivo-Agrees t none v = nothing-Agrees t v
  con_dispositivo-Agrees t (some d) v = con_nodo-Agrees t d.devnode v

  -- What follows one device is appended to what it gave.
  later-Agrees :
      (t t' : Tabla) (here : List ArchivoInfo) (r : Exec Tabla) (fs : Exec (List ArchivoInfo))
      → t'.archivos ≡ t.archivos ++ here
      → Agrees t' r fs
      → Agrees t r (fs >>= λ more. ok (here ++ more))
  later-Agrees t t' here (ok r) (ok fs) e (v, a) = (v, rw (a, e) (append_assoc t.archivos here fs))
  later-Agrees t t' here crash crash e a = tt
  later-Agrees t t' here exhausted exhausted e a = tt
  later-Agrees t t' here (ok r) crash e a = a
  later-Agrees t t' here (ok r) exhausted e a = a
  later-Agrees t t' here crash (ok fs) e a = a
  later-Agrees t t' here crash exhausted e a = a
  later-Agrees t t' here exhausted (ok fs) e a = a
  later-Agrees t t' here exhausted crash e a = a

  step-Agrees :
      (t : Tabla) (r : Exec Tabla) (fs : Exec (List ArchivoInfo)) (rest : List Text)
      → Agrees t r fs
      → ((t' : Tabla) → Fits t' → Agrees t' (ensenar_from w fuel rest t') (files_of w fuel rest))
      → Agrees t
          (r >>= ensenar_from w fuel rest)
          (fs >>= λ here. files_of w fuel rest >>= λ more. ok (here ++ more))
  step-Agrees t (ok t') (ok here) rest (v, e) ih =
      later-Agrees t t' here (ensenar_from w fuel rest t') (files_of w fuel rest) e (ih t' v)
  step-Agrees t crash crash rest a ih = tt
  step-Agrees t exhausted exhausted rest a ih = tt
  step-Agrees t (ok r) crash rest a ih = absurd a
  step-Agrees t (ok r) exhausted rest a ih = absurd a
  step-Agrees t crash (ok fs) rest a ih = absurd a
  step-Agrees t crash exhausted rest a ih = absurd a
  step-Agrees t exhausted (ok fs) rest a ih = absurd a
  step-Agrees t exhausted crash rest a ih = absurd a

  ensenar_from-Agrees :
      (lista : List Text) (t : Tabla)
      → Fits t
      → Agrees t (ensenar_from w fuel lista t) (files_of w fuel lista)
  unfolding ensenar_from ensenar_uno
  ensenar_from-Agrees [] t v = nothing-Agrees t v
  ensenar_from-Agrees (ruta ∷ rest) t v =
      step-Agrees t (con_dispositivo w fuel t (w.device ruta)) (device_files w fuel (w.device ruta))
        rest (con_dispositivo-Agrees t (w.device ruta) v) (ensenar_from-Agrees rest)

  -- The snapshot holds the files of the listed devices that have a node and are mounted, in order,
  -- and nothing else, and its count is right and within the capacity. If a look-up or a listing
  -- fails, the snapshot fails alike.
  pub ensenar-Agrees :
      (lista : List Text) → Agrees empty_table (ensenar w fuel lista) (files_of w fuel lista)
  unfolding ensenar
  ensenar-Agrees lista =
      ensenar_from-Agrees lista empty_table (record { counted = refl; within = omega arith })
