-- ===== src/Patrol/Rounds/Silence.antt =====
-- Fronteras.c, `main`: rounds in which nothing changes.
use antibawirus.Common.{
  ℕ, suc, ◌≡◌, refl, inl, inr, true, List, [], ◌∷◌, ◌++◌, Option, some, none, In, Bool-cases,
  Option-cases,
}
use antibawirus.Common.Text.{Text, str_eq, str_eq_refl}
use antibawirus.Common.Exec.{Exec, ok, crash, exhausted, ◌>>=◌}
use antibawirus.Patrol.Files.{ArchivoInfo}
use antibawirus.Patrol.Compare.Changes.{ExtensionChanged}
use antibawirus.Patrol.Compare.Quiet.{Unique, unchanged_quiet, extension_permisos-unchanged_iff}
use antibawirus.Patrol.Devices.{
  World, Notice, Tabla, listed, desconectado, conectado, obtener, actuales_de, alerta, ensenar,
}
use antibawirus.Patrol.Devices.Counting.{HasNodes, mounted_count, alerta-count}
use antibawirus.Patrol.Devices.Snapshot.{Agrees, files_of, empty_table, ensenar-Agrees}
use antibawirus.Patrol.Rounds.{Estado, emitir, comparar, ronda}

listed-In : (path : Text) (ps : List Text) → In path ps → listed path ps ≡ true
unfolding listed
listed-In path [] m = absurd m
listed-In path (p ∷ ps) (inl e) = rw (← e, str_eq_refl path) refl
listed-In path (p ∷ ps) (inr m) = elim (Bool-cases (str_eq path p)) [
  | inl e ↦ rw e refl
  | inr e ↦ rw e (listed-In path ps m)
]

desconectado-none : (ps qs : List Text) → ((p : Text) → In p ps → In p qs) → desconectado ps qs ≡ []
unfolding desconectado
desconectado-none [] qs h = refl
desconectado-none (p ∷ ps) qs h =
    rw (listed-In p qs (h p (inl refl))) (desconectado-none ps qs (λ q m. h q (inr m)))

conectado-none : (w : World) (path : Text) (ps : List Text) → In path ps → conectado w path ps ≡ []
unfolding conectado
conectado-none w path ps m = rw (listed-In path ps m) refl

abbrev Silent : Exec (List Notice × ℕ) → Type 0
Silent (ok r) = r.0 ≡ []
Silent crash = Unit
Silent exhausted = Unit

bound-Silent :
    (m : Exec (Option Text)) (more : Exec (List Notice × ℕ)) (here : List Notice)
    → here ≡ []
    → Silent more
    → Silent
        (m >>= λ mnt. more >>= λ r. ok (elim mnt [ none ↦ r | some _ ↦ (here ++ r.0, suc r.1) ]))
bound-Silent (ok none) (ok r) here e s = s
bound-Silent (ok (some _)) (ok r) here e s = rw (e, s) refl
bound-Silent (ok none) crash here e s = tt
bound-Silent (ok (some _)) crash here e s = tt
bound-Silent (ok none) exhausted here e s = tt
bound-Silent (ok (some _)) exhausted here e s = tt
bound-Silent crash more here e s = tt
bound-Silent exhausted more here e s = tt

actuales_de-Silent :
    (w : World) (ant lista : List Text)
    → ((p : Text) → In p lista → In p ant)
    → Silent (actuales_de w ant lista)
unfolding actuales_de
actuales_de-Silent w ant [] h = refl
actuales_de-Silent w ant (path ∷ rest) h =
    let later = actuales_de-Silent w ant rest (λ p m. h p (inr m)) in
    elim (Option-cases (w.device path)) [
      | inl e ↦ rw (e, actuales_de) later
      | inr (dev, e) ↦
          rw (e, actuales_de)
            (bound-Silent (obtener w.mtab dev.devnode) (actuales_de w ant rest)
              (conectado w path ant) (conectado-none w path ant (h path (inl refl))) later)
    ]

-- `alerta` prints nothing when the list of devices is what it was.
alerta-Silent : (w : World) (lista : List Text) → Silent (alerta w lista lista)
unfolding alerta
alerta-Silent w lista =
    shown (actuales_de w lista lista) (actuales_de-Silent w lista lista (λ p m. m))
  where
    shown :
        (r : Exec (List Notice × ℕ))
        → Silent r
        → Silent (r >>= λ r. ok (desconectado lista lista ++ r.0, r.1))
    shown (ok r) s = rw (desconectado-none lista lista (λ p m. m), s) refl
    shown crash s = tt
    shown exhausted s = tt

table_of :
    (r : Exec Tabla) (fs : List ArchivoInfo)
    → Agrees empty_table r (ok fs)
    → (t : Tabla) × (r ≡ ok t) × (t.archivos ≡ fs)
table_of (ok t) fs (v, e) = (t, refl, e)
table_of crash fs h = absurd h
table_of exhausted fs h = absurd h

comparar-nil :
    (s : List ArchivoInfo) (a b : ℕ)
    → Unique s
    → ((v n : ArchivoInfo) → In v s → In n s → ¬ ExtensionChanged v n)
    → comparar s s a b ≡ []
unfolding comparar
comparar-nil s a b u h =
    let (grew, times, counts) = unchanged_quiet s a b u in
    rw (grew, times, counts, (extension_permisos-unchanged_iff s u).1 h) refl

emitir-nil : (popen : Text → Option Text) → emitir popen [] ≡ ok []
unfolding emitir
emitir-nil popen = refl

-- If the devices listed and their files are those of the round before, every device has a node,
-- the files are told apart by name, extension and path, and no two have the same name and size and
-- different extensions, then a round succeeds, prints nothing, and keeps the same devices and
-- files.
pub ronda-silent :
    (popen : Text → Option Text) (fuel : ℕ) (w : World) (e : Estado)
    → e.lista_dispositivos ≡ w.usb
    → files_of w fuel w.usb ≡ ok e.lista_archivos
    → HasNodes w w.usb
    → Unique e.lista_archivos
    → ((v n : ArchivoInfo) → In v e.lista_archivos → In n e.lista_archivos → ¬ ExtensionChanged v n)
    → ronda popen fuel w e ≡ ok ([], record e { viejos = mounted_count w w.usb })
unfolding ronda
ronda-silent popen fuel w e same files nodes u twins =
    let (ns, seen) = alerta-count w w.usb w.usb nodes in
    let quiet : ns ≡ [] = rw seen at (alerta-Silent w w.usb) in
    let (t, table, kept) =
      table_of (ensenar w fuel w.usb) e.lista_archivos
        (rw files at (ensenar-Agrees w fuel w.usb)) in
    rw
      (
        same,
        seen,
        table,
        kept,
        comparar-nil e.lista_archivos e.viejos (mounted_count w w.usb) u twins,
        emitir-nil popen,
        quiet,
      )
      refl
