-- ===== src/Patrol/Devices/Counting.antt =====
-- Fronteras.c: the two counts of devices, `contar_dispositivos` and that of `alerta`.
use antibawirus.Common.{
  ℕ, suc, ◌<◌, ◌≡◌, refl, sym, ap, ◌∙◌, inl, inr, Bool, true, false, List, [], ◌∷◌, ◌++◌, Option,
  none, some, arith, if◌then◌else◌, In, Bool-cases, Option-cases,
}
use antibawirus.Common.Text.{Text, codes, str_eq, str_eq_iff, is_prefix}
use antibawirus.Common.Exec.{Exec, ok}
use antibawirus.Patrol.Files.{ArchivoInfo}
use antibawirus.Patrol.Compare.{anadir_eliminar}
use antibawirus.Patrol.Compare.Counts.{anadir_eliminar-devices_changed}
use antibawirus.Patrol.Devices.{
  World, Mount, Device, Notice, search_mounts, obtener, contar_dispositivos, conectado,
  desconectado, actuales_de, alerta,
}

-- The mounts of a table, none if it cannot be opened.
abbrev pub mounts_of : Option (List Mount) → List Mount
mounts_of none = []
mounts_of (some mounts) = mounts

-- Whether a device node is among the mounts.
unfoldable pub mounted : List Mount → Text → Bool
mounted [] d = false
mounted (m ∷ rest) d = if str_eq m.mnt_fsname d then true else mounted rest d

-- The first directory, if there is one.
search-mounted :
    (d : Text) (ms : List Mount)
    → (r : Option Text) × (search_mounts (some d) ms ≡ ok r)
      × ((mounted ms d ≡ false) → r ≡ none)
      × ((mounted ms d ≡ true) → (dir : Text) × (r ≡ some dir))
unfolding search_mounts mounted
search-mounted d [] = (none, refl, λ _. refl, λ h. cc)
search-mounted d (m ∷ ms) = elim (Bool-cases (str_eq m.mnt_fsname d)) [
  | inl e ↦ rw e (some m.mnt_dir, refl, λ h. cc, λ _. (m.mnt_dir, refl))
  | inr e ↦ rw e (search-mounted d ms)
]

-- Whether a listed device has a node that is mounted.
abbrev pub node_mounted : World → Option Text → Bool
node_mounted w none = false
node_mounted w (some d) = mounted (mounts_of w.mtab) d

abbrev pub device_mounted : World → Option Device → Bool
device_mounted w none = false
device_mounted w (some dev) = node_mounted w dev.devnode

-- How many are.
unfoldable pub mounted_count : World → List Text → ℕ
mounted_count w [] = 0
mounted_count w (path ∷ rest) =
    let others = mounted_count w rest in
    if device_mounted w (w.device path) then suc others else others

-- Every device that udev finds behind a listed path has a node.
abbrev pub HasNodes : World → List Text → Type 0
HasNodes w lista =
    (path : Text) (dev : Device)
    → In path lista
    → w.device path ≡ some dev
    → (d : Text) × (dev.devnode ≡ some d)

obtener-mounted :
    (w : World) (d : Text)
    → (r : Option Text) × (obtener w.mtab (some d) ≡ ok r)
      × ((mounted (mounts_of w.mtab) d ≡ false) → r ≡ none)
      × ((mounted (mounts_of w.mtab) d ≡ true) → (dir : Text) × (r ≡ some dir))
unfolding obtener mounted
obtener-mounted w d = elim (Option-cases w.mtab) [
  | inl e ↦ rw (e, obtener) (none, refl, λ _. refl, λ h. cc)
  | inr (ms, e) ↦ rw (e, obtener) (search-mounted d ms)
]

abbrev starts_sys : Text → Bool
starts_sys t = is_prefix (codes "/sys/") t

not_mounted :
    (ms : List Mount) (path : Text)
    → starts_sys path ≡ true
    → ((m : Mount) → In m ms → starts_sys m.mnt_fsname ≡ false)
    → mounted ms path ≡ false
unfolding mounted
not_mounted [] path h k = refl
not_mounted (m ∷ ms) path h k = elim (Bool-cases (str_eq m.mnt_fsname path)) [
  | inl e ↦
      let same = (str_eq_iff m.mnt_fsname path).0 e in cc (k m (inl refl), ap starts_sys same, h)
  | inr e ↦ rw e (not_mounted ms path h (λ n i. k n (inr i)))
]

-- When the paths of the devices lie under /sys and no source of a mount does, `contar_dispositivos`
-- counts 0, however many devices are mounted.
pub contar_dispositivos-zero :
    (w : World) (lista : List Text)
    → ((path : Text) → In path lista → is_prefix (codes "/sys/") path ≡ true)
    → ((m : Mount) → In m (mounts_of w.mtab) → is_prefix (codes "/sys/") m.mnt_fsname ≡ false)
    → contar_dispositivos w lista ≡ ok 0
unfolding contar_dispositivos
contar_dispositivos-zero w [] hp hm = refl
contar_dispositivos-zero w (path ∷ rest) hp hm =
    let (r, e, absent, _) = obtener-mounted w path in
    let nothing : r ≡ none = absent (not_mounted (mounts_of w.mtab) path (hp path (inl refl)) hm) in
    rw (e, nothing, contar_dispositivos-zero w rest (λ p i. hp p (inr i)) hm) refl

-- What the loop over the current devices returns.
actuales_de-count :
    (w : World) (lista_anterior lista : List Text)
    → HasNodes w lista
    → (ns : List Notice) × (actuales_de w lista_anterior lista ≡ ok (ns, mounted_count w lista))
unfolding actuales_de mounted_count
actuales_de-count w ant [] h = ([], refl)
actuales_de-count w ant (path ∷ rest) h =
    let (ns, ih) = actuales_de-count w ant rest (λ p d i. h p d (inr i)) in
    elim (Option-cases (w.device path)) [
      | inl e ↦ rw (e, actuales_de, ih) (ns, refl)
      | inr (dev, e) ↦
          let (d, node) = h path dev (inl refl) e in
          let (r, found, absent, present) = obtener-mounted w d in
          elim (Bool-cases (mounted (mounts_of w.mtab) d)) [
            | inl t ↦
                let (dir, s) = present t in
                (conectado w path ant ++ ns, rw (e, node, actuales_de, found, s, ih, t) refl)
            | inr t ↦ (ns, rw (e, node, actuales_de, found, absent t, ih, t) refl)
          ]
    ]

-- When each device that udev finds has a node, `alerta` does not crash, and counts those that are
-- mounted.
pub alerta-count :
    (w : World) (lista_anterior lista_actual : List Text)
    → HasNodes w lista_actual
    → (ns : List Notice) × (alerta w lista_anterior lista_actual
        ≡ ok (ns, mounted_count w lista_actual))
unfolding alerta
alerta-count w ant lista h =
    let (ns, e) = actuales_de-count w ant lista h in (desconectado ant lista ++ ns, rw e refl)

result : {A : Type 0} {a b : A} → Exec.ok a ≡ Exec.ok b → a ≡ b
result e = cc

mounted_count-pos :
    (w : World) (lista : List Text) (path : Text)
    → In path lista
    → device_mounted w (w.device path) ≡ true
    → 0 < mounted_count w lista
unfolding mounted_count
mounted_count-pos w [] path m h = absurd m
mounted_count-pos w (p ∷ rest) path (inl e) h = rw (rw e at h) (omega arith)
mounted_count-pos w (p ∷ rest) path (inr m) h = ground (arith, mounted_count-pos w rest path m)

-- When the paths of the devices lie under /sys and no source of a mount does, every device has a
-- node, and at least one is mounted, the count taken before the first round and that of the round
-- lead to no report of a removed or added file, whatever the snapshots.
pub first_round_silent :
    (w : World) (lista : List Text) (path : Text) {viejos actuales : ℕ} {ns : List Notice}
    (vs fs : List ArchivoInfo)
    → ((p : Text) → In p lista → is_prefix (codes "/sys/") p ≡ true)
    → ((m : Mount) → In m (mounts_of w.mtab) → is_prefix (codes "/sys/") m.mnt_fsname ≡ false)
    → HasNodes w lista
    → In path lista
    → device_mounted w (w.device path) ≡ true
    → contar_dispositivos w lista ≡ ok viejos
    → alerta w lista lista ≡ ok (ns, actuales)
    → anadir_eliminar vs fs viejos actuales ≡ []
first_round_silent w lista path {viejos} {actuales} {ns} vs fs hp hm hn m h counted seen =
    let (ns', e) = alerta-count w lista lista hn in
    let none_counted : viejos ≡ 0 = result (sym counted ∙ contar_dispositivos-zero w lista hp hm) in
    let all_seen : actuales ≡ mounted_count w lista = ap (λ r. r.1) (result (sym seen ∙ e)) in
    anadir_eliminar-devices_changed vs fs viejos actuales
      (omega (arith, mounted_count-pos w lista path m h))
