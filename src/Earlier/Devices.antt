-- ===== src/Earlier/Devices.antt =====
-- Patrullas.c, `get_mount_point` and `main`: each USB device is shown with its files, and one that
-- is not mounted is mounted for the time of the listing.
pub mod Numbers
pub mod Mounts
use antibawirus.Common.{
  ℕ, ◌+◌, Bool, List, [], ◌∷◌, ◌++◌, map, Option, none, some, ◌==◌, if◌then◌else◌,
}
use antibawirus.Common.Text.{Text, codes, str_eq, contains}
use antibawirus.Common.Exec.{Exec, ok, ◌>>=◌}
use antibawirus.Patrol.Listing.{Disk}
use antibawirus.Patrol.Devices.{Mount}
use antibawirus.Earlier.Outline.{Line, list_files}

-- What `udev` tells of a device: its node, and the values of four properties.
pub record Device : Type 0 where
  pub devnode : Option Text
  pub vendor : Option Text
  pub model : Option Text
  pub label : Option Text
  pub fstype : Option Text

-- What is asked of the system, over an unknown state of it. The mount table is `none` if it cannot
-- be opened; `mkdtemp` answers the name that it has made; `mount` is read-only.
pub record System : Type 1 where
  pub State : Type 0
  pub udev : Bool
  pub devices : List Text
  pub device : Text → Option Device
  pub mtab : State → Option (List Mount)
  pub disk : State → Disk
  pub mkdtemp : State → Text → Option (Text × State)
  pub mount : State → Text → Text → Text → Option State
  pub umount : State → Text → Option State
  pub rmdir : State → Text → Option State

-- The lines printed for the devices, in the order of the source.
pub data Salida : Type 0 where
  context_error heading : Salida
  dispositivo : ℕ → Salida
  fabricante modelo etiqueta tipo nodo : Text → Salida
  ya_montado : Text → Salida
  contenido : Salida
  archivo : Line → Salida
  no_montado : Salida
  montado : Text → Salida
  error_al_montar : Salida
  no_se_encontraron : Salida
  total : ℕ → Salida

unfoldable pub search : Text → List Mount → Option Text
search device [] = none
search device (ent ∷ rest) =
    if str_eq ent.mnt_fsname device then some ent.mnt_dir else search device rest

unfoldable pub get_mount_point : Option (List Mount) → Text → Option Text
unfolding search
get_mount_point none device = none
get_mount_point (some mtab) device = search device mtab

abbrev pub said : (Text → Salida) → Option Text → List Salida
said line none = []
said line (some t) = line t ∷ []

-- `fstype ? fstype : "auto"`
abbrev pub or_auto : Option Text → Text
or_auto none = codes "auto"
or_auto (some t) = t

-- What is printed of a device before its files.
unfoldable pub datos : ℕ → Device → Text → List Salida
datos count d devnode =
    dispositivo count
    ∷ (said fabricante d.vendor
        ++ (said modelo d.model
            ++ (said etiqueta d.label ++ (said tipo d.fstype ++ (nodo devnode ∷ [])))))

-- A device is counted if its node names a disk.
unfoldable pub disco : Option Device → Option (Device × Text)
disco none = none
disco (some d) = elim d.devnode [
  | none ↦ none
  | some devnode ↦ if contains devnode (codes "/dev/sd") then some (d, devnode) else none
]

-- The state behind a call whose result is not looked at, and that changes nothing if it fails.
abbrev pub tras : {A : Type 0} → A → Option A → A
tras s none = s
tras s (some s') = s'

module _ (Y : System) (fuel : ℕ) where
  abbrev pub desmontar : Y.State → Text → Y.State
  desmontar s path = tras s (Y.umount s path)

  abbrev pub borrar : Y.State → Text → Y.State
  borrar s path = tras s (Y.rmdir s path)

  unfoldable pub contenidos : Y.State → Text → Exec (List Salida)
  contenidos s mount_point = do
    lines ← list_files (Y.disk s) fuel mount_point 1
    ok (contenido ∷ map archivo lines)

  unfoldable pub con_temporal : Y.State → Text → Option Text → Text → Exec (List Salida × Y.State)
  con_temporal s devnode fstype temp = elim (Y.mount s devnode temp (or_auto fstype)) [
    | none ↦ ok (error_al_montar ∷ [], borrar s temp)
    | some s' ↦ do
      files ← contenidos s' temp
      ok (montado temp ∷ files, borrar (desmontar s' temp) temp)
  ]

  unfoldable pub montar : Y.State → Text → Option Text → Exec (List Salida × Y.State)
  montar s devnode fstype = elim (Y.mkdtemp s (codes "/tmp/usb_mount_XXXXXX")) [
    | none ↦ ok ([], s)
    | some (temp, s') ↦ con_temporal s' devnode fstype temp
  ]

  unfoldable pub con_montaje : Y.State → Device → Text → Exec (List Salida × Y.State)
  con_montaje s d devnode = elim (get_mount_point (Y.mtab s) devnode) [
    | some mount_point ↦ do files ← contenidos s mount_point; ok (ya_montado mount_point ∷ files, s)
    | none ↦ do r ← montar s devnode d.fstype; ok (no_montado ∷ r.0, r.1)
  ]

  -- The loop over the devices, `count` of which have been shown: the lines, the count and the state.
  unfoldable pub recorrer : ℕ → Y.State → List Text → Exec (List Salida × ℕ × Y.State)
  recorrer count s [] = ok ([], count, s)
  recorrer count s (syspath ∷ rest) = elim (disco (Y.device syspath)) [
    | none ↦ recorrer count s rest
    | some (d, devnode) ↦ do
      here ← con_montaje s d devnode
      more ← recorrer (count + 1) here.1 rest
      ok (datos (count + 1) d devnode ++ (here.0 ++ more.0), more.1, more.2)
  ]

  -- The exit status, the lines and the state.
  unfoldable pub main : Y.State → Exec (ℕ × List Salida × Y.State)
  main s =
      if Y.udev
      then recorrer 0 s Y.devices >>= (λ r.
        ok (0, heading ∷ (r.0 ++ (if r.1 == 0 then no_se_encontraron else total r.1) ∷ []), r.2))
      else ok (1, context_error ∷ [], s)
