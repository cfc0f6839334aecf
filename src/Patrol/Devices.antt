-- ===== src/Patrol/Devices.antt =====
-- Fronteras.c, lines 100 to 120 and 248 to 417: mount points, the list of USB devices, and the
-- files of all of them.
pub mod Counting
pub mod Snapshot
use antibawirus.Common.{
  ℕ, suc, ◌+◌, ◌*◌, Bool, true, false, List, [], ◌∷◌, ◌++◌, Option, none, some, ltb, if◌then◌else◌,
  length,
}
use antibawirus.Common.Text.{Text, codes, str_eq}
use antibawirus.Common.Exec.{◌>>=◌, Exec, ok, crash}
use antibawirus.Patrol.Files.{ArchivoInfo}
use antibawirus.Patrol.Listing.{Disk, listar_archivos}

-- `struct mntent`, the fields that are read.
pub record Mount : Type 0 where
  pub mnt_fsname : Text
  pub mnt_dir : Text

-- What `udev` tells of a device: its node, and the two attributes of the USB device above it.
pub record Parent : Type 0 where
  pub manufacturer : Option Text
  pub product : Option Text

pub record Device : Type 0 where
  pub devnode : Option Text
  pub parent : Option Parent

-- What the system answers during one round: the mount table (`none` if it cannot be opened), the
-- `syspath`s that the enumeration lists, the device behind a `syspath`, and the files.
pub record World : Type 0 where
  pub mtab : Option (List Mount)
  pub usb : List Text
  pub device : Text → Option Device
  pub disk : Disk

-- The loop of `obtener`. A null device reaches `strcmp` at the first entry.
unfoldable pub search_mounts : Option Text → List Mount → Exec (Option Text)
search_mounts device [] = ok none
search_mounts none (m ∷ rest) = crash
search_mounts (some d) (m ∷ rest) =
    if str_eq m.mnt_fsname d then ok (some m.mnt_dir) else search_mounts (some d) rest

-- The directory where a device is mounted.
unfoldable pub obtener : Option (List Mount) → Option Text → Exec (Option Text)
unfolding search_mounts
obtener none device = ok none
obtener (some mounts) device = search_mounts device mounts

pub data Notice : Type 0 where
  shown : ℕ → Text → Text → Notice
  connected : Text → Text → Notice
  disconnected : Notice

unfoldable pub or_unknown : Option Text → Text
or_unknown none = codes "Desconocido"
or_unknown (some t) = t

unfoldable pub vendor : Device → Text
unfolding or_unknown
vendor d = or_unknown (elim d.parent [ none ↦ none | some p ↦ p.manufacturer ])

unfoldable pub product_name : Device → Text
unfolding or_unknown
product_name d = or_unknown (elim d.parent [ none ↦ none | some p ↦ p.product ])

-- The inner loops of `alerta`: whether a path is in a list.
unfoldable pub listed : Text → List Text → Bool
listed path [] = false
listed path (p ∷ rest) = if str_eq path p then true else listed path rest

-- The first loop stops at the first device that is gone.
unfoldable pub desconectado : List Text → List Text → List Notice
unfolding listed
desconectado [] lista_actual = []
desconectado (path ∷ rest) lista_actual =
    if listed path lista_actual then desconectado rest lista_actual else disconnected ∷ []

module _ (w : World) where
  -- The loop of `mostrar`; `i` devices have been shown.
  unfoldable pub mostrar_from : ℕ → List Text → Exec (List Notice)
  mostrar_from i [] = ok []
  mostrar_from i (path ∷ rest) = elim (w.device path) [
    | none ↦ mostrar_from i rest
    | some dev ↦ do
      punto_montaje ← obtener w.mtab dev.devnode
      elim punto_montaje [
        | none ↦ mostrar_from i rest
        | some _ ↦ do
          more ← mostrar_from (i + 1) rest
          ok (shown (i + 1) (vendor dev) (product_name dev) ∷ more)
      ]
  ]

  unfoldable pub mostrar : List Text → Exec (List Notice)
  unfolding mostrar_from
  mostrar lista = mostrar_from 0 lista

  -- The code hands the `syspath` itself to `obtener`.
  unfoldable pub contar_dispositivos : List Text → Exec ℕ
  contar_dispositivos [] = ok 0
  contar_dispositivos (path ∷ rest) = do
    mnt ← obtener w.mtab (some path)
    count ← contar_dispositivos rest
    ok (elim mnt [ none ↦ count | some _ ↦ suc count ])

  -- What is printed for a device that is mounted now.
  unfoldable pub conectado : Text → List Text → List Notice
  unfolding listed
  conectado path lista_anterior = if listed path lista_anterior then [] else elim (w.device path) [
    | none ↦ []
    | some dev ↦ connected (vendor dev) (product_name dev) ∷ []
  ]

  -- The second loop: the notices, and the count `actuales`.
  unfoldable pub actuales_de : List Text → List Text → Exec (List Notice × ℕ)
  actuales_de lista_anterior [] = ok ([], 0)
  actuales_de lista_anterior (path ∷ rest) = elim (w.device path) [
    | none ↦ actuales_de lista_anterior rest
    | some dev ↦ do
      mnt ← obtener w.mtab dev.devnode
      more ← actuales_de lista_anterior rest
      ok (elim mnt [ none ↦ more | some _ ↦ (conectado path lista_anterior ++ more.0, suc more.1) ])
  ]

  unfoldable pub alerta : List Text → List Text → Exec (List Notice × ℕ)
  unfolding actuales_de
  alerta lista_anterior lista_actual = do
    r ← actuales_de lista_anterior lista_actual
    ok (desconectado lista_anterior lista_actual ++ r.0, r.1)

-- The growing array of `ensenar`; `archivos` are the first `total` of its `capacidad` slots.
pub record Tabla : Type 0 where
  pub archivos : List ArchivoInfo
  pub capacidad : ℕ
  pub total : ℕ

-- Room for the files of one device, and their copy into the array.
unfoldable pub reservar : ℕ → Tabla → Tabla
reservar cantidad_local t =
    if ltb t.capacidad (t.total + cantidad_local)
    then record t { capacidad = (t.total + cantidad_local) * 2 }
    else t

unfoldable pub copiar : List ArchivoInfo → Tabla → Tabla
copiar [] t = t
copiar (f ∷ fs) t = copiar fs (record t { archivos = t.archivos ++ f ∷ []; total = t.total + 1 })

module _ (w : World) (fuel : ℕ) where
  -- One round of the loop of `ensenar`: its tests of the mount point, the node and the device.
  abbrev pub con_montaje : Tabla → Option Text → Exec Tabla
  con_montaje t none = ok t
  con_montaje t (some punto) = do
    archivos_temp ← listar_archivos w.disk fuel punto []
    ok (copiar archivos_temp (reservar (length archivos_temp) t))

  abbrev pub con_nodo : Tabla → Option Text → Exec Tabla
  con_nodo t none = ok t
  con_nodo t (some nodo) = do
    punto_montaje ← obtener w.mtab (some nodo)
    con_montaje t punto_montaje

  abbrev pub con_dispositivo : Tabla → Option Device → Exec Tabla
  con_dispositivo t none = ok t
  con_dispositivo t (some dispositivo) = con_nodo t dispositivo.devnode

  unfoldable pub ensenar_uno : Text → Tabla → Exec Tabla
  ensenar_uno ruta t = con_dispositivo t (w.device ruta)

  unfoldable pub ensenar_from : List Text → Tabla → Exec Tabla
  ensenar_from [] t = ok t
  ensenar_from (ruta ∷ rest) t = do t' ← ensenar_uno ruta t; ensenar_from rest t'

  unfoldable pub ensenar : List Text → Exec Tabla
  unfolding ensenar_from
  ensenar lista = ensenar_from lista (record { archivos = []; capacidad = 100; total = 0 })
