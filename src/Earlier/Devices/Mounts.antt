-- ===== src/Earlier/Devices/Mounts.antt =====
-- Patrullas.c and Fronteras.c: the same mount point of a device.
use antibawirus.Common.{◌≡◌, refl, inl, inr, List, [], ◌∷◌, Option, none, some, Bool-cases}
use antibawirus.Common.Text.{Text, str_eq}
use antibawirus.Common.Exec.{ok}
use antibawirus.Patrol.Devices.{Mount, search_mounts, obtener}
use antibawirus.Earlier.Devices.{search, get_mount_point}

search-search_mounts :
    (device : Text) (mounts : List Mount)
    → search_mounts (some device) mounts ≡ ok (search device mounts)
unfolding search search_mounts
search-search_mounts device [] = refl
search-search_mounts device (m ∷ rest) = elim (Bool-cases (str_eq m.mnt_fsname device)) [
  | inl e ↦ rw e refl
  | inr e ↦ rw e (search-search_mounts device rest)
]

-- For every mount table, also one that cannot be opened, the two programs find the same mount point
-- of a device with a node.
pub get_mount_point-obtener :
    (mtab : Option (List Mount)) (device : Text)
    → obtener mtab (some device) ≡ ok (get_mount_point mtab device)
unfolding obtener get_mount_point
get_mount_point-obtener none device = refl
get_mount_point-obtener (some mounts) device = search-search_mounts device mounts
