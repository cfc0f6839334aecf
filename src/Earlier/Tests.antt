-- ===== src/Earlier/Tests.antt =====
-- The earlier programs, at a concrete system.
mod Panel
mod Outline
use antibawirus.Common.{◌≡◌, refl, true, List, [], ◌∷◌, ◌++◌, none, some, if◌then◌else◌, Option}
use antibawirus.Common.Text.{Text, codes, contains, strstr, is_prefix}
use antibawirus.Patrol.Devices.{listed}
use antibawirus.Earlier.Devices.{Device, System, disco}
use antibawirus.Earlier.Devices.Numbers.{discos}

-- What is mounted, and the temporary directories.
abbrev Estado : Type 0
Estado = List Text × List Text

abbrev tail : List Text → List Text
tail [] = []
tail (x ∷ xs) = xs

abbrev temporal : Text
temporal = codes "/tmp/usb_mount_a1b2c3"

abbrev holding : List Text
holding = codes "." ∷ codes "notas.txt" ∷ []

-- Two devices, of which the first is mounted; no directory can be removed.
abbrev stick : Text → Device
stick node = record {
  devnode = some node;
  vendor = none;
  model = some (codes "USB");
  label = none;
  fstype = none;
}

abbrev made : Estado → Option (Text × Estado)
made s = if listed temporal s.0 then none else some (temporal, (s.0, temporal ∷ s.1))

abbrev computer : System
computer = record {
  State = Estado;
  udev = true;
  devices = codes "1" ∷ codes "2" ∷ [];
  device = λ path. some (stick (codes "/dev/sd" ++ path));
  mtab = λ s. some (record { mnt_fsname = codes "/dev/sd1"; mnt_dir = codes "/media/usb" } ∷ []);
  disk = λ s. record { opendir = λ n path. some holding; stat = λ path. none };
  mkdtemp = λ s template. made s;
  mount = λ s device path fstype. some (path ∷ s.0, s.1);
  umount = λ s path. some (tail s.0, s.1);
  rmdir = λ s path. none;
}

two_devices : discos computer computer.devices ≡ 2
unfolding disco contains strstr is_prefix
two_devices = refl
