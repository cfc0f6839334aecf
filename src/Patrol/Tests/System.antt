-- ===== src/Patrol/Tests/System.antt =====
-- The devices, the listing, the audit report and the rounds of Fronteras.c on one concrete system.
use antibawirus.Common.{
  ◌≡◌, refl, sym, ap, ◌∙◌, inl, inr, true, false, [], ◌∷◌, ◌++◌, Option, none, some, In,
  if◌then◌else◌, arith, ltb, ℕ, ◌≤◌,
}
use antibawirus.Common.Int.{pos}
use antibawirus.Common.Text.{Text, codes, str_eq, is_prefix}
use antibawirus.Common.Exec.{ok}
use antibawirus.Patrol.Files.{ArchivoInfo}
use antibawirus.Patrol.Listing.{Stat, Disk, fullpath, info, listar_archivos, is_dir, is_dots}
use antibawirus.Patrol.Listing.Walk.{
  Tree, depth, flatten, listar_archivos-flatten, end, file, dir, nil, dots, plain, opened,
}
use antibawirus.Patrol.Listing.Limit.{Returns, listar_archivos-Returns}
use antibawirus.Patrol.Devices.{Mount, World, contar_dispositivos, alerta, ensenar}
use antibawirus.Patrol.Devices.Counting.{
  mounts_of, mounted, HasNodes, mounted_count, first_round_silent,
}
use antibawirus.Patrol.Devices.Snapshot.{Agrees, empty_table, files_of, ensenar-Agrees}
use antibawirus.Patrol.Compare.{anadir_eliminar}
use antibawirus.Patrol.Rounds.{Estado, ronda, rondas}
use antibawirus.Patrol.Rounds.Baseline.{LastRound, rondas-LastRound}
use antibawirus.Patrol.Rounds.Silence.{ronda-silent}
use antibawirus.Patrol.Tests.{nota}

abbrev raiz : Text
raiz = codes "/m"

abbrev regular : Stat
regular = record { st_size = 5; st_mode = 0o100644; st_mtime = pos 1; st_uid = 0; st_gid = 0 }

abbrev folder : Stat
folder = record { st_size = 0; st_mode = 0o40755; st_mtime = pos 1; st_uid = 0; st_gid = 0 }

-- /m holds the file `a` and the directory `d`, which holds the file `b`.
abbrev disk : Disk
disk = record {
  opendir = λ n p.
      if str_eq p raiz
      then some (codes "." ∷ codes "a" ∷ codes "d" ∷ [])
      else if str_eq p (codes "/m/d")
      then some (codes "b" ∷ [])
      else none;
  stat = λ p. if str_eq p (codes "/m/d") then some folder else some regular;
}

abbrev contents : Tree
contents = file (codes "a") regular (dir (codes "d") folder (file (codes "b") regular end) end)

listar_archivos-flatten_example : listar_archivos disk 2 raiz [] ≡ ok ([] ++ flatten raiz contents)
unfolding depth is_dots fullpath is_dir str_eq
listar_archivos-flatten_example =
    listar_archivos-flatten disk 2 raiz (codes "." ∷ codes "a" ∷ codes "d" ∷ []) contents [] refl
      (dots refl (plain refl refl refl (opened refl refl refl refl (plain refl refl refl nil) nil)))
      (omega arith)

abbrev usb_path : Text
usb_path = codes "/sys/b1"

-- One device, mounted at a directory with one file.
abbrev system : World
system = record {
  mtab = some (record { mnt_fsname = codes "/dev/sdb1"; mnt_dir = raiz } ∷ []);
  usb = usb_path ∷ [];
  device = λ p. some (record { devnode = some (codes "/dev/sdb1"); parent = none });
  disk = record { opendir = λ n p. some (codes "a" ∷ []); stat = λ p. some regular };
}

abbrev only_file : ArchivoInfo
only_file = info (codes "/m/a") (codes "a") regular

ensenar-Agrees_example :
    Agrees empty_table (ensenar system 2 (usb_path ∷ [])) (files_of system 2 (usb_path ∷ []))
ensenar-Agrees_example = ensenar-Agrees system 2 (usb_path ∷ [])

system-paths : (p : Text) → In p (usb_path ∷ []) → is_prefix (codes "/sys/") p ≡ true
unfolding is_prefix
system-paths p (inl e) = rw e refl
system-paths p (inr z) = elim z [ ]

system-sources :
    (m : Mount) → In m (mounts_of system.mtab) → is_prefix (codes "/sys/") m.mnt_fsname ≡ false
unfolding is_prefix
system-sources m (inl e) = rw e refl
system-sources m (inr z) = elim z [ ]

system-nodes : HasNodes system (usb_path ∷ [])
system-nodes path dev m e = (
  codes "/dev/sdb1",
  let q : record { devnode = some (codes "/dev/sdb1"); parent = none } ≡ dev = cc in
      ap (λ d. d.devnode) (sym q),
)

first_round_silent_example : anadir_eliminar (nota ∷ []) [] 0 1 ≡ []
unfolding str_eq antibawirus.Patrol.Devices.Counting.mounted contar_dispositivos
    antibawirus.Patrol.Devices.obtener alerta antibawirus.Patrol.Devices.desconectado
    antibawirus.Patrol.Devices.conectado
first_round_silent_example =
    first_round_silent system (usb_path ∷ []) usb_path {ns = []} (nota ∷ []) [] system-paths
      system-sources system-nodes (inl refl) refl refl refl

abbrev resting : Estado
resting = record { lista_dispositivos = usb_path ∷ []; viejos = 1; lista_archivos = only_file ∷ [] }

abbrev no_popen : Text → Option Text
no_popen cmd = none

resting-Unique : (v n : ArchivoInfo) → In v (only_file ∷ []) → In n (only_file ∷ []) → v ≡ n
resting-Unique v n (inl p) (inl q) = p ∙ sym q
resting-Unique v n (inr z) m = elim z [ ]
resting-Unique v n (inl p) (inr z) = elim z [ ]

ronda-silent_example :
    ronda no_popen 2 system resting
    ≡ ok ([], record resting { viejos = mounted_count system (usb_path ∷ []) })
unfolding antibawirus.Patrol.Devices.obtener str_eq listar_archivos
    antibawirus.Patrol.Listing.entries antibawirus.Patrol.Listing.entry is_dots is_dir fullpath
ronda-silent_example =
    ronda-silent no_popen 2 system resting refl refl system-nodes
      (λ v n mv mn s. resting-Unique v n mv mn)
      (λ v n mv mn c. c.2 (ap (λ f. f.extension) (resting-Unique v n mv mn)))

round_quiet : ronda no_popen 2 system resting ≡ ok ([], resting)
unfolding mounted_count mounted str_eq antibawirus.Patrol.Devices.obtener listar_archivos
    antibawirus.Patrol.Listing.entries antibawirus.Patrol.Listing.entry is_dots is_dir fullpath
round_quiet =
    ronda-silent no_popen 2 system resting refl refl system-nodes
      (λ v n mv mn s. resting-Unique v n mv mn)
      (λ v n mv mn c. c.2 (ap (λ f. f.extension) (resting-Unique v n mv mn)))

three_rounds : rondas no_popen 2 (system ∷ system ∷ system ∷ []) resting ≡ ok ([], resting)
unfolding rondas
three_rounds = rw (round_quiet, rondas, round_quiet, round_quiet) refl

rondas-LastRound_example : LastRound no_popen 2 system system [] resting
rondas-LastRound_example =
    rondas-LastRound no_popen 2 (system ∷ []) system system resting {evs = []} {e' = resting}
      three_rounds

-- Each directory holds one more, and at most three can be open.
abbrev endless : Disk
endless = record {
  opendir = λ n p. if ltb n 3 then some (codes "." ∷ codes "a" ∷ []) else none;
  stat = λ p. some folder;
}

endless_closed : (n : ℕ) (p : Text) → 3 ≤ n → endless.opendir n p ≡ none
endless_closed n p h = ground (arith, h)

listar_archivos-Returns_example : Returns (listar_archivos endless 4 raiz [])
listar_archivos-Returns_example =
    listar_archivos-Returns endless 3 4 raiz [] endless_closed (omega arith)
