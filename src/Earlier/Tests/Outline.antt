-- ===== src/Earlier/Tests/Outline.antt =====
-- The outline and the listing of a small directory.
use antibawirus.Common.{◌≡◌, refl, List, [], ◌∷◌, none, some, arith, if◌then◌else◌}
use antibawirus.Common.Int.{pos}
use antibawirus.Common.Text.{Text, codes, str_eq}
use antibawirus.Common.Exec.{ok}
use antibawirus.Patrol.Listing.{Stat, Disk, Lista, is_dir, is_dots, fullpath, listar_archivos}
use antibawirus.Patrol.Listing.Walk.{Tree, Shows, end, file, dir, nil, dots, plain, opened, depth}
use antibawirus.Earlier.Outline.{Line, list_files}
use antibawirus.Earlier.Outline.Agreement.{IsWhole, outlined, listed, list_files-listar_archivos}

abbrev regular : Stat
regular = record { st_size = 5; st_mode = 0o100644; st_mtime = pos 1; st_uid = 0; st_gid = 0 }

abbrev folder : Stat
folder = record { st_size = 0; st_mode = 0o40755; st_mtime = pos 1; st_uid = 0; st_gid = 0 }

abbrev root : Text
root = codes "/u"

abbrev root_names : List Text
root_names = codes "." ∷ codes "c.txt" ∷ codes "e" ∷ []

-- /u holds the file `c.txt` and the directory `e`, which holds the file `f`.
abbrev disk : Disk
disk = record {
  opendir = λ n p.
      if str_eq p root
      then some root_names
      else if str_eq p (codes "/u/e")
      then some (codes "f" ∷ [])
      else none;
  stat = λ p. if str_eq p (codes "/u/e") then some folder else some regular;
}

abbrev tree : Tree
tree = file (codes "c.txt") regular (dir (codes "e") folder (file (codes "f") regular end) end)

abbrev shows : Shows disk root root_names tree
unfolding is_dots fullpath is_dir str_eq
shows = dots refl (plain refl refl refl (opened refl refl refl refl (plain refl refl refl nil) nil))

shows-IsWhole : IsWhole shows
unfolding IsWhole is_dots fullpath is_dir str_eq
shows-IsWhole = (omega arith, (omega arith, (omega arith, tt), tt))

list_files-listar_archivos_example :
    (lines : List Line) × (lista : Lista) × (list_files disk 2 root 1 ≡ ok lines)
    × (listar_archivos disk 2 root [] ≡ ok lista)
    × (outlined lines ≡ listed lista)
unfolding depth str_eq
list_files-listar_archivos_example =
    list_files-listar_archivos disk 2 root root_names tree 1 refl shows shows-IsWhole (omega arith)
