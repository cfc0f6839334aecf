-- ===== src/Provoke/Tests.antt =====
-- The programs that provoke alerts, at concrete files.
pub mod Memory
pub mod Handles
mod Expansion
mod Replication
mod Streams
use antibawirus.Common.{◌≡◌, refl, inl, [], ◌∷◌, In, none, some, arith, if◌then◌else◌, ap, sym}
use antibawirus.Common.Int.{pos}
use antibawirus.Common.Text.{codes, str_eq}
use antibawirus.Patrol.Compare.{permissions_changed, extension_permisos}
use mathlib.Core.Option.{some-injective}
use antibawirus.Patrol.Listing.{Stat, info}
use antibawirus.Provoke.Attributes.{documento, formulario_exe, permisos}
use antibawirus.Provoke.Attributes.Alarm.{permisos_c, attribute_reported}
use antibawirus.Provoke.Tests.Memory.{Files, memory, memory-IsPosix}

-- A device with the files that the programs work on.
abbrev document : Stat
document = record {
  st_size = 48;
  st_mode = 0o100755;
  st_mtime = pos 1700000000;
  st_uid = 1000;
  st_gid = 1000;
}

abbrev usb : Files
usb p = if str_eq p formulario_exe then none else some document

abbrev changed : Stat
changed = record document { st_mode = 0o100644 }

abbrev permisos_done : memory.State
permisos_done = (permisos memory usb).1

attribute_reported_example :
    (st' : Stat) × (permisos_done documento ≡ some st')
    × In
        (permissions_changed
          (info documento (codes "documento.doc") document)
          (info documento (codes "documento.doc") st'))
        (extension_permisos
          (info documento (codes "documento.doc") document ∷ [])
          (info documento (codes "documento.doc") changed ∷ []))
unfolding permisos str_eq
attribute_reported_example =
    attribute_reported memory memory-IsPosix permisos_c usb permisos_done document
      (codes "documento.doc") (info documento (codes "documento.doc") document ∷ [])
      (info documento (codes "documento.doc") changed ∷ []) refl
      (λ e. let h : 493 ≡ 420 = e in omega (arith, h)) refl
      (λ st e.
        inl (ap (info documento (codes "documento.doc")) (sym (some-injective document st e))))
      (λ st e.
        inl (ap (info documento (codes "documento.doc")) (sym (some-injective changed st e))))
      refl
