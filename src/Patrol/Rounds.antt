-- ===== src/Patrol/Rounds.antt =====
-- Fronteras.c, `main`: the endless loop of rounds, each comparing the world with the round before.
pub mod Baseline
pub mod Silence
use antibawirus.Common.{ℕ, Bool, List, [], ◌∷◌, ◌++◌, Option, map, if◌then◌else◌}
use antibawirus.Common.Text.{Text}
use antibawirus.Common.Exec.{◌>>=◌, Exec, ok}
use antibawirus.Patrol.Files.{ArchivoInfo}
use antibawirus.Patrol.Compare.{
  Alert, grown, extension_changed, permissions_changed, timestamp_changed, owner_changed, copied,
  removed, added, tamano, anadir_eliminar, extension_permisos, timestamps_ownership,
}
use antibawirus.Patrol.Audit.{Informe, mostrar_proceso_modificador}
use antibawirus.Patrol.Devices.{World, Notice, contar_dispositivos, mostrar, alerta, ensenar}

-- What is printed, in order.
pub data Evento : Type 0 where
  auditd_inactivo : Evento
  aviso : Notice → Evento
  alarma : Alert → Evento
  informe : Informe → Evento

-- The file whose changes the audit log is asked for.
unfoldable pub ruta_de : Alert → Text
ruta_de (grown n d) = n.ruta_completa
ruta_de (extension_changed v n) = n.ruta_completa
ruta_de (permissions_changed v n) = n.ruta_completa
ruta_de (timestamp_changed v n) = n.ruta_completa
ruta_de (owner_changed v n) = n.ruta_completa
ruta_de (copied f v) = f.ruta_completa
ruta_de (removed v) = v.ruta_completa
ruta_de (added f) = f.ruta_completa

-- Each alert is followed by the report on its file.
unfoldable pub emitir : (Text → Option Text) → List Alert → Exec (List Evento)
unfolding ruta_de
emitir popen [] = ok []
emitir popen (a ∷ rest) = do
  i ← mostrar_proceso_modificador popen (ruta_de a)
  more ← emitir popen rest
  ok (alarma a ∷ informe i ∷ more)

-- The four comparisons of a round.
unfoldable pub comparar : List ArchivoInfo → List ArchivoInfo → ℕ → ℕ → List Alert
comparar vs ns viejos actuales =
    tamano vs ns
    ++ (anadir_eliminar vs ns viejos actuales
        ++ (extension_permisos vs ns ++ timestamps_ownership vs ns))

-- What `main` keeps from one round to the next.
pub record Estado : Type 0 where
  pub lista_dispositivos : List Text
  pub viejos : ℕ
  pub lista_archivos : List ArchivoInfo

module _ (popen : Text → Option Text) (fuel : ℕ) where
  -- Before the loop; `activo` is whether the audit service runs.
  unfoldable pub inicio : Bool → World → Exec (List Evento × Estado)
  inicio activo w = do
    viejos ← contar_dispositivos w w.usb
    avisos ← mostrar w w.usb
    t ← ensenar w fuel w.usb
    ok (
      (if activo then [] else auditd_inactivo ∷ []) ++ map aviso avisos,
      record { lista_dispositivos = w.usb; viejos = viejos; lista_archivos = t.archivos },
    )

  -- The body of the loop, in the world as it is in that round.
  unfoldable pub ronda : World → Estado → Exec (List Evento × Estado)
  ronda w e = do
    visto ← alerta w e.lista_dispositivos w.usb
    t ← ensenar w fuel w.usb
    eventos ← emitir popen (comparar e.lista_archivos t.archivos e.viejos visto.1)
    ok (
      map aviso visto.0 ++ eventos,
      record { lista_dispositivos = w.usb; viejos = visto.1; lista_archivos = t.archivos },
    )

  -- A number of rounds, in the worlds of a list.
  unfoldable pub rondas : List World → Estado → Exec (List Evento × Estado)
  unfolding ronda
  rondas [] e = ok ([], e)
  rondas (w ∷ ws) e = do
    primera ← ronda w e
    resto ← rondas ws primera.1
    ok (primera.0 ++ resto.0, resto.1)

  -- The program, cut off after so many rounds.
  unfoldable pub main : Bool → World → List World → Exec (List Evento × Estado)
  unfolding inicio rondas
  main activo w ws = do
    antes ← inicio activo w
    resto ← rondas ws antes.1
    ok (antes.0 ++ resto.0, resto.1)
