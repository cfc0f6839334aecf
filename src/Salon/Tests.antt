-- ===== src/Salon/Tests.antt =====
-- Salon/UI.c at concrete inputs.
pub mod Libraries
mod Monitor
use antibawirus.Common.{◌≡◌, refl, true, List, [], ◌∷◌, ◌++◌, Option, some, arith, ◌==◌, ◌+◌, ◌-◌}
use antibawirus.Common.Int.{pos}
use antibawirus.Common.Text.{Text, codes}
use antibawirus.Common.Text.Scan.{value, is_digit, is_space}
use antibawirus.Scanner.Ports.{Line, Net, scan_ports}
use antibawirus.Scanner.Split.{trabaja}
use antibawirus.Scanner.Main.{main, started}
use antibawirus.Scanner.Main.Threads.{flatten}
use antibawirus.Guard.Process.{alerta, uso_cpu}
use antibawirus.Guard.Report.{texto}
use antibawirus.Guard.System as Guard
use antibawirus.Salon.Tables.{
  Lectura, normal, Tabla, FilaProceso, con, read_guardia_info_table, read_guardia_alertas_table,
}
use antibawirus.Salon.Tables.Stream.{leer_todas, mostradas, table_shown}
use antibawirus.Salon.Tables.Alerts.{alerta-shown}
use antibawirus.Salon.Window.{
  Ventana, inicial, usb_scan_thread, on_scan_clicked, do_all, Reach, aqui, sigue, hilo_usb, escanea,
  todo, range_arg, orden, scanner, vacio,
}
use antibawirus.Salon.Window.Sane.{IsSane}
use antibawirus.Salon.Window.Invariant.{ventana-IsSane}
use antibawirus.Salon.Window.Report.{informe}
use antibawirus.Salon.Window.Command.{entries_scanned}
use antibawirus.Salon.Window.Ports.{scan_shown}
use antibawirus.Salon.Window.Watch.{atender, solo_alertas, alerts_shown}
use antibawirus.Salon.Monitors
use antibawirus.Salon.Monitors.{Sesion, abrir, lee, leer_tabla, toca_info, stop_table_guardia_info}
use antibawirus.Salon.Monitors.Lifetime.{IsStopped, pressed_once, used_after_free}
use antibawirus.Salon.Tests.Monitor.{allowed, reading, reading_reached, printed, reading-printed}
use antibawirus.Salon.Tests.Libraries.{texts, texts-IsGlib, cursor, cursor-IsTextBuffer, whole}

alerta-shown_example :
    read_guardia_alertas_table texts
      (λ v. v)
      (normal (texto whole (alerta uso_cpu (pos 7) (codes "sh") (codes "10"))))
      []
    ≡ con (
        []
        ++ (record {
          pid = codes "10";
          tipo = codes "Uso CPU";
          valor = codes "7.00";
          nombre = codes "sh" ++ (32 ∷ []);
        }
            ∷ []))
unfolding is_space
alerta-shown_example =
    alerta-shown whole texts (λ v. v) texts-IsGlib uso_cpu (pos 7) (codes "sh") (codes "10") []
      (refl, (refl, (refl, (refl, tt)))) refl (omega arith) (refl, (refl, tt)) refl (omega arith)
      (refl, (refl, tt)) (omega arith)

-- The patrol starts, its text is shown, and everything is run.
abbrev patrol : Option Text
patrol = some (codes "/dev/sdb\n")

abbrev opened : Ventana cursor
opened = on_scan_clicked cursor 1 (usb_scan_thread cursor patrol (inicial cursor))

abbrev whole_run : Ventana cursor
whole_run =
    do_all cursor (codes "20") (codes "80") (codes "80") (codes "90") (some (codes "22\n")) (some 4)
      opened

ventana-IsSane_example : IsSane cursor patrol whole_run
ventana-IsSane_example = ventana-IsSane cursor texts patrol whole_run (
    sigue (sigue (sigue aqui hilo_usb) (escanea 1 (omega arith)))
      (todo (codes "20") (codes "80") (codes "80") (codes "90") (some (codes "22\n")) 3))

abbrev local_net : Net
local_net = record { socket = λ p. true; connect = λ p. p == 22 }

entries_scanned_example :
    (orden (codes "20") (codes "80") ≡ scanner ++ (codes "20" ++ b'-' ∷ codes "80"))
    × ((threads : List (List Line)) × (main local_net
            (λ k. trabaja)
            (range_arg (codes "20") (codes "80") ∷ [])
          ≡ started threads)
        × (flatten threads
            ≡ scan_ports local_net
                (value 0 (codes "20"))
                (value 0 (codes "80") + 1 - value 0 (codes "20"))))
unfolding is_digit value
entries_scanned_example =
    entries_scanned local_net (λ k. trabaja) (codes "20") (codes "80") (refl, (refl, tt))
      (refl, (refl, tt)) (omega arith) (omega arith) (omega arith) (omega arith) (λ k. refl)

scan_shown_example :
    (w : Ventana cursor) × Reach cursor texts patrol opened w
    × (w.puertos ≡ opened.puertos)
    × (cursor.get_text w.buffer ≡ codes "Iniciando escaneo de puertos...\n" ++ codes "22\n")
    × (w.exit_button ≡ true)
unfolding vacio
scan_shown_example =
    scan_shown cursor texts patrol cursor-IsTextBuffer (codes "20") (codes "80") (codes "22\n")
      opened refl refl

alerts_shown_example :
    cursor.get_text
      (atender whole cursor texts 4 printed (
        do_all cursor
          (codes "20")
          (codes "80")
          (codes "80")
          (codes "90")
          (some (codes "22\n"))
          (some 4)
          opened)).buffer
    ≡ informe opened.usb_scan_output (some (codes "22\n")) (some 4)
      ++ solo_alertas whole cursor texts printed
alerts_shown_example =
    alerts_shown whole cursor texts cursor-IsTextBuffer texts-IsGlib allowed reading (codes "20")
      (codes "80") (codes "80") (codes "90") (some (codes "22\n")) 4 printed [] opened
      reading_reached reading-printed

table_shown_example : leer_todas whole texts printed [] ≡ mostradas whole texts printed []
table_shown_example =
    table_shown whole texts texts-IsGlib allowed reading printed [] reading_reached reading-printed
      (
        tt,
        (
          ((refl, (refl, (refl, (refl, tt)))), (refl, (refl, tt)), (refl, (refl, tt))),
          (
            (
              (refl, (refl, tt)),
              (refl, (refl, tt)),
              (refl, (refl, (refl, (refl, tt)))),
              (refl, (refl, (refl, (refl, tt)))),
            ),
            tt,
          ),
        ),
      )

-- The window of the processes, with its monitor at pid 8.
abbrev table : Lectura → List FilaProceso → Tabla FilaProceso
table = read_guardia_info_table texts

abbrev window : Sesion FilaProceso
window = abrir FilaProceso (λ t. t) (codes "80") (codes "90") (some 8)

pressed_once_example :
    (window.senales ≡ [])
    × IsStopped FilaProceso table (toca_info texts) 8 (
        leer_tabla FilaProceso table
          (toca_info texts)
          (normal (codes "NUEVA_ITERACION\n"))
          (stop_table_guardia_info FilaProceso window))
unfolding abrir vacio stop_table_guardia_info
pressed_once_example =
    pressed_once FilaProceso table (toca_info texts) (λ t. t) (codes "80") (codes "90") 7 window
      (leer_tabla FilaProceso table (toca_info texts) (normal (codes "NUEVA_ITERACION\n"))
        (stop_table_guardia_info FilaProceso window))
      refl refl Monitors.Reach.aqui refl
      (Monitors.Reach.sigue Monitors.Reach.aqui (lee (normal (codes "NUEVA_ITERACION\n")) refl))

used_after_free_example :
    (s : Sesion FilaProceso) × Monitors.Reach FilaProceso table (toca_info texts) window s
    × (s.roto ≡ true)
unfolding abrir vacio toca_info antibawirus.Common.Text.is_prefix
used_after_free_example =
    used_after_free FilaProceso table (toca_info texts) (λ t. t) (codes "80") (codes "90") 7
      (normal (codes "NUEVA_ITERACION\n")) refl refl refl
