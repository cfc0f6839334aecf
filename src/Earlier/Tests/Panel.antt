-- ===== src/Earlier/Tests/Panel.antt =====
-- The earlier window, at concrete lines of a monitor.
use antibawirus.Common.{arith, ◌≡◌, refl, true, [], some}
use antibawirus.Common.Text.{codes}
use antibawirus.Salon.Tables.{normal, otra}
use antibawirus.Salon.Tests.Libraries.{texts}
use antibawirus.Earlier.Panel.{
  show_monitor_window, stop_monitor, close, here, then_step, reads, read_step,
}
use antibawirus.Earlier.Panel.Lifetime.{IsAlive, IsClosed, IsBroken, panel_ends}
use antibawirus.Earlier.Panel.Silent.{table_stays_empty}

table_stays_empty_example :
    ((read_step texts (normal (codes "7;init;1;1;9;1\n")) (show_monitor_window (some 4))).store
      ≡ [])
    × ((read_step texts (normal (codes "7;init;1;1;9;1\n")) (show_monitor_window (some 4))).watch
        ≡ true)
unfolding show_monitor_window read_step
table_stays_empty_example =
    table_stays_empty texts 4
      (read_step texts (normal (codes "7;init;1;1;9;1\n")) (show_monitor_window (some 4)))
      (then_step here (reads (normal (codes "7;init;1;1;9;1\n")) refl)) (omega arith)

panel_ends_example :
    IsAlive 4 (read_step texts otra (show_monitor_window (some 4)))
    × IsClosed 4 (close texts (read_step texts otra (show_monitor_window (some 4))))
    × IsBroken 4 (stop_monitor (read_step texts otra (show_monitor_window (some 4))))
unfolding show_monitor_window read_step
panel_ends_example =
    panel_ends texts 3 (read_step texts otra (show_monitor_window (some 4)))
      (then_step here (reads otra refl)) refl
