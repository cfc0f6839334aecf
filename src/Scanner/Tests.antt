-- ===== src/Scanner/Tests.antt =====
-- Ports_Scanner.c at concrete inputs.
use antibawirus.Common.{
  ℕ, ◌≤◌, ◌≡◌, refl, ◌||◌, true, List, [], ◌∷◌, some, ◌==◌, All, length, ◌+◌, ◌-◌, arith,
}
use mathlib.Core.List.{Perm}
use antibawirus.Common.Text.{codes}
use antibawirus.Common.Text.Scan.{scan_int, literal}
use antibawirus.Scanner.Ports.{alert_risk, fine, report, Net, scan_ports}
use antibawirus.Scanner.Split.{Creado, trabaja, ScanArgs, start_threads, max_threads}
use antibawirus.Scanner.Split.Partition.{start_threads_covers, range, all_ports, Balanced}
use antibawirus.Scanner.Main.{main, bad_range, scan_range}
use antibawirus.Scanner.Main.Argument.{main-Outcome, Outcome}
use antibawirus.Scanner.Main.Threads.{main-perm}
use antibawirus.Scanner.Main.Threads.Merge.{done, print}

abbrev local_net : Net
local_net = record { socket = λ p. true; connect = λ p. p == 22 || p == 8080 }

abbrev always : ℕ → Creado
always k = trabaja

report_ssh : report 22 ≡ fine 22 "SSH"
unfolding report
report_ssh = refl

report_proxy : report 8080 ≡ alert_risk 8080 "Proxy HTTP"
unfolding report
report_proxy = refl

main_backwards : main local_net always (codes "80-20" ∷ []) ≡ bad_range
unfolding main scan_range scan_int literal antibawirus.Scanner.Main.out_of_range
main_backwards = refl

start_threads_covers_example :
    (args : List ScanArgs) × (start_threads always 20 119 ≡ some args)
    × (all_ports args ≡ range 20 (119 + 1 - 20))
    × (length args ≤ max_threads)
    × ((per : ℕ) × (1 ≤ per) × All (Balanced per) args)
start_threads_covers_example =
    start_threads_covers always 20 119 (λ k. refl) (omega arith) (omega arith)

main-Outcome_example :
    Outcome local_net always (codes "20-119" ∷ []) (main local_net always (codes "20-119" ∷ []))
main-Outcome_example = main-Outcome local_net always (codes "20-119" ∷ []) (λ k. refl)

main-perm_example : Perm (fine 22 "SSH" ∷ []) (scan_ports local_net 22 (23 + 1 - 22))
unfolding scan_range main scan_int literal antibawirus.Scanner.Main.out_of_range start_threads
    antibawirus.Scanner.Ports.port_scanner
main-perm_example =
    main-perm local_net always (codes "22-23") 22 23 {threads = (fine 22 "SSH" ∷ []) ∷ [] ∷ []}
      {out = fine 22 "SSH" ∷ []} refl (omega arith) (omega arith) (omega arith) (λ k. refl) refl
      (print [] ([] ∷ []) (fine 22 "SSH") [] refl (done (refl, (refl, tt))))
