-- ===== src/Scanner/Split.antt =====
-- Ports_Scanner.c, lines 133 to 153: how `main` splits a range of ports among its threads.
-- The bounds lie between 1 and 65535 here, so no `int` operation wraps and `- 1` does not stop.
pub mod Partition
use antibawirus.Common.{
  ℕ, zero, suc, ◌+◌, ◌-◌, ◌/◌, ◌%◌, List, [], ◌∷◌, Option, none, some, ltb, if◌then◌else◌,
}

abbrev pub max_threads : ℕ
max_threads = 64

-- `ScanArgs`, less the address, which is the same for all.
pub record ScanArgs : Type 0 where
  pub start_port : ℕ
  pub end_port : ℕ

abbrev cons_args : ScanArgs → Option (List ScanArgs) → Option (List ScanArgs)
cons_args a none = none
cons_args a (some rest) = some (a ∷ rest)

-- What becomes of the thread of a round by the time that `main` reads its arguments again:
-- `pthread_create` fails, and `main` has freed them; or the thread is still at work; or it has
-- ended, and has freed them itself.
pub data Creado : Type 0 where
  falla trabaja terminado : Creado

-- `n` rounds of the loop that starts the threads, from round `i`, and `create i` what becomes of the
-- thread of round `i`. `none` is the undefined behaviour of reading freed arguments.
unfoldable pub launch : (ℕ → Creado) → ℕ → ℕ → ℕ → ℕ → ℕ → Option (List ScanArgs)
launch create ports_per_thread extra_ports zero i current_start = some []
launch create ports_per_thread extra_ports (suc n) i current_start =
    let end_port = current_start + ports_per_thread - 1 + (if ltb i extra_ports then 1 else 0) in
    let args : ScanArgs = record { start_port = current_start; end_port = end_port } in
    let rest = launch create ports_per_thread extra_ports n (i + 1) (end_port + 1) in
    elim (create i) [ falla ↦ none | trabaja ↦ cons_args args rest | terminado ↦ none ]

unfoldable pub total_ports : ℕ → ℕ → ℕ
total_ports start_port end_port = end_port - start_port + 1

unfoldable pub thread_count : ℕ → ℕ
thread_count total = if ltb total max_threads then total else max_threads

unfoldable pub start_threads : (ℕ → Creado) → ℕ → ℕ → Option (List ScanArgs)
unfolding launch thread_count total_ports
start_threads create start_port end_port =
    let total = total_ports start_port end_port in
    let count = thread_count total in
    launch create (total / count) (total % count) count 0 start_port
