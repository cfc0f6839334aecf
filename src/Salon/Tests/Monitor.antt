-- ===== src/Salon/Tests/Monitor.antt =====
-- A monitor that has found a process over the threshold of memory.
use antibawirus.Common.{
  ℕ, zero, suc, ◌≡◌, refl, ap, ◌∙◌, false, List, [], ◌∷◌, ◌++◌, none, some, arith,
}
use antibawirus.Common.Int.{ℤ, pos}
use antibawirus.Common.Text.{Text, codes}
use antibawirus.Common.Text.Scan.{is_digit}
use antibawirus.Guard.Monitor.{get_cpu_time}
use antibawirus.Guard.Tracker.{ProcessHistory, ProcessTracker, Updated, done, init_tracker}
use antibawirus.Guard.Process.{
  Lecturas, Preparado, preparar, Linea, nueva_iteracion, alerta, uso_ram, fila, informar,
}
use antibawirus.Guard.System.{
  Sistema, Entorno, leyendo, nuevo, imprimiendo, call, updated, starts_digit, print, arranque,
  Reach, inicio, sigue, conserva, abre, crea, mide, imprime,
}
use antibawirus.Salon.Tests.Libraries.{whole}

-- One process, which uses all of the memory.
abbrev files : Lecturas
files = record {
  status = some (codes "Name:\tsh\nVmRSS:\t 100 kB\n");
  stat = some (codes "10 (sh) S 1 1 1 0 0 0 0 0 0 0 6 7 0\n");
  statm = none;
  cpu_stat = none;
  meminfo = some (codes "MemTotal: 100 kB\n");
  num_cpus = pos 1;
  page_kb = 4;
  old_name = [];
  old_line = [];
}

abbrev pub allowed : Entorno whole
allowed = record {
  umbral_cpu = pos 80;
  umbral_mem = pos 90;
  lista_blanca = λ n. false;
  Listing = λ names. names ≡ codes "10" ∷ [];
  Memory = λ t extra. extra ≡ none;
  Reads = λ pid r. r ≡ files;
}

abbrev slots : ℕ → List (ProcessHistory whole)
slots zero = []
slots (suc n) =
    record {
      pid = [];
      name = [];
      prev_cpu = pos 0;
      prev_memory = pos 0;
      prev_ram_percent = pos 0;
      prev_alert = pos 0;
      prev_proc_time = pos 0;
      prev_total_cpu = pos 0;
    }
    ∷ slots n

abbrev table_empty : ProcessTracker whole
table_empty = record { processes = slots 32; count = 0; capacity = 32 }

table_made : init_tracker whole (some (slots 32)) ≡ some table_empty
unfolding init_tracker
table_made = refl

abbrev iterating : Sistema whole
iterating =
    print whole (nueva_iteracion ∷ [])
      (record (arranque whole allowed table_empty 0) { principal = leyendo (codes "10" ∷ []) })

abbrev created : Sistema whole
created = record iterating { principal = leyendo []; hilos = nuevo (codes "10") ∷ [] }

created_reached : Reach whole allowed created
unfolding starts_digit is_digit
created_reached =
    sigue
      (sigue
        (sigue (inicio (slots 32) table_empty 0 refl table_made) (conserva 0 refl (omega arith)))
        (abre (codes "10" ∷ []) refl refl))
      (crea (codes "10") [] refl refl)

abbrev prepared : Preparado whole
prepared = record {
  sample = record {
    pid = codes "10";
    name = codes "sh";
    current_proc_time = pos 13;
    current_total_cpu = get_cpu_time none;
    memory = pos 100;
    ram_percent = pos 100;
    num_cpus = pos 1;
  };
  vsize = 0;
  threads = pos 0;
}

prepared_made : preparar whole (codes "10") files ≡ some prepared
unfolding preparar antibawirus.Common.Text.fgets_lines antibawirus.Guard.Process.tiempos
    antibawirus.Common.Text.strchr antibawirus.Common.Text.is_prefix antibawirus.Common.Int.◌+ℤ◌
    antibawirus.Guard.Monitor.get_total_ram antibawirus.Common.Text.Scan.scan_word
    antibawirus.Guard.Monitor.scan_longs antibawirus.Common.Text.Scan.scan_long
prepared_made = refl

pub measured :
    (u : Updated whole) × (call whole allowed none prepared table_empty ≡ done u)
    × (u.printed ≡ [])
    × (u.cpu_out ≡ pos 0)
unfolding antibawirus.Guard.Tracker.update_process
measured = (_, refl, refl, refl)

abbrev lines : List (Linea whole)
lines =
    alerta uso_ram (pos 100) (codes "sh") (codes "10")
    ∷ (fila (codes "10") (codes "sh") (pos 0) (pos 100) 0 (pos 0) ∷ [])

lines_made : informar whole (pos 80) (pos 90) (λ n. false) prepared (pos 0) ≡ lines
unfolding informar
lines_made = refl

abbrev updated_state : Sistema whole
updated_state = updated whole allowed prepared measured.0 [] [] created

updated_reached : Reach whole allowed updated_state
updated_reached =
    sigue created_reached (
      mide [] [] (codes "10") files prepared none measured.0 refl refl prepared_made refl
        measured.1)

to_print : updated_state.hilos ≡ imprimiendo lines ∷ []
to_print =
    ap (λ ls. imprimiendo ls ∷ [])
      (ap (informar whole (pos 80) (pos 90) (λ n. false) prepared) measured.3 ∙ lines_made)

abbrev row : List (Linea whole)
row = fila (codes "10") (codes "sh") (pos 0) (pos 100) 0 (pos 0) ∷ []

abbrev alerted : Sistema whole
alerted =
    print whole (alerta uso_ram (pos 100) (codes "sh") (codes "10") ∷ [])
      (record updated_state { hilos = imprimiendo row ∷ [] })

abbrev pub reading : Sistema whole
reading = print whole row (record alerted { hilos = imprimiendo [] ∷ [] })

pub reading_reached : Reach whole allowed reading
reading_reached =
    sigue
      (sigue updated_reached
        (imprime [] [] (alerta uso_ram (pos 100) (codes "sh") (codes "10")) row to_print))
      (imprime [] [] (fila (codes "10") (codes "sh") (pos 0) (pos 100) 0 (pos 0)) [] refl)

abbrev pub printed : List (Linea whole)
printed = nueva_iteracion ∷ lines

pub reading-printed : reading.salida ≡ printed ++ []
reading-printed = rw measured.2 refl
