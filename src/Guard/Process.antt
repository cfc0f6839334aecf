-- ===== src/Guard/Process.antt =====
-- Guardia del tesoro real/guardia_info.c, `process_info`: what a thread reads of its process, and
-- what it prints.
pub mod Times
use antibawirus.Common.{
  ℕ, zero, suc, ◌*◌, Bool, ◌&&◌, not, List, [], ◌∷◌, ◌++◌, Option, none, some, drop, if◌then◌else◌,
}
use antibawirus.Common.Int.{ℤ, pos, pos_part, ltb_ℤ, ◌+ℤ◌}
use antibawirus.Common.Text.{Text, codes, is_prefix, strchr, fgets_lines}
use antibawirus.Common.Text.Scan.{scan_word, scan_int, scan_long}
use antibawirus.Guard.Monitor.{scan_longs, get_cpu_time, get_total_ram}
use antibawirus.Guard.Tracker.{Floats, Sample, Spike}

-- `n` rounds of the loop `ptr = strchr(ptr, ' ') + 1`. `none` is the null pointer plus one, which
-- the code goes on to read.
unfoldable pub avanzar : ℕ → Text → Option Text
avanzar zero ptr = some ptr
avanzar (suc n) ptr = elim (strchr ptr 32) [ none ↦ none | some p ↦ avanzar n (drop 1 p) ]

-- `utime` and `stime`, which are 0 where the conversion does not store them.
abbrev pub guardados : List ℤ → ℤ × ℤ
guardados [] = (pos 0, pos 0)
guardados (u ∷ []) = (u, pos 0)
guardados (u ∷ s ∷ _) = (u, s)

unfoldable pub tiempos : Text → Option (ℤ × ℤ)
unfolding avanzar
tiempos line = elim (avanzar 13 line) [
  | none ↦ none
  | some ptr ↦ some (guardados (scan_longs 2 ptr))
]

-- The variables that the loop over /proc/[pid]/status fills, and the buffer `line`.
pub record Status : Type 0 where
  pub name : Text
  pub threads : ℤ
  pub rss : ℤ
  pub line : Text

-- A variable after a conversion that may fail.
abbrev stored {ℓ} : {A : Type ℓ} → Option (A × Text) → A → A
stored none old = old
stored (some (v, _)) old = v

unfoldable pub scan_size : Text → Option (ℕ × Text)
scan_size s = elim (scan_long s) [ none ↦ none | some (v, rest) ↦ some (pos_part v, rest) ]

-- One line of the file. A name of the kernel fits the buffer, so `%s` needs no width here.
unfoldable pub leer_linea : Status → Text → Status
leer_linea s line =
    if is_prefix (codes "Name:") line
    then record s { name = stored (scan_word 1023 (drop 5 line)) s.name; line = line }
    else if is_prefix (codes "Threads:") line
    then record s { threads = stored (scan_int (drop 8 line)) s.threads; line = line }
    else if is_prefix (codes "VmRSS:") line
    then record s { rss = stored (scan_long (drop 6 line)) s.rss; line = line }
    else record s { line = line }

unfoldable pub leer_lineas : Status → List Text → Status
unfolding leer_linea
leer_lineas s [] = s
leer_lineas s (line ∷ lines) = leer_lineas (leer_linea s line) lines

-- A file that cannot be opened leaves all as it was.
unfoldable pub leer_status : Status → Option Text → Status
unfolding leer_lineas
leer_status s none = s
leer_status s (some file) = leer_lineas s (fgets_lines 1024 file)

-- The line of /proc/[pid]/stat. After a failed `fopen` the code reads from the null pointer; an
-- empty file leaves the buffer as it was.
unfoldable pub leer_stat : Text → Option Text → Option (ℤ × ℤ)
leer_stat line none = none
leer_stat line (some file) = elim (fgets_lines 1024 file) [
  | [] ↦ tiempos line
  | first ∷ _ ↦ tiempos first
]

-- What a call of `process_info` reads: the three files of the process, those of the system, what
-- `sysconf` says, and what the uninitialised buffers `name` and `line` hold at first.
pub record Lecturas : Type 0 where
  pub status : Option Text
  pub stat : Option Text
  pub statm : Option Text
  pub cpu_stat : Option Text
  pub meminfo : Option Text
  pub num_cpus : ℤ
  pub page_kb : ℕ
  pub old_name : Text
  pub old_line : Text

-- The first number of /proc/[pid]/statm, which has no sign, times the pages' size in kB.
unfoldable pub leer_statm : ℕ → Option Text → ℕ
unfolding scan_size
leer_statm page_kb none = 0
leer_statm page_kb (some file) = stored (scan_size file) 0 * page_kb

-- What an alert is about.
pub data Tipo : Type 0 where
  pico_cpu pico_ram uso_cpu uso_ram : Tipo

module _ (fl : Floats) where
  -- The arguments of `update_process`, and the two values that are printed only.
  pub record Preparado : Type 0 where
    pub sample : Sample fl
    pub vsize : ℕ
    pub threads : ℤ

  unfoldable pub porcentaje_ram : ℤ → ℤ → fl.Float
  porcentaje_ram rss total_ram =
      if ltb_ℤ (pos 0) total_ram then fl.percent rss total_ram else fl.zero_f

  -- The variables at the call of `update_process`; `none` is a read from the null pointer.
  abbrev pub con_tiempos : Text → Lecturas → Status → Option (ℤ × ℤ) → Option Preparado
  con_tiempos pid r s none = none
  con_tiempos pid r s (some (utime, stime)) = some (record {
    sample = record {
      pid = pid;
      name = s.name;
      current_proc_time = utime +ℤ stime;
      current_total_cpu = get_cpu_time r.cpu_stat;
      memory = s.rss;
      ram_percent = porcentaje_ram s.rss (get_total_ram r.meminfo);
      num_cpus = r.num_cpus;
    };
    vsize = leer_statm r.page_kb r.statm;
    threads = s.threads;
  })

  unfoldable pub preparar : Text → Lecturas → Option Preparado
  unfolding leer_status leer_stat leer_statm porcentaje_ram
  preparar pid r =
      let s =
        leer_status (record { name = r.old_name; threads = pos 0; rss = pos 0; line = r.old_line })
          r.status in
      con_tiempos pid r s (leer_stat s.line r.stat)

  -- The lines that the program prints.
  pub data Linea : Type 0 where
    nueva_iteracion : Linea
    alerta : Tipo → fl.Float → Text → Text → Linea
    fila : Text → Text → fl.Float → fl.Float → ℕ → ℤ → Linea

  -- `printf` prints the difference of the two values of a peak.
  unfoldable pub linea_de : Spike fl → Linea
  linea_de (Spike.pico_cpu now before name pid) = alerta pico_cpu (fl.minus now before) name pid
  linea_de (Spike.pico_ram now before name pid) = alerta pico_ram (fl.minus now before) name pid

  -- What is printed after the call of `update_process`, which left `cpu`.
  unfoldable pub informar : fl.Float → fl.Float → (Text → Bool) → Preparado → fl.Float → List Linea
  informar umbral_cpu umbral_mem lista_blanca p cpu =
      let s = p.sample in
      (if fl.above cpu umbral_cpu && not (lista_blanca s.name)
        then alerta uso_cpu cpu s.name s.pid ∷ []
        else [])
      ++ ((if fl.above s.ram_percent umbral_mem && not (lista_blanca s.name)
            then alerta uso_ram s.ram_percent s.name s.pid ∷ []
            else [])
          ++ (fila s.pid s.name cpu s.ram_percent p.vsize p.threads ∷ []))
