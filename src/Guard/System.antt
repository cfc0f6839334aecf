-- ===== src/Guard/System.antt =====
-- guardia_info.c, `main` and `process_info_thread`: the loop over /proc, and a detached thread for
-- each process, interleaved in any order. A thread reads its files before it takes the mutex, and
-- prints what is left behind it, line by line.
pub mod Safety
pub mod Lines
use antibawirus.Common.{
  ℕ, ◌+◌, ◌<◌, ◌≤◌, ◌≡◌, Bool, true, false, List, [], ◌∷◌, ◌++◌, Option, none, some, map, take,
  length,
}
use antibawirus.Common.Text.{Text}
use antibawirus.Common.Text.Scan.{is_digit}
use antibawirus.Guard.Tracker.{
  Resultado, Floats, ProcessHistory, ProcessTracker, Updated, done, salida, desborde, init_tracker,
  update_process, cleanup,
}
use antibawirus.Guard.Process.{
  Lecturas, Preparado, preparar, Linea, nueva_iteracion, linea_de, informar,
}

-- `isdigit(entry->d_name[0])`
unfoldable pub starts_digit : Text → Bool
starts_digit [] = false
starts_digit (c ∷ s) = is_digit c

-- `strncpy(args->pid, entry->d_name, sizeof(args->pid))`
abbrev pub copy_pid : Text → Text
copy_pid name = take 16 name

-- Where `main` stands. `terminado` is `exit`; `desbordado` is what a write outside the array makes of
-- the program, and `nulo` what a read from the null pointer makes of it.
pub data Principal : Type 0 where
  cabeza iterando terminado desbordado nulo : Principal
  leyendo : List Text → Principal

module _ (fl : Floats) where
  -- A thread has its pid, or, behind the call of `update_process`, the lines that it has to print.
  pub data Hilo : Type 0 where
    nuevo : Text → Hilo
    imprimiendo : List (Linea fl) → Hilo

  pub record Sistema : Type 0 where
    pub tracker : ProcessTracker fl
    pub principal : Principal
    pub hilos : List Hilo
    pub last_cleanup : ℕ
    pub salida : List (Linea fl)

  abbrev pub print : List (Linea fl) → Sistema → Sistema
  print ls s = record s { salida = s.salida ++ ls }

  -- The thresholds, and what the system may do: which names `readdir` yields in /proc, which slots
  -- `realloc` adds to a table, if it does, and what a thread may read of a process.
  pub record Entorno : Type 1 where
    pub umbral_cpu : fl.Float
    pub umbral_mem : fl.Float
    pub lista_blanca : Text → Bool
    pub Listing : List Text → Type 0
    pub Memory : ProcessTracker fl → Option (List (ProcessHistory fl)) → Type 0
    pub Reads : Text → Lecturas → Type 0

  module _ (env : Entorno) where
    abbrev pub call :
        Option (List (ProcessHistory fl)) → Preparado fl → ProcessTracker fl → Resultado fl
    call extra p t = update_process fl env.umbral_cpu env.lista_blanca extra p.sample t

    -- A thread that has prepared a sample calls `update_process`, prints the peaks under the mutex,
    -- and has the other lines to print.
    abbrev pub updated : Preparado fl → Updated fl → List Hilo → List Hilo → Sistema → Sistema
    updated p u before after s = record s {
      tracker = u.tracker;
      salida = s.salida ++ map (linea_de fl) u.printed;
      hilos =
          before
          ++ (imprimiendo (informar fl env.umbral_cpu env.umbral_mem env.lista_blanca p u.cpu_out)
              ∷ after);
    }

    pub data Step (s : Sistema) : Sistema → Type 0 where
      -- The test of the time, and `cleanup` with what `access` says now.
      limpia :
          (now later : ℕ) (access : Text → Bool)
          → s.principal ≡ cabeza
          → s.last_cleanup + 30 < now
          → Step s (record s {
            principal = iterando;
            last_cleanup = later;
            tracker = cleanup fl access s.tracker;
          })
      conserva :
          (now : ℕ)
          → s.principal ≡ cabeza
          → now ≤ s.last_cleanup + 30
          → Step s (record s { principal = iterando })
      -- `opendir`, behind the line that starts an iteration
      cerrado :
          s.principal ≡ iterando
          → Step s (print (nueva_iteracion ∷ []) (record s { principal = cabeza }))
      abre :
          (names : List Text)
          → s.principal ≡ iterando
          → env.Listing names
          → Step s (print (nueva_iteracion ∷ []) (record s { principal = leyendo names }))
      -- One round of the loop over the names
      salta :
          (name : Text) (names : List Text)
          → s.principal ≡ leyendo (name ∷ names)
          → starts_digit name ≡ false
          → Step s (record s { principal = leyendo names })
      crea :
          (name : Text) (names : List Text)
          → s.principal ≡ leyendo (name ∷ names)
          → starts_digit name ≡ true
          → Step s (record s {
            principal = leyendo names;
            hilos = s.hilos ++ (nuevo (copy_pid name) ∷ []);
          })
      no_crea :
          (name : Text) (names : List Text)
          → s.principal ≡ leyendo (name ∷ names)
          → starts_digit name ≡ true
          → Step s (record s { principal = leyendo names })
      acaba : s.principal ≡ leyendo [] → Step s (record s { principal = cabeza })
      -- A thread, from the files to the return of `update_process`
      mide :
          (before after : List Hilo) (pid : Text) (r : Lecturas) (p : Preparado fl)
          (extra : Option (List (ProcessHistory fl))) (u : Updated fl)
          → s.hilos ≡ before ++ (nuevo pid ∷ after)
          → env.Reads pid r
          → preparar fl pid r ≡ some p
          → env.Memory s.tracker extra
          → call extra p s.tracker ≡ done u
          → Step s (updated p u before after s)
      sin_memoria :
          (before after : List Hilo) (pid : Text) (r : Lecturas) (p : Preparado fl)
          (extra : Option (List (ProcessHistory fl)))
          → s.hilos ≡ before ++ (nuevo pid ∷ after)
          → env.Reads pid r
          → preparar fl pid r ≡ some p
          → env.Memory s.tracker extra
          → call extra p s.tracker ≡ salida
          → Step s (record s { principal = terminado; hilos = [] })
      desborda :
          (before after : List Hilo) (pid : Text) (r : Lecturas) (p : Preparado fl)
          (extra : Option (List (ProcessHistory fl)))
          → s.hilos ≡ before ++ (nuevo pid ∷ after)
          → env.Reads pid r
          → preparar fl pid r ≡ some p
          → env.Memory s.tracker extra
          → call extra p s.tracker ≡ desborde
          → Step s (record s { principal = desbordado })
      -- A thread that reads through a null pointer
      cae :
          (before after : List Hilo) (pid : Text) (r : Lecturas)
          → s.hilos ≡ before ++ (nuevo pid ∷ after)
          → env.Reads pid r
          → preparar fl pid r ≡ none
          → Step s (record s { principal = nulo })
      imprime :
          (before after : List Hilo) (l : Linea fl) (ls : List (Linea fl))
          → s.hilos ≡ before ++ (imprimiendo (l ∷ ls) ∷ after)
          → Step s (print (l ∷ []) (record s { hilos = before ++ (imprimiendo ls ∷ after) }))
      termina :
          (before after : List Hilo)
          → s.hilos ≡ before ++ (imprimiendo [] ∷ after)
          → Step s (record s { hilos = before ++ after })

    -- The state behind `init_tracker`, with the time then.
    abbrev pub arranque : ProcessTracker fl → ℕ → Sistema
    arranque t now = record {
      tracker = t;
      principal = cabeza;
      hilos = [];
      last_cleanup = now;
      salida = [];
    }

    pub data Reach : Sistema → Type 0 where
      inicio :
          (slots : List (ProcessHistory fl)) (t : ProcessTracker fl) (now : ℕ)
          → length slots ≡ 32
          → init_tracker fl (some slots) ≡ some t
          → Reach (arranque t now)
      sigue : {s t : Sistema} → Reach s → Step s t → Reach t
