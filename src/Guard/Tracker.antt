-- ===== src/Guard/Tracker.antt =====
-- Guardia del tesoro real/guardia_info.c, lines 12 to 106, with `init_tracker` and the records of
-- monitor.c and monitor.h: the table of the processes seen.
pub mod Invariant
pub mod Cleanup
pub mod Order
pub mod Stale
use antibawirus.Common.{
  ℕ, zero, suc, ◌+◌, ◌-◌, ◌*◌, Bool, true, false, ◌&&◌, not, List, [], ◌∷◌, ◌++◌, Option, none,
  some, ltb, if◌then◌else◌, get_elem?, set,
}
use antibawirus.Common.Int.{ℤ, pos, ◌-ℤ◌, ltb_ℤ}
use antibawirus.Common.Text.{Text, str_eq, fit}

-- The floating-point operations of the code, which are the compiler's. `percent a b` is
-- `((float)a / b) * 100.0`, `per_cpu` the division by the number of processors, `exceeds a b l`
-- the test `a - b > l`, `above a l` the test `a > l`, `minus` the subtraction, `of_long` and `to_long`
-- the conversions that an assignment makes, and `print` what `printf` makes of `%.2f`.
pub record Floats : Type 1 where
  pub Float : Type 0
  pub zero_f : Float
  pub ten : Float
  pub percent : ℤ → ℤ → Float
  pub per_cpu : Float → ℤ → Float
  pub exceeds : Float → Float → Float → Bool
  pub above : Float → Float → Bool
  pub minus : Float → Float → Float
  pub print : Float → Text
  pub of_long : ℤ → Float
  pub to_long : Float → ℤ

module _ (fl : Floats) where
  -- `ProcessHistory`, a slot of the table.
  pub record ProcessHistory : Type 0 where
    pub pid : Text
    pub name : Text
    pub prev_cpu : fl.Float
    pub prev_memory : ℤ
    pub prev_ram_percent : ℤ
    pub prev_alert : ℤ
    pub prev_proc_time : ℤ
    pub prev_total_cpu : ℤ

  -- `processes` are all the slots of the array, of which `count` are in use. A buffer of
  -- characters is the text that it holds; a pid has fewer digits than its buffer has bytes.
  pub record ProcessTracker : Type 0 where
    pub processes : List ProcessHistory
    pub count : ℕ
    pub capacity : ℕ

  -- The arguments of `update_process`, with what `sysconf` says of the processors.
  pub record Sample : Type 0 where
    pub pid : Text
    pub name : Text
    pub current_proc_time : ℤ
    pub current_total_cpu : ℤ
    pub memory : ℤ
    pub ram_percent : fl.Float
    pub num_cpus : ℤ

  -- The two lines on a peak: the value now and the one before, the name and the pid.
  pub data Spike : Type 0 where
    pico_cpu pico_ram : fl.Float → fl.Float → Text → Text → Spike

  pub record Updated : Type 0 where
    pub tracker : ProcessTracker
    pub cpu_out : fl.Float
    pub delta_proc_out : ℤ
    pub printed : List Spike

  -- `salida` is `exit(EXIT_FAILURE)`, and `desborde` a write outside the array.
  pub data Resultado : Type 0 where
    done : Updated → Resultado
    salida desborde : Resultado

  -- `malloc` gives 32 slots with whatever they hold, or fails.
  unfoldable pub init_tracker : Option (List ProcessHistory) → Option ProcessTracker
  init_tracker none = none
  init_tracker (some slots) = some (record { processes = slots; count = 0; capacity = 32 })

  -- The loop over the slots in use: the index of a pid.
  unfoldable pub buscar : Text → List ProcessHistory → ℕ → Option ℕ
  buscar pid [] n = none
  buscar pid (h ∷ hs) zero = none
  buscar pid (h ∷ hs) (suc n) =
      if str_eq h.pid pid
      then some 0
      else elim (buscar pid hs n) [ none ↦ none | some i ↦ some (suc i) ]

  unfoldable pub uso_cpu : Sample → ProcessHistory → fl.Float
  uso_cpu s h =
      let delta_total = s.current_total_cpu -ℤ h.prev_total_cpu in
      let delta_proc = s.current_proc_time -ℤ h.prev_proc_time in
      let cpu_us =
        if ltb_ℤ (pos 0) delta_total then fl.percent delta_proc delta_total else fl.zero_f in
      if ltb_ℤ (pos 0) s.num_cpus then fl.per_cpu cpu_us s.num_cpus else cpu_us

  -- The five assignments to a slot that is in use.
  unfoldable pub medido : Sample → ProcessHistory → ProcessHistory
  medido s h = record h {
    prev_cpu = uso_cpu s h;
    prev_memory = s.memory;
    prev_proc_time = s.current_proc_time;
    prev_total_cpu = s.current_total_cpu;
    prev_ram_percent = fl.to_long s.ram_percent;
  }

  -- The assignments to a slot that is taken into use: `prev_ram_percent` and `prev_alert` keep
  -- what the slot held. `strncpy` closes the text for a pid of at most 14 bytes and a name of at
  -- most 254, as the kernel's are; of a longer one it leaves the last byte of the buffer as it was.
  unfoldable pub registrado : Sample → ProcessHistory → ProcessHistory
  registrado s h = record h {
    pid = fit 16 s.pid;
    name = fit 256 s.name;
    prev_cpu = fl.zero_f;
    prev_memory = s.memory;
    prev_proc_time = s.current_proc_time;
    prev_total_cpu = s.current_total_cpu;
  }

  -- The new slots that `realloc` adds, with whatever they hold, or its failure.
  unfoldable pub ampliar : Option (List ProcessHistory) → ProcessTracker → Option ProcessTracker
  ampliar extra t = if ltb t.count t.capacity then some t else elim extra [
    | none ↦ none
    | some slots ↦ some (record t { processes = t.processes ++ slots; capacity = t.capacity * 2 })
  ]

  unfoldable pub registrar : Sample → ProcessTracker → Resultado
  unfolding registrado
  registrar s t = elim (get_elem? t.processes t.count) [
    | none ↦ desborde
    | some h ↦ done (record {
      tracker = record t {
        processes = set t.processes t.count (registrado s h);
        count = t.count + 1;
      };
      cpu_out = fl.zero_f;
      delta_proc_out = pos 0;
      printed = [];
    })
  ]

  module _ (umbral_cpu : fl.Float) (lista_blanca : Text → Bool) where
    unfoldable pub picos : Sample → ProcessHistory → List Spike
    unfolding uso_cpu
    picos s h =
        (if fl.exceeds (uso_cpu s h) h.prev_cpu umbral_cpu && not (lista_blanca s.name)
          then pico_cpu (uso_cpu s h) h.prev_cpu s.name s.pid ∷ []
          else [])
        ++ (if fl.exceeds s.ram_percent (fl.of_long h.prev_ram_percent) fl.ten
              && not (lista_blanca s.name)
            then pico_ram s.ram_percent (fl.of_long h.prev_ram_percent) s.name s.pid ∷ []
            else [])

    unfoldable pub medir : Sample → ProcessTracker → ℕ → Resultado
    unfolding medido picos
    medir s t i = elim (get_elem? t.processes i) [
      | none ↦ desborde
      | some h ↦ done (record {
        tracker = record t { processes = set t.processes i (medido s h) };
        cpu_out = uso_cpu s h;
        delta_proc_out = s.current_proc_time -ℤ h.prev_proc_time;
        printed = picos s h;
      })
    ]

    -- The whole function, which holds the mutex from its first line to each return.
    unfoldable pub update_process :
        Option (List ProcessHistory) → Sample → ProcessTracker → Resultado
    unfolding medir registrar ampliar buscar
    update_process extra s t = elim (buscar s.pid t.processes t.count) [
      | some i ↦ medir s t i
      | none ↦ elim (ampliar extra t) [ none ↦ salida | some t' ↦ registrar s t' ]
    ]

  -- The loop of `cleanup` from slot `i`, with fuel.
  unfoldable pub limpiar : (Text → Bool) → ℕ → ℕ → ProcessTracker → ProcessTracker
  limpiar pid_exists zero i t = t
  limpiar pid_exists (suc fuel) i t = elim (ltb i t.count) [
    | false ↦ t
    | true ↦ elim (get_elem? t.processes i) [
      | none ↦ t
      | some h ↦ elim (pid_exists h.pid) [
        | true ↦ limpiar pid_exists fuel (i + 1) t
        | false ↦ elim (get_elem? t.processes (t.count - 1)) [
          | none ↦ t
          | some last ↦
              limpiar pid_exists fuel i
                (record t { processes = set t.processes i last; count = t.count - 1 })
        ]
      ]
    ]
  ]

  -- Each round moves on or drops a slot, so `count` rounds are enough.
  unfoldable pub cleanup : (Text → Bool) → ProcessTracker → ProcessTracker
  unfolding limpiar
  cleanup pid_exists t = limpiar pid_exists t.count 0 t
