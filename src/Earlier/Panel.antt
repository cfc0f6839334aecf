-- ===== src/Earlier/Panel.antt =====
-- Salon/prueba.c: the window with the table of processes alone.
pub mod Lifetime
pub mod Silent
use antibawirus.Common.{
  ℕ, zero, suc, ◌-◌, ◌≡◌, Bool, true, false, ◌||◌, List, [], ◌∷◌, ◌++◌, Option, none, some,
  if◌then◌else◌, length, leb,
}
use antibawirus.Common.Text.{Text}
use antibawirus.Salon.Glib.{Glib}
use antibawirus.Salon.Tables.{Lectura, normal, eof, otra, FilaProceso}

-- `ProcessMonitorData`: the pid of the monitor, and whether there is a channel. The window and the
-- store belong to GTK, and stand in the state of the window below.
pub record ProcessMonitorData : Type 0 where
  pub child_pid : ℕ
  pub io_channel : Bool

-- The window: whether it is there, the structure, unless it was not made or is freed, whether the
-- two handlers and the watch are connected, whether the channel is buffered, the references to it,
-- the rows, the signals sent, the dialog of a monitor that cannot be started, and whether the structure was used, and
-- freed, after it had been freed.
pub record Panel : Type 0 where
  pub window : Bool
  pub pdata : Option ProcessMonitorData
  pub handlers : Bool
  pub watch : Bool
  pub buffered : Bool
  pub refs : ℕ
  pub store : List FilaProceso
  pub kills : List ℕ
  pub dialog : Bool
  pub used_freed : Bool
  pub freed_twice : Bool

-- `child` is the pid of the monitor, if `g_spawn_async_with_pipes` can start it. The channel is held
-- by the structure and by the watch, and is set unbuffered.
unfoldable pub show_monitor_window : Option ℕ → Panel
show_monitor_window child = elim child [
  | none ↦ record {
    window = true;
    pdata = none;
    handlers = false;
    watch = false;
    buffered = false;
    refs = 0;
    store = [];
    kills = [];
    dialog = true;
    used_freed = false;
    freed_twice = false;
  }
  | some pid ↦ record {
    window = true;
    pdata = some (record { child_pid = pid; io_channel = true });
    handlers = true;
    watch = true;
    buffered = false;
    refs = 2;
    store = [];
    kills = [];
    dialog = false;
    used_freed = false;
    freed_twice = false;
  }
]

-- `gtk_widget_destroy`: the handler of the signal runs once, when the window goes.
abbrev pub destroy : (Panel → Panel) → Panel → Panel
destroy handler p = if p.window then handler (record p { window = false }) else p

abbrev pub kill_child : Option ProcessMonitorData → Panel → Panel
kill_child none p = record p { used_freed = true }
kill_child (some d) p = elim d.child_pid [
  | zero ↦ p
  | suc n ↦ record p { kills = p.kills ++ suc n ∷ []; pdata = some (record d { child_pid = 0 }) }
]

-- The freed structure still reads as it was left.
abbrev pub unref_channel : Option ProcessMonitorData → Panel → Panel
unref_channel none p = record p { used_freed = true; refs = p.refs - 1 }
unref_channel (some d) p = if d.io_channel then record p { refs = p.refs - 1 } else p

abbrev pub free_data : Option ProcessMonitorData → Panel → Panel
free_data none p = record p { freed_twice = true }
free_data (some d) p = record p { pdata = none }

-- The body of `stop_monitor`, on what destroying the window does.
unfoldable pub stop_with : (Panel → Panel) → Panel → Panel
stop_with handler p =
    let killed = kill_child p.pdata p in
    let gone = destroy handler killed in
    let unheld = unref_channel gone.pdata gone in free_data unheld.pdata unheld

-- The handler of the window's signal "destroy", which comes only from a window that is going, so
-- that destroying it again does nothing; and the handler of the button's signal "clicked".
unfoldable pub on_destroy : Panel → Panel
unfolding stop_with
on_destroy = stop_with (λ p. p)

unfoldable pub stop_monitor : Panel → Panel
unfolding stop_with on_destroy
stop_monitor = stop_with on_destroy

-- The table is cleared before the row of a line is put into it.
unfoldable pub with_fields : List Text → List FilaProceso → List FilaProceso
with_fields (a ∷ b ∷ c ∷ d ∷ e ∷ f ∷ rest) store =
    record { pid = a; nombre = b; cpu = c; ram = d; mem_virtual = e; hilos = f } ∷ []
with_fields fields store = store

module _ (g : Glib) where
  -- What the callback leaves: the rows, and whether the watch stays.
  unfoldable pub read_monitor_output : Lectura → List FilaProceso → List FilaProceso × Bool
  unfolding with_fields
  read_monitor_output (normal line) store = (with_fields (g.strsplit line b';') store, true)
  read_monitor_output eof store = (store, false)
  read_monitor_output otra store = (store, true)

  -- Whether the callback uses the structure.
  unfoldable pub uses : Lectura → Bool
  uses (normal line) = leb 6 (length (g.strsplit line b';'))
  uses eof = false
  uses otra = false

  -- What `g_io_channel_read_line` answers where a buffered channel has `r`: an error, if the channel
  -- is not buffered.
  abbrev pub answer : Bool → Lectura → Lectura
  answer buffered r = if buffered then r else otra

  -- A watch that ends drops its reference to the channel.
  abbrev pub dropped : Bool → ℕ → ℕ
  dropped stays refs = if stays then refs else refs - 1

  abbrev read_on : Option ProcessMonitorData → Lectura → Panel → Panel
  read_on none r p = record p {
    used_freed = p.used_freed || uses r;
    watch = (read_monitor_output r p.store).1;
    refs = dropped (read_monitor_output r p.store).1 p.refs;
  }
  read_on (some d) r p = record p {
    store = (read_monitor_output r p.store).0;
    watch = (read_monitor_output r p.store).1;
    refs = dropped (read_monitor_output r p.store).1 p.refs;
  }

  unfoldable pub read_step : Lectura → Panel → Panel
  unfolding read_monitor_output uses
  read_step r p = read_on p.pdata (answer p.buffered r) p

  -- The frame closes the window with the default handler, which destroys it.
  unfoldable pub close : Panel → Panel
  unfolding on_destroy
  close p = destroy (if p.handlers then on_destroy else (λ q. q)) p

  pub data Step (p : Panel) : Panel → Type 0 where
    reads : (r : Lectura) → p.watch ≡ true → Step p (read_step r p)
    clicks : p.window ≡ true → p.handlers ≡ true → Step p (stop_monitor p)
    closes : p.window ≡ true → Step p (close p)

  pub data Reach (p : Panel) : Panel → Type 0 where
    here : Reach p p
    then_step : {q r : Panel} → Reach p q → Step q r → Reach p r
