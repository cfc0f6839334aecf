-- ===== src/Earlier/Panel/Silent.antt =====
-- prueba.c: what the table shows of what the monitor prints.
use antibawirus.Common.{
  ℕ, zero, suc, ◌<◌, ◌≡◌, refl, Bool, true, false, [], ◌∷◌, ◌++◌, Option, none, some, inl, inr,
  Option-cases, Bool-cases, if◌then◌else◌,
}
use antibawirus.Salon.Glib.{Glib}
use antibawirus.Salon.Tables.{Lectura}
use antibawirus.Earlier.Panel.{
  ProcessMonitorData, Panel, show_monitor_window, destroy, kill_child, unref_channel, free_data,
  stop_with, on_destroy, stop_monitor, close, read_step, reads, clicks, closes, Reach, here,
  then_step,
}

-- Nothing is in the table, and the watch that cannot read is installed.
record IsQuiet (p : Panel) : Type 0 where
  unbuffered : p.buffered ≡ false
  watched : p.watch ≡ true
  empty : p.store ≡ []

kill_child-IsQuiet :
    (o : Option ProcessMonitorData) (p : Panel) → IsQuiet p → IsQuiet (kill_child o p)
kill_child-IsQuiet none p q = record {
  unbuffered = q.unbuffered;
  watched = q.watched;
  empty = q.empty;
}
kill_child-IsQuiet (some d) p q = killed d.child_pid
  where
    killed :
        (n : ℕ)
        → IsQuiet (elim n [
          | zero ↦ p
          | suc m ↦ record p {
            kills = p.kills ++ suc m ∷ [];
            pdata = some (record d { child_pid = 0 });
          }
        ])
    killed zero = q
    killed (suc m) = record { unbuffered = q.unbuffered; watched = q.watched; empty = q.empty }

either-IsQuiet : (b : Bool) (p r : Panel) → IsQuiet p → IsQuiet r → IsQuiet (if b then p else r)
either-IsQuiet true p r h k = h
either-IsQuiet false p r h k = k

destroy-IsQuiet :
    (handler : Panel → Panel) (p : Panel)
    → ((q : Panel) → IsQuiet q → IsQuiet (handler q))
    → IsQuiet p
    → IsQuiet (destroy handler p)
destroy-IsQuiet handler p keeps q =
    either-IsQuiet p.window (handler (record p { window = false })) p
      (keeps (record p { window = false })
        (record { unbuffered = q.unbuffered; watched = q.watched; empty = q.empty }))
      q

unref_channel-IsQuiet :
    (o : Option ProcessMonitorData) (p : Panel) → IsQuiet p → IsQuiet (unref_channel o p)
unref_channel-IsQuiet none p q = record {
  unbuffered = q.unbuffered;
  watched = q.watched;
  empty = q.empty;
}
unref_channel-IsQuiet (some d) p q = elim (Bool-cases d.io_channel) [
  | inl e ↦
      rw (unref_channel, e)
        (record { unbuffered = q.unbuffered; watched = q.watched; empty = q.empty })
  | inr e ↦ rw (unref_channel, e) q
]

free_data-IsQuiet :
    (o : Option ProcessMonitorData) (p : Panel) → IsQuiet p → IsQuiet (free_data o p)
free_data-IsQuiet none p q = record {
  unbuffered = q.unbuffered;
  watched = q.watched;
  empty = q.empty;
}
free_data-IsQuiet (some d) p q = record {
  unbuffered = q.unbuffered;
  watched = q.watched;
  empty = q.empty;
}

stop_with-IsQuiet :
    (handler : Panel → Panel) (p : Panel)
    → ((q : Panel) → IsQuiet q → IsQuiet (handler q))
    → IsQuiet p
    → IsQuiet (stop_with handler p)
unfolding stop_with
stop_with-IsQuiet handler p keeps q =
    let killed = kill_child p.pdata p in
    let gone = destroy handler killed in
    let unheld = unref_channel gone.pdata gone in
    free_data-IsQuiet unheld.pdata unheld (
      unref_channel-IsQuiet gone.pdata gone
        (destroy-IsQuiet handler killed keeps (kill_child-IsQuiet p.pdata p q)))

on_destroy-IsQuiet : (p : Panel) → IsQuiet p → IsQuiet (on_destroy p)
unfolding on_destroy
on_destroy-IsQuiet p q = stop_with-IsQuiet (λ p. p) p (λ r h. h) q

handler-IsQuiet :
    (b : Bool) (p : Panel) → IsQuiet p → IsQuiet ((if b then on_destroy else (λ r. r)) p)
handler-IsQuiet true p q = on_destroy-IsQuiet p q
handler-IsQuiet false p q = q

stop_monitor-IsQuiet : (p : Panel) → IsQuiet p → IsQuiet (stop_monitor p)
unfolding stop_monitor
stop_monitor-IsQuiet p q = stop_with-IsQuiet on_destroy p on_destroy-IsQuiet q

module _ (g : Glib) where
  close-IsQuiet : (p : Panel) → IsQuiet p → IsQuiet (close g p)
  unfolding close
  close-IsQuiet p q =
      destroy-IsQuiet (if p.handlers then on_destroy else (λ r. r)) p (handler-IsQuiet p.handlers) q

  read_step-IsQuiet : (r : Lectura) (p : Panel) → IsQuiet p → IsQuiet (read_step g r p)
  unfolding read_step
  read_step-IsQuiet r p q = elim (Option-cases p.pdata) [
    | inl e ↦
        rw (read_step, e, q.unbuffered)
          (record { unbuffered = refl; watched = refl; empty = q.empty })
    | inr (d, e) ↦
        rw (read_step, e, q.unbuffered)
          (record { unbuffered = refl; watched = refl; empty = q.empty })
  ]

  Reach-IsQuiet : (pid : ℕ) (p : Panel) → Reach g (show_monitor_window (some pid)) p → IsQuiet p
  unfolding show_monitor_window
  Reach-IsQuiet pid p here = record { unbuffered = refl; watched = refl; empty = refl }
  Reach-IsQuiet pid p (then_step {q = m} s (reads r w)) =
      read_step-IsQuiet r m (Reach-IsQuiet pid m s)
  Reach-IsQuiet pid p (then_step {q = m} s (clicks w h)) =
      stop_monitor-IsQuiet m (Reach-IsQuiet pid m s)
  Reach-IsQuiet pid p (then_step {q = m} s (closes w)) = close-IsQuiet m (Reach-IsQuiet pid m s)

  -- The channel is unbuffered, so that no line can be read from it: whatever the monitor prints and
  -- whatever is done with the window that was shown with it, as long as the channel is held by
  -- anyone the table stays empty, and the watch that cannot read stays installed.
  pub table_stays_empty :
      (pid : ℕ) (p : Panel)
      → Reach g (show_monitor_window (some pid)) p
      → 0 < p.refs
      → (p.store ≡ []) × (p.watch ≡ true)
  table_stays_empty pid p reached held = let q = Reach-IsQuiet pid p reached in (q.empty, q.watched)
