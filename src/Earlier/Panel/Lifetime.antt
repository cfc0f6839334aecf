-- ===== src/Earlier/Panel/Lifetime.antt =====
-- prueba.c: how long the structure of the window lives, and what its two ways to close do to it.
use antibawirus.Common.{
  ℕ, suc, ◌≡◌, refl, sym, true, false, [], ◌∷◌, none, some, inl, inr, Option-cases, ◌∙◌,
}
use antibawirus.Salon.Glib.{Glib}
use antibawirus.Salon.Tables.{Lectura}
use antibawirus.Earlier.Panel.{
  Panel, show_monitor_window, stop_monitor, on_destroy, close, read_step, Step, reads, clicks,
  closes, Reach, here, then_step,
}

-- The structure is as it was made, and nothing was done to the monitor.
abbrev pub IsAlive : ℕ → Panel → Type 0
IsAlive pid p =
    (p.pdata ≡ some (record { child_pid = pid; io_channel = true }))
    × (p.kills ≡ [])
    × (p.refs ≡ 2)
    × (p.used_freed ≡ false)
    × (p.freed_twice ≡ false)
    × (p.handlers ≡ true)
    × (p.buffered ≡ false)

-- The monitor has been sent one SIGTERM, the structure is freed once, and the watch still holds the
-- channel.
abbrev pub IsClosed : ℕ → Panel → Type 0
IsClosed pid p =
    (p.window ≡ false)
    × (p.pdata ≡ none)
    × (p.kills ≡ pid ∷ [])
    × (p.refs ≡ 1)
    × (p.used_freed ≡ false)
    × (p.freed_twice ≡ false)

-- The monitor has been sent one SIGTERM, but the structure was used after it was freed, and freed
-- twice, and no reference to the channel is left for the watch.
abbrev pub IsBroken : ℕ → Panel → Type 0
IsBroken pid p =
    (p.window ≡ false)
    × (p.kills ≡ pid ∷ [])
    × (p.refs ≡ 0)
    × (p.used_freed ≡ true)
    × (p.freed_twice ≡ true)

close-IsClosed :
    (g : Glib) (pid : ℕ) (p : Panel)
    → p.window ≡ true
    → IsAlive (suc pid) p
    → IsClosed (suc pid) (close g p)
unfolding close on_destroy
close-IsClosed g pid p w (d, k, r, u, f, h, b) =
    rw (w, d, k, r, u, f, h) (refl, refl, refl, refl, refl, refl)

stop_monitor-IsBroken :
    (pid : ℕ) (p : Panel)
    → p.window ≡ true
    → IsAlive (suc pid) p
    → IsBroken (suc pid) (stop_monitor p)
unfolding stop_monitor on_destroy
stop_monitor-IsBroken pid p w (d, k, r, u, f, h, b) = rw (w, d, k, r) (refl, refl, refl, refl, refl)

module _ (g : Glib) where
  -- While the window is there, nothing was done to the structure.
  abbrev IsFine : ℕ → Panel → Type 0
  IsFine pid p = p.window ≡ true → IsAlive pid p

  read_step-window : (r : Lectura) (p : Panel) → (read_step g r p).window ≡ p.window
  unfolding read_step
  read_step-window r p = elim (Option-cases p.pdata) [
    | inl e ↦ rw (read_step, e) refl
    | inr (d, e) ↦ rw (read_step, e) refl
  ]

  Step-IsFine : (pid : ℕ) (p q : Panel) → Step g p q → IsFine (suc pid) p → IsFine (suc pid) q
  unfolding read_step
  Step-IsFine pid p q (reads r w) fine there =
      let alive = fine (sym (read_step-window r p) ∙ there) in
      let (d, k, refs, u, f, h, b) = alive in rw (d, b) (refl, k, refs, u, f, h, refl)
  Step-IsFine pid p q (clicks w h) fine there =
      let off = (stop_monitor-IsBroken pid p w (fine w)).0 in cc
  Step-IsFine pid p q (closes w) fine there = let off = (close-IsClosed g pid p w (fine w)).0 in cc

  Reach-IsFine :
      (pid : ℕ) (p : Panel) → Reach g (show_monitor_window (some (suc pid))) p → IsFine (suc pid) p
  unfolding show_monitor_window
  Reach-IsFine pid p here = λ there. (refl, refl, refl, refl, refl, refl, refl)
  Reach-IsFine pid p (then_step r s) = Step-IsFine pid _ p s (Reach-IsFine pid _ r)

-- Whatever lines have been read since the window was shown with a monitor, while it is there the
-- structure is as it was made. Closed by its frame, the window leaves the monitor with one SIGTERM
-- and the structure freed once. Its button "Detener Monitoreo" sends one SIGTERM too, but as it
-- destroys the window it runs the same function a second time, from within: the structure is used
-- after it is freed, and freed twice, and if the freed structure still reads as it was left, the
-- channel loses the reference that the watch holds.
pub panel_ends :
    (g : Glib) (pid : ℕ) (p : Panel)
    → Reach g (show_monitor_window (some (suc pid))) p
    → p.window ≡ true
    → IsAlive (suc pid) p × IsClosed (suc pid) (close g p) × IsBroken (suc pid) (stop_monitor p)
panel_ends g pid p r w =
    let alive = Reach-IsFine g pid p r w in
    (alive, close-IsClosed g pid p w alive, stop_monitor-IsBroken pid p w alive)
