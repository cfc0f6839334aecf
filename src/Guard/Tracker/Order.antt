-- ===== src/Guard/Tracker/Order.antt =====
-- guardia_info.c: the table of processes stays in order under `cleanup`, and starts in order.
use antibawirus.Common.{
  get_elem-some, ℕ, zero, suc, ◌+◌, ◌-◌, ◌≤◌, ◌<◌, ◌≡◌, ◌≢◌, refl, sym, ap, Bool, List, [], ◌∷◌,
  ◌++◌, some, arith, ltb, ltb→lt, length, length-set, get_elem?, set, take, Bool-cases, subst, inl,
  inr,
}
use antibawirus.Common.Text.{Text}
use antibawirus.Guard.Tracker.{
  Floats, ProcessHistory, ProcessTracker, init_tracker, limpiar, cleanup,
}
use antibawirus.Guard.Tracker.Invariant.{Fresh, AllDistinct, pids, IsValid}
use antibawirus.Guard.Tracker.Cleanup.{take-last}

Fresh-last : (q v : Text) (xs : List Text) → Fresh q (xs ++ (v ∷ [])) → Fresh q xs × (v ≢ q)
Fresh-last q v [] f = (tt, f.0)
Fresh-last q v (x ∷ xs) f = let (a, b) = Fresh-last q v xs f.1 in ((f.0, a), b)

distinct-last :
    (v : Text) (xs : List Text) → AllDistinct (xs ++ (v ∷ [])) → AllDistinct xs × Fresh v xs
distinct-last v [] d = (tt, tt)
distinct-last v (x ∷ xs) d =
    let (a, b) = Fresh-last x v xs d.0 in
    let (c, f) = distinct-last v xs d.1 in ((a, c), (λ e. b (sym e), f))

-- The last of `suc m` texts takes the place of another one.
Fresh-swap :
    (q v : Text) (ps : List Text) (i m : ℕ)
    → i ≤ m
    → get_elem? ps m ≡ some v
    → Fresh q (take (suc m) ps)
    → Fresh q (take m (set ps i v))
Fresh-swap q v [] i m l g f = cc
Fresh-swap q v (p ∷ ps) i zero l g f = tt
Fresh-swap q v (p ∷ ps) zero (suc m) l g f =
    let (a, b) = Fresh-last q v (take m ps) (rw (take-last ps m v g) at f.1) in (b, a)
Fresh-swap q v (p ∷ ps) (suc i) (suc m) l g f =
    (f.0, Fresh-swap q v ps i m (omega (arith, l)) g f.1)

distinct-swap :
    (v : Text) (ps : List Text) (i m : ℕ)
    → i ≤ m
    → get_elem? ps m ≡ some v
    → AllDistinct (take (suc m) ps)
    → AllDistinct (take m (set ps i v))
distinct-swap v [] i m l g d = cc
distinct-swap v (p ∷ ps) i zero l g d = tt
distinct-swap v (p ∷ ps) zero (suc m) l g d =
    let (a, b) = distinct-last v (take m ps) (rw (take-last ps m v g) at d.1) in (b, a)
distinct-swap v (p ∷ ps) (suc i) (suc m) l g d = (
  Fresh-swap p v ps i m (omega (arith, l)) g d.0,
  distinct-swap v ps i m (omega (arith, l)) g d.1,
)

module _ (fl : Floats) where
  pids-set_any :
      (hs : List (ProcessHistory fl)) (i : ℕ) (h : ProcessHistory fl)
      → pids fl (set hs i h) ≡ set (pids fl hs) i h.pid
  pids-set_any [] i h = refl
  pids-set_any (x ∷ hs) zero h = refl
  pids-set_any (x ∷ hs) (suc i) h = ap (λ r. x.pid ∷ r) (pids-set_any hs i h)

  get_elem-pids :
      (hs : List (ProcessHistory fl)) (i : ℕ) (h : ProcessHistory fl)
      → get_elem? hs i ≡ some h
      → get_elem? (pids fl hs) i ≡ some h.pid
  get_elem-pids [] i h g = cc
  get_elem-pids (x ∷ hs) zero h g = let q : x ≡ h = cc in ap (λ k. some k.pid) q
  get_elem-pids (x ∷ hs) (suc i) h g = get_elem-pids hs i h g

  drop-IsValid :
      (t : ProcessTracker fl) (i : ℕ) (last : ProcessHistory fl)
      → IsValid fl t
      → i < t.count
      → get_elem? t.processes (t.count - 1) ≡ some last
      → IsValid fl (record t { processes = set t.processes i last; count = t.count - 1 })
  drop-IsValid t i last v l g =
      let whole : suc (t.count - 1) ≡ t.count = omega (arith, l) in
      let d : AllDistinct (take (suc (t.count - 1)) (pids fl t.processes)) = rw whole v.distinct in
      record {
        slots = omega (arith, length-set t.processes i last, v.slots);
        within = omega (arith, v.within);
        room = v.room;
        distinct = rw (pids-set_any t.processes i last) (
            distinct-swap last.pid (pids fl t.processes) i (t.count - 1) (omega (arith, l))
              (get_elem-pids t.processes (t.count - 1) last g) d);
      }

  limpiar-IsValid :
      (access : Text → Bool) (fuel i : ℕ) (t : ProcessTracker fl)
      → IsValid fl t
      → IsValid fl (limpiar fl access fuel i t)
  unfolding limpiar
  limpiar-IsValid access zero i t v = v
  limpiar-IsValid access (suc fuel) i t v = elim (Bool-cases (ltb i t.count)) [
    | inr b ↦ rw (b, limpiar) v
    | inl b ↦
        let c = ltb→lt i t.count b in
        let (h, g) = get_elem-some t.processes i (omega (arith, c, v.slots, v.within)) in
        elim (Bool-cases (access h.pid)) [
          | inl e ↦ rw (b, limpiar, g, e) (limpiar-IsValid access fuel (i + 1) t v)
          | inr e ↦
              let (last, k) =
                get_elem-some t.processes (t.count - 1) (omega (arith, c, v.slots, v.within)) in
              rw (b, limpiar, g, e, k)
                (limpiar-IsValid access fuel i
                  (record t { processes = set t.processes i last; count = t.count - 1 })
                  (drop-IsValid t i last v c k))
        ]
  ]

  pub cleanup-IsValid :
      (access : Text → Bool) (t : ProcessTracker fl)
      → IsValid fl t
      → IsValid fl (cleanup fl access t)
  unfolding cleanup
  cleanup-IsValid access t v = limpiar-IsValid access t.count 0 t v

  pub init_tracker-IsValid :
      (slots : List (ProcessHistory fl)) (t : ProcessTracker fl)
      → length slots ≡ 32
      → init_tracker fl (some slots) ≡ some t
      → IsValid fl t
  unfolding init_tracker
  init_tracker-IsValid slots t l e =
      let q : record { processes = slots; count = 0; capacity = 32 } ≡ t = cc in
      subst (IsValid fl) q
        (record { slots = l; within = omega arith; room = omega arith; distinct = tt })
