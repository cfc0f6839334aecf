-- ===== src/Guard/Tracker/Stale.antt =====
-- guardia_info.c: what the second sample of a process is compared with.
use antibawirus.Common.{
  ℕ, zero, suc, ◌+◌, ◌≤◌, ◌<◌, ◌≡◌, ◌≢◌, refl, ◌↔◌, inl, inr, Bool, true, false, ◌&&◌, not, List,
  [], ◌∷◌, ◌++◌, none, some, arith, lt→ltb, if◌then◌else◌, length, get_elem?, set, take, In,
  Bool-cases, take-short,
}
use antibawirus.Common.Text.{Text, str_eq, str_eq_iff, str_eq_refl, fit}
use antibawirus.Common.Int.{pos, ◌-ℤ◌}
use antibawirus.Guard.Tracker.{
  medido, Floats, ProcessHistory, ProcessTracker, Sample, Spike, pico_ram, pico_cpu, Updated,
  Resultado, done, salida, desborde, buscar, registrado, ampliar, registrar, picos, medir, uso_cpu,
  update_process,
}
use antibawirus.Guard.Tracker.Invariant.{IsValid, Fresh, pids, pids_of}

str_eq-false_of : (a b : Text) → a ≢ b → str_eq a b ≡ false
str_eq-false_of a b n = elim (Bool-cases (str_eq a b)) [
  | inl e ↦ elim (n ((str_eq_iff a b).0 e)) [ ]
  | inr e ↦ e
]

In-two :
    {A : Type 0} (c d : Bool) (x y : A)
    → y ≢ x
    → In y ((if c then x ∷ [] else []) ++ (if d then y ∷ [] else [])) ↔ (d ≡ true)
In-two true true x y n = (λ _. refl, λ _. inr (inl refl))
In-two true false x y n = (λ i. elim i [ inl e ↦ elim (n e) [ ] | inr z ↦ elim z [ ] ], λ e. cc)
In-two false true x y n = (λ _. refl, λ _. inl refl)
In-two false false x y n = (λ z. elim z [ ], λ e. cc)

and-not : (a b : Bool) → ((a && not b) ≡ true) ↔ ((a ≡ true) × (b ≡ false))
and-not a b = ground arith

module _ (fl : Floats) where
  buscar-Fresh :
      (pid : Text) (hs : List (ProcessHistory fl)) (n : ℕ)
      → Fresh pid (take n (pids fl hs))
      → buscar fl pid hs n ≡ none
  unfolding buscar
  buscar-Fresh pid [] n f = refl
  buscar-Fresh pid (h ∷ hs) zero f = refl
  buscar-Fresh pid (h ∷ hs) (suc n) f =
      rw (str_eq-false_of h.pid pid f.0, buscar-Fresh pid hs n f.1) refl

  buscar-next :
      (pid : Text) (hs : List (ProcessHistory fl)) (n : ℕ) (v : ProcessHistory fl)
      → Fresh pid (take n (pids fl hs))
      → n < length hs
      → v.pid ≡ pid
      → buscar fl pid (set hs n v) (suc n) ≡ some n
  unfolding buscar
  buscar-next pid [] n v f l e = let z : ⊥ = omega (arith, l) in elim z [ ]
  buscar-next pid (h ∷ hs) zero v f l e = rw (e, str_eq_refl pid) refl
  buscar-next pid (h ∷ hs) (suc n) v f l e =
      rw (str_eq-false_of h.pid pid f.0, buscar-next pid hs n v f.1 (omega (arith, l)) e) refl

  get_elem-set :
      (hs : List (ProcessHistory fl)) (n : ℕ) (v : ProcessHistory fl)
      → n < length hs
      → get_elem? (set hs n v) n ≡ some v
  get_elem-set [] n v l = let z : ⊥ = omega (arith, l) in elim z [ ]
  get_elem-set (x ∷ hs) zero v l = refl
  get_elem-set (x ∷ hs) (suc n) v l = get_elem-set hs n v (omega (arith, l))

  module _ (umbral_cpu : fl.Float) (lista_blanca : Text → Bool) where
    ram≢cpu :
        (a b c d : fl.Float) (name pid : Text)
        → ◌≢◌ {A = Spike fl} (pico_ram a b name pid) (pico_cpu c d name pid)
    ram≢cpu a b c d name pid e = cc

    -- Two calls in a row, on a table that has room.
    unfoldable pub dos_muestras : Sample fl → Sample fl → ProcessTracker fl → Resultado fl
    dos_muestras s s' t = elim (update_process fl umbral_cpu lista_blanca none s t) [
      | done u ↦ update_process fl umbral_cpu lista_blanca none s' u.tracker
      | salida ↦ salida
      | desborde ↦ desborde
    ]

    In-picos :
        (s : Sample fl) (h : ProcessHistory fl)
        → In
            (pico_ram s.ram_percent (fl.of_long h.prev_ram_percent) s.name s.pid)
            (picos fl umbral_cpu lista_blanca s h)
          ↔ ((fl.exceeds s.ram_percent (fl.of_long h.prev_ram_percent) fl.ten ≡ true)
              × (lista_blanca s.name ≡ false))
    unfolding picos
    In-picos s h =
        let two =
          In-two (fl.exceeds (uso_cpu fl s h) h.prev_cpu umbral_cpu && not (lista_blanca s.name))
            (fl.exceeds s.ram_percent (fl.of_long h.prev_ram_percent) fl.ten
              && not (lista_blanca s.name))
            (pico_cpu (uso_cpu fl s h) h.prev_cpu s.name s.pid)
            (pico_ram s.ram_percent (fl.of_long h.prev_ram_percent) s.name s.pid)
            (ram≢cpu s.ram_percent (fl.of_long h.prev_ram_percent) (uso_cpu fl s h) h.prev_cpu
              s.name s.pid) in
        let both =
          and-not (fl.exceeds s.ram_percent (fl.of_long h.prev_ram_percent) fl.ten)
            (lista_blanca s.name) in
        (λ i. both.0 (two.0 i), λ i. two.1 (both.1 i))

    -- When a table in order, with a free slot and without the pid, takes two samples of that pid
    -- (of at most 14 digits), the second prints a RAM peak against the value that the free slot held
    -- before the first one exactly when its own value exceeds that one by more than ten and the name
    -- is not on the white list.
    pub second_sample :
        (s s' : Sample fl) (t : ProcessTracker fl) (h : ProcessHistory fl)
        → IsValid fl t
        → t.count < t.capacity
        → Fresh s.pid (pids_of fl t)
        → length s.pid ≤ 14
        → s'.pid ≡ s.pid
        → get_elem? t.processes t.count ≡ some h
        → (u : Updated fl) × (dos_muestras s s' t ≡ done u)
          × (In (pico_ram s'.ram_percent (fl.of_long h.prev_ram_percent) s'.name s'.pid) u.printed
              ↔ ((fl.exceeds s'.ram_percent (fl.of_long h.prev_ram_percent) fl.ten ≡ true)
                  × (lista_blanca s'.name ≡ false)))
    unfolding dos_muestras update_process registrar registrado ampliar medir
    second_sample s s' t h v l f b e g =
        let n = t.count in
        let none_yet : buscar fl s.pid t.processes n ≡ none = buscar-Fresh s.pid t.processes n f in
        let fits : n < length t.processes = omega (arith, v.slots, l) in
        let own : fit 16 s.pid ≡ s.pid = take-short 15 s.pid (omega (arith, b)) in
        let wide : ampliar fl none t ≡ some t = rw (lt→ltb n t.capacity l, ampliar) refl in
        let r = registrado fl s h in
        let t1 : ProcessTracker fl = record t { processes = set t.processes n r; count = n + 1 } in
        let first : update_process fl umbral_cpu lista_blanca none s t ≡ registrar fl s t =
          rw (none_yet, update_process, wide) refl in
        let stored : registrar fl s t
            ≡ done (record {
              tracker = t1;
              cpu_out = fl.zero_f;
              delta_proc_out = pos 0;
              printed = [];
            }) =
          rw (g, registrar) refl in
        let one : n + 1 ≡ suc n = omega arith in
        let found : buscar fl s'.pid t1.processes t1.count ≡ some n =
          rw (e, one) (buscar-next s.pid t.processes n r f fits own) in
        let slot : get_elem? t1.processes n ≡ some r = get_elem-set t.processes n r fits in
        let u : Updated fl = record {
          tracker = record t1 { processes = set t1.processes n (medido fl s' r) };
          cpu_out = uso_cpu fl s' r;
          delta_proc_out = s'.current_proc_time -ℤ r.prev_proc_time;
          printed = picos fl umbral_cpu lista_blanca s' r;
        } in
        let second : update_process fl umbral_cpu lista_blanca none s' t1 ≡ done u =
          rw (found, update_process, slot, medir) refl in
        (u, rw (first, dos_muestras, stored) second, In-picos s' r)
