-- ===== src/Guard/Tracker/Invariant.antt =====
-- guardia_info.c, `update_process`: what it means for the table of processes to be in order.
use antibawirus.Common.{
  take-short, get_elem-some, ℕ, zero, suc, ◌+◌, ◌*◌, ◌≤◌, ◌<◌, ◌≡◌, refl, sym, ap, ◌∙◌, ◌≢◌, inl,
  inr, Bool, false, List, [], ◌∷◌, ◌++◌, none, some, arith, ltb, ltb→lt, length, length-append,
  length-set, get_elem?, set, take, All, Bool-cases, Option-cases, map, subst,
}
use antibawirus.Common.Text.{Text, str_eq, str_eq_iff, fit}
use antibawirus.Guard.Tracker.{
  Floats, ProcessHistory, ProcessTracker, Sample, Resultado, done, salida, desborde, buscar, medido,
  registrado, ampliar, registrar, medir, update_process,
}

pub str_eq-false : (a b : Text) → str_eq a b ≡ false → a ≢ b
str_eq-false a b f e = ground (arith, str_eq_iff a b)

-- The text is not in the list.
abbrev pub Fresh : Text → List Text → Type 0
Fresh pid ps = All (λ p. p ≢ pid) ps

abbrev pub AllDistinct : List Text → Type 0
AllDistinct [] = Unit {0}
AllDistinct (p ∷ ps) = Fresh p ps × AllDistinct ps

distinct-snoc :
    (ps : List Text) (p : Text) → AllDistinct ps → Fresh p ps → AllDistinct (ps ++ (p ∷ []))
distinct-snoc [] p d f = (tt, tt)
distinct-snoc (q ∷ ps) p d f =
    (fresh-snoc ps p q d.0 (λ e. f.0 (sym e)), distinct-snoc ps p d.1 f.1)
  where
    fresh-snoc : (ps : List Text) (p q : Text) → Fresh q ps → p ≢ q → Fresh q (ps ++ (p ∷ []))
    fresh-snoc [] p q f n = (n, tt)
    fresh-snoc (r ∷ ps) p q f n = (f.0, fresh-snoc ps p q f.1 n)

module _ (fl : Floats) where
  abbrev pub pids : List (ProcessHistory fl) → List Text
  pids hs = map (λ h. h.pid) hs

  -- The pids of the slots in use.
  abbrev pub pids_of : ProcessTracker fl → List Text
  pids_of t = take t.count (pids t.processes)

  pub record IsValid (t : ProcessTracker fl) : Type 0 where
    pub slots : length t.processes ≡ t.capacity
    pub within : t.count ≤ t.capacity
    pub room : 1 ≤ t.capacity
    pub distinct : AllDistinct (pids_of t)

  buscar-none :
      (pid : Text) (hs : List (ProcessHistory fl)) (n : ℕ)
      → buscar fl pid hs n ≡ none
      → Fresh pid (take n (pids hs))
  unfolding buscar
  buscar-none pid [] zero e = tt
  buscar-none pid [] (suc n) e = tt
  buscar-none pid (h ∷ hs) zero e = tt
  buscar-none pid (h ∷ hs) (suc n) e = elim (Bool-cases (str_eq h.pid pid)) [
    | inl t ↦ cc
    | inr f ↦ elim (Option-cases (buscar fl pid hs n)) [
      | inl g ↦ (str_eq-false h.pid pid f, buscar-none pid hs n g)
      | inr (i, g) ↦ cc
    ]
  ]

  buscar-some :
      (pid : Text) (hs : List (ProcessHistory fl)) (n i : ℕ)
      → buscar fl pid hs n ≡ some i
      → (i < n) × ((h : ProcessHistory fl) × (get_elem? hs i ≡ some h) × (h.pid ≡ pid))
  unfolding buscar
  buscar-some pid [] n i e = cc
  buscar-some pid (h ∷ hs) zero i e = cc
  buscar-some pid (h ∷ hs) (suc n) zero e = elim (Bool-cases (str_eq h.pid pid)) [
    | inl t ↦ (omega arith, (h, refl, (str_eq_iff h.pid pid).0 t))
    | inr f ↦ elim (Option-cases (buscar fl pid hs n)) [ inl g ↦ cc | inr (i, g) ↦ cc ]
  ]
  buscar-some pid (h ∷ hs) (suc n) (suc i) e = elim (Bool-cases (str_eq h.pid pid)) [
    | inl t ↦ cc
    | inr f ↦
        let g : buscar fl pid hs n ≡ some i = elim (Option-cases (buscar fl pid hs n)) [
          | inl g ↦ cc
          | inr (j, g) ↦ cc
        ] in
        let r = buscar-some pid hs n i g in (omega (arith, r.0), r.1)
  ]

  -- A write that keeps the pid keeps the list of pids.
  pids-set :
      (hs : List (ProcessHistory fl)) (i : ℕ) (h v : ProcessHistory fl)
      → get_elem? hs i ≡ some h
      → v.pid ≡ h.pid
      → pids (set hs i v) ≡ pids hs
  pids-set [] i h v g e = refl
  pids-set (x ∷ hs) zero h v g e =
      let q : h ≡ x = cc in ap (λ p. p ∷ pids hs) (e ∙ ap (λ k. k.pid) q)
  pids-set (x ∷ hs) (suc i) h v g e = ap (λ r. x.pid ∷ r) (pids-set hs i h v g e)

  -- A write to the slot after the first `n` ones.
  take-set_next :
      (hs : List (ProcessHistory fl)) (n : ℕ) (v : ProcessHistory fl)
      → n < length hs
      → take (suc n) (pids (set hs n v)) ≡ take n (pids hs) ++ (v.pid ∷ [])
  take-set_next [] n v l = let z : ⊥ = omega (arith, l) in elim z [ ]
  take-set_next (x ∷ hs) zero v l = refl
  take-set_next (x ∷ hs) (suc n) v l = ap (λ r. x.pid ∷ r) (take-set_next hs n v (omega (arith, l)))

  take-append :
      (hs ks : List (ProcessHistory fl)) (n : ℕ)
      → n ≤ length hs
      → take n (pids (hs ++ ks)) ≡ take n (pids hs)
  take-append hs ks zero l = refl
  take-append [] ks (suc n) l = let z : ⊥ = omega (arith, l) in elim z [ ]
  take-append (x ∷ hs) ks (suc n) l = ap (λ r. x.pid ∷ r) (take-append hs ks n (omega (arith, l)))

  -- The call returns, and leaves a table that is in order.
  abbrev pub IsValidOutcome : Resultado fl → Type 0
  IsValidOutcome (done u) = IsValid u.tracker
  IsValidOutcome salida = ⊥
  IsValidOutcome desborde = ⊥

  -- The second table is in order, has a free slot, and the pids of the first one.
  abbrev Room : ProcessTracker fl → ProcessTracker fl → Type 0
  Room t u = IsValid u × (u.count < u.capacity) × (pids_of u ≡ pids_of t)

  ampliar-IsValid :
      (slots : List (ProcessHistory fl)) (t t' : ProcessTracker fl)
      → IsValid t
      → length slots ≡ t.capacity
      → ampliar fl (some slots) t ≡ some t'
      → Room t t'
  unfolding ampliar
  ampliar-IsValid slots t t' v l e = elim (Bool-cases (ltb t.count t.capacity)) [
    | inl b ↦ let q : t ≡ t' = cc in subst (Room t) q (v, ltb→lt t.count t.capacity b, refl)
    | inr b ↦
        let same = take-append t.processes slots t.count (omega (arith, v.slots, v.within)) in
        let q : record t { processes = t.processes ++ slots; capacity = t.capacity * 2 } ≡ t' =
          cc in
        subst (Room t) q (
          record {
            slots = omega (arith, length-append t.processes slots, v.slots, l);
            within = omega (arith, v.within);
            room = omega (arith, v.room);
            distinct = rw same v.distinct;
          },
          omega (arith, v.within, v.room),
          same,
        )
  ]

  distinct-registrado :
      (s : Sample fl) (t : ProcessTracker fl) (h : ProcessHistory fl)
      → IsValid t
      → t.count < t.capacity
      → length s.pid ≤ 14
      → Fresh s.pid (pids_of t)
      → AllDistinct (take (t.count + 1) (pids (set t.processes t.count (registrado fl s h))))
  unfolding registrado
  distinct-registrado s t h v l b f =
      let one : t.count + 1 ≡ suc t.count = omega arith in
      let next =
        take-set_next t.processes t.count (registrado fl s h) (omega (arith, v.slots, l)) in
      let own : fit 16 s.pid ≡ s.pid = take-short 15 s.pid (omega (arith, b)) in
      rw (one, next, own) (distinct-snoc (pids_of t) s.pid v.distinct f)

  ampliar-some :
      (slots : List (ProcessHistory fl)) (t : ProcessTracker fl) → ampliar fl (some slots) t ≢ none
  unfolding ampliar
  ampliar-some slots t e = elim (Bool-cases (ltb t.count t.capacity)) [ inl b ↦ cc | inr b ↦ cc ]

  registrar-IsValid :
      (s : Sample fl) (t : ProcessTracker fl)
      → IsValid t
      → t.count < t.capacity
      → length s.pid ≤ 14
      → Fresh s.pid (pids_of t)
      → IsValidOutcome (registrar fl s t)
  unfolding registrar registrado
  registrar-IsValid s t v l b f =
      let (h, g) = get_elem-some t.processes t.count (omega (arith, v.slots, l)) in
      rw (g, IsValidOutcome, registrar)
        record {
          slots = omega (arith, length-set t.processes t.count (registrado fl s h), v.slots);
          within = omega (arith, l);
          room = v.room;
          distinct = distinct-registrado s t h v l b f;
        }

  module _ (umbral_cpu : fl.Float) (lista_blanca : Text → Bool) where
    medir-IsValid :
        (s : Sample fl) (t : ProcessTracker fl) (i : ℕ)
        → IsValid t
        → i < t.count
        → IsValidOutcome (medir fl umbral_cpu lista_blanca s t i)
    unfolding medir medido
    medir-IsValid s t i v l =
        let (h, g) = get_elem-some t.processes i (omega (arith, v.slots, v.within, l)) in
        rw (g, IsValidOutcome, medir)
          record {
            slots = omega (arith, length-set t.processes i (medido fl s h), v.slots);
            within = v.within;
            room = v.room;
            distinct = rw (pids-set t.processes i h (medido fl s h) g refl) v.distinct;
          }

    -- A call of `update_process` on a table in order, with a pid of at most 14 digits and a
    -- `realloc` that gives the slots asked for, returns and leaves a table in order: it writes
    -- inside the array, and no pid stands in two slots.
    pub update_process-IsValid :
        (slots : List (ProcessHistory fl)) (s : Sample fl) (t : ProcessTracker fl)
        → IsValid t
        → length s.pid ≤ 14
        → length slots ≡ t.capacity
        → IsValidOutcome (update_process fl umbral_cpu lista_blanca (some slots) s t)
    unfolding update_process
    update_process-IsValid slots s t v b l =
        elim (Option-cases (buscar fl s.pid t.processes t.count)) [
          | inl e ↦
              rw (e, IsValidOutcome)
                elim (Option-cases (ampliar fl (some slots) t)) [
                  | inl g ↦ elim (ampliar-some slots t g) [ ]
                  | inr (t', g) ↦
                      let a = ampliar-IsValid slots t t' v l g in
                      rw (g, IsValidOutcome)
                        (registrar-IsValid s t' a.0 a.1 b
                          (subst (Fresh s.pid) (sym a.2) (buscar-none s.pid t.processes t.count e)))
                ]
          | inr (i, e) ↦
              rw (e, IsValidOutcome)
                (medir-IsValid s t i v ((buscar-some s.pid t.processes t.count i e).0))
        ]
