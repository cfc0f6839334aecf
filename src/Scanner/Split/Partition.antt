-- ===== src/Scanner/Split/Partition.antt =====
-- Ports_Scanner.c, lines 133 to 153: the ranges given to the threads, and the range asked for.
use antibawirus.Common.{
  ℕ, zero, suc, ◌+◌, ◌-◌, ◌*◌, ◌/◌, ◌%◌, ◌≤◌, ◌<◌, ◌≡◌, refl, ap, ◌∙◌, ◌⊎◌, inl, inr, Bool, true,
  false, List, [], ◌∷◌, ◌++◌, Option, none, some, arith, ltb, if◌then◌else◌, All, length, sym,
}
use Prim.Native.Nat.{min}
use native.Mathlib.Nat.{div-add-mod, mod-lt, zero-add, add-zero, suc-add, eq-or-lt_of_le}
use antibawirus.Scanner.Split.{
  Creado, falla, trabaja, terminado, ScanArgs, launch, total_ports, thread_count, start_threads,
  max_threads,
}

-- The ports from `start` on, `n` of them.
abbrev pub range : ℕ → ℕ → List ℕ
range start zero = []
range start (suc n) = start ∷ range (start + 1) n

-- The ports of one thread, as its loop counts them.
abbrev pub ports : ScanArgs → List ℕ
ports a = range a.start_port (a.end_port + 1 - a.start_port)

abbrev pub all_ports : List ScanArgs → List ℕ
all_ports [] = []
all_ports (a ∷ rest) = ports a ++ all_ports rest

range-append : (start a b : ℕ) → range start (a + b) ≡ range start a ++ range (start + a) b
range-append start zero b = rw (zero-add, add-zero)
range-append start (suc a) b = rw (suc-add, range-append (start + 1) a b, shift) refl
  where
    shift : start + 1 + a ≡ start + suc a
    shift = omega arith

-- How many ports the `n` rounds from round `i` hand out.
handed_out : ℕ → ℕ → ℕ → ℕ → ℕ
handed_out per extra zero i = 0
handed_out per extra (suc n) i =
    per + (if ltb i extra then 1 else 0) + handed_out per extra n (i + 1)

-- Each thread gets `per` ports or one more, and there is no empty range.
abbrev pub Balanced : ℕ → ScanArgs → Type 0
Balanced per a =
    (1 ≤ a.start_port)
    × ((a.end_port + 1 ≡ a.start_port + per) ⊎ (a.end_port + 1 ≡ a.start_port + per + 1))

record Launched (per extra n i start : ℕ) (r : Option (List ScanArgs)) : Type 0 where
  args : List ScanArgs
  returned : r ≡ some args
  covers : all_ports args ≡ range start (handed_out per extra n i)
  count : length args ≡ n
  balanced : All (Balanced per) args

abbrev extra_port : ℕ → ℕ → ℕ
extra_port extra i = if ltb i extra then 1 else 0

abbrev last_port : (per extra i start : ℕ) → ℕ
last_port per extra i start = start + per - 1 + extra_port extra i

-- One round, before rounds that hand out what they should.
launch-Launched-suc :
    (create : ℕ → Creado) (per extra n i start : ℕ)
    → create i ≡ trabaja
    → 1 ≤ per
    → 1 ≤ start
    → (let next = last_port per extra i start + 1 in
        Launched per extra n (i + 1) next (launch create per extra n (i + 1) next))
    → Launched per extra (suc n) i start (launch create per extra (suc n) i start)
unfolding launch handed_out
launch-Launched-suc create per extra n i start ok hp hs later = record {
  args = first ∷ later.args;
  returned = rw (launch, ok, later.returned) refl;
  covers =
      rw
        (
          later.covers,
          width,
          next,
          range-append start (per + extra_port extra i) (handed_out per extra n (i + 1)),
        )
        refl;
  count = ap suc later.count;
  balanced = ((hs, sizes (ltb i extra)), later.balanced);
}
  where
    first : ScanArgs
    first = record { start_port = start; end_port = last_port per extra i start }

    width : last_port per extra i start + 1 - start ≡ per + extra_port extra i
    width = omega arith

    next : last_port per extra i start + 1 ≡ start + (per + extra_port extra i)
    next = omega arith

    sizes :
        (b : Bool)
        → let e = start + per - 1 + (if b then 1 else 0) + 1 in
          (e ≡ start + per) ⊎ (e ≡ start + per + 1)
    sizes true = inr (omega arith)
    sizes false = inl (omega arith)

launch-Launched :
    (create : ℕ → Creado) (per extra n i start : ℕ)
    → ((k : ℕ) → create k ≡ trabaja)
    → 1 ≤ per
    → 1 ≤ start
    → Launched per extra n i start (launch create per extra n i start)
unfolding launch handed_out
launch-Launched create per extra zero i start ok hp hs = record {
  args = [];
  returned = refl;
  covers = refl;
  count = refl;
  balanced = tt;
}
launch-Launched create per extra (suc n) i start ok hp hs =
    launch-Launched-suc create per extra n i start (ok i) hp hs (
      launch-Launched create per extra n (i + 1) (last_port per extra i start + 1) ok hp
        (omega arith))

handed_out-all : (per extra n i : ℕ) → handed_out per extra n i ≡ n * per + min n (extra - i)
unfolding handed_out
handed_out-all per extra zero i = omega arith
handed_out-all per extra (suc n) i = ground (arith, handed_out-all per extra n (i + 1))

thread_count_bounds :
    (total : ℕ)
    → 1 ≤ total
    → (1 ≤ thread_count total) × (thread_count total ≤ total) × (thread_count total ≤ max_threads)
unfolding thread_count
thread_count_bounds total h = ground arith

-- Sharing `total` among `count` hands out all of it, and something to each.
split_total :
    (total count : ℕ)
    → 1 ≤ count
    → count ≤ total
    → (1 ≤ total / count) × (handed_out (total / count) (total % count) count 0 ≡ total)
split_total total count h1 h2 = (
  grind (arith, div-add-mod total count, mod-lt),
  handed_out-all (total / count) (total % count) count 0 ∙ omega (arith, div-add-mod total count),
)

-- For every range of at least one port, if each thread can be created and has not ended when `main`
-- reads its arguments again for the next round, then the threads' ranges,
-- joined in order, are the ports from the first to the last, each once; there are at most 64
-- threads; and none has an empty range, or more than one port more than another.
pub start_threads_covers :
    (create : ℕ → Creado) (first last : ℕ)
    → ((k : ℕ) → create k ≡ trabaja)
    → 1 ≤ first
    → first ≤ last
    → (args : List ScanArgs) × (start_threads create first last ≡ some args)
      × (all_ports args ≡ range first (last + 1 - first))
      × (length args ≤ max_threads)
      × ((per : ℕ) × (1 ≤ per) × All (Balanced per) args)
unfolding start_threads total_ports
start_threads_covers create first last ok h1 h2 = (
  whole.args,
  whole.returned,
  rw (whole.covers, share.1, width) refl,
  rw whole.count bounds.2,
  (per, share.0, whole.balanced),
)
  where
    total : ℕ
    total = total_ports first last

    count : ℕ
    count = thread_count total

    per : ℕ
    per = total / count

    bounds : (1 ≤ count) × (count ≤ total) × (count ≤ max_threads)
    bounds = thread_count_bounds total (omega arith)

    share : (1 ≤ per) × (handed_out per (total % count) count 0 ≡ total)
    share = split_total total count bounds.0 bounds.1

    whole :
        Launched per (total % count) count 0 first (launch create per (total % count) count 0 first)
    whole = launch-Launched create per (total % count) count 0 first ok share.0 h1

    width : total ≡ last + 1 - first
    width = omega arith

Creado-cases : (c : Creado) → (c ≡ trabaja) ⊎ (c ≡ falla) ⊎ (c ≡ terminado)
Creado-cases falla = inr (inl refl)
Creado-cases trabaja = inl refl
Creado-cases terminado = inr (inr refl)

launch-none :
    (create : ℕ → Creado) (per extra n i start k : ℕ)
    → i ≤ k
    → k < i + n
    → ¬ (create k ≡ trabaja)
    → launch create per extra n i start ≡ none
unfolding launch
launch-none create per extra zero i start k h1 h2 e = absurd (omega arith)
launch-none create per extra (suc n) i start k h1 h2 e = elim (Creado-cases (create i)) [
  | inl c ↦
      rw
        (
          launch,
          c,
          launch-none create per extra n (i + 1) (last_port per extra i start + 1) k (later c)
              (omega arith) e,
        )
        refl
  | inr (inl c) ↦ rw (launch, c) refl
  | inr (inr c) ↦ rw (launch, c) refl
]
  where
    later : create i ≡ trabaja → i + 1 ≤ k
    later c = elim (eq-or-lt_of_le h1) [
      | inl same ↦ absurd (e (ap create (sym same) ∙ c))
      | inr less ↦ omega (arith, less)
    ]

-- If in any round `pthread_create` fails, or the thread has ended before `main` reads its arguments
-- again, then `main` reads freed memory.
pub start_threads_fault :
    (create : ℕ → Creado) (first last k : ℕ)
    → k < thread_count (total_ports first last)
    → ¬ (create k ≡ trabaja)
    → start_threads create first last ≡ none
unfolding start_threads
start_threads_fault create first last k h e =
    launch-none create _ _ (thread_count (total_ports first last)) 0 first k (omega arith)
      (omega arith) e
