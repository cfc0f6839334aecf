-- ===== src/Guard/Tracker/Cleanup.antt =====
-- `cleanup` of guardia_info.c: what is left of the table.
use antibawirus.Common.{
  get_elem-some, ℕ, zero, suc, ◌+◌, ◌-◌, ◌≤◌, ◌<◌, ◌≡◌, refl, sym, ap, Bool, true, false, List, [],
  ◌∷◌, ◌++◌, some, arith, ltb, ltb→lt, if◌then◌else◌, length, length-set, get_elem?, set, take,
  drop, Bool-cases, subst, inl, inr,
}
use mathlib.Core.List.{Perm, Permᴰ, perm_middle, append_assoc, append-nil}
use mathlib.Core.List.Permᴰ
use mathlib.Core.Logic.{∥∥₁_map}
use mathlib.Core.List.Perm
use antibawirus.Common.Text.{Text}
use antibawirus.Guard.Tracker.{Floats, ProcessHistory, ProcessTracker, limpiar, cleanup}
use antibawirus.Guard.Tracker.Invariant.{IsValid}

module _ {A : Type 0} where
  -- The elements that pass the test, in their order.
  abbrev pub keep : (A → Bool) → List A → List A
  keep p [] = []
  keep p (x ∷ xs) = if p x then x ∷ keep p xs else keep p xs

  keep-swap :
      (p : A → Bool) (a b : A) (l : List A) → Permᴰ (keep p (a ∷ b ∷ l)) (keep p (b ∷ a ∷ l))
  keep-swap p a b l = elim (Bool-cases (p a)) [
    | inl e ↦ elim (Bool-cases (p b)) [
      | inl f ↦ rw (e, f) (Permᴰ.swap refl refl)
      | inr f ↦ rw (e, f) (Permᴰ.refl (a ∷ keep p l))
    ]
    | inr e ↦ elim (Bool-cases (p b)) [
      | inl f ↦ rw (e, f) (Permᴰ.refl (b ∷ keep p l))
      | inr f ↦ rw (e, f) (Permᴰ.refl (keep p l))
    ]
  ]

  keep-cons :
      (p : A → Bool) (x : A) (xs ys : List A)
      → Permᴰ (keep p xs) (keep p ys)
      → Permᴰ (keep p (x ∷ xs)) (keep p (x ∷ ys))
  keep-cons p x xs ys q = elim (Bool-cases (p x)) [
    | inl e ↦ rw e (Permᴰ.cons refl q)
    | inr e ↦ rw e q
  ]

  keep-permᴰ : (p : A → Bool) {xs ys : List A} → Permᴰ xs ys → Permᴰ (keep p xs) (keep p ys)
  keep-permᴰ p Permᴰ.nil = Permᴰ.nil
  keep-permᴰ p (Permᴰ.cons {a = a} {b = b} {l₁ = l} {l₂ = m} e q) =
      rw (sym e) (keep-cons p a l m (keep-permᴰ p q))
  keep-permᴰ p (Permᴰ.swap {a = a} {b = b} {l = l} e f) = rw (sym e, sym f) (keep-swap p a b l)
  keep-permᴰ p (Permᴰ.trans q r) = Permᴰ.trans (keep-permᴰ p q) (keep-permᴰ p r)

  keep-perm : (p : A → Bool) {xs ys : List A} → Perm xs ys → Perm (keep p xs) (keep p ys)
  keep-perm p q = ∥∥₁_map q (keep-permᴰ p)

  pub take-last :
      (xs : List A) (m : ℕ) (v : A)
      → get_elem? xs m ≡ some v
      → take (suc m) xs ≡ take m xs ++ (v ∷ [])
  take-last [] m v g = cc
  take-last (x ∷ xs) zero v g = let q : x ≡ v = cc in ap (λ r. r ∷ []) q
  take-last (x ∷ xs) (suc m) v g = ap (λ r. x ∷ r) (take-last xs m v g)

  -- The last of `suc m` elements takes the place of the one at `i`.
  take-swap :
      (xs : List A) (i m : ℕ) (v : A)
      → i ≤ m
      → take i (take m (set xs i v)) ≡ take i (take (suc m) xs)
  take-swap [] zero m v l = refl
  take-swap [] (suc i) (suc m) v l = refl
  take-swap [] (suc i) zero v l = refl
  take-swap (x ∷ xs) zero m v l = refl
  take-swap (x ∷ xs) (suc i) zero v l = let z : ⊥ = omega (arith, l) in elim z [ ]
  take-swap (x ∷ xs) (suc i) (suc m) v l = ap (λ r. x ∷ r) (take-swap xs i m v (omega (arith, l)))

  drop-swap :
      (xs : List A) (i m : ℕ) (v : A)
      → i ≤ m
      → get_elem? xs m ≡ some v
      → Perm (drop i (take m (set xs i v))) (drop (suc i) (take (suc m) xs))
  drop-swap [] i m v l g = cc
  drop-swap (x ∷ xs) zero zero v l g = Perm.nil
  drop-swap (x ∷ xs) zero (suc m) v l g = rw (take-last xs m v g) (
      subst (λ r. Perm (v ∷ r) (take m xs ++ (v ∷ []))) (append-nil (take m xs))
        (Perm.symm (perm_middle (take m xs) [])))
  drop-swap (x ∷ xs) (suc i) zero v l g = let z : ⊥ = omega (arith, l) in elim z [ ]
  drop-swap (x ∷ xs) (suc i) (suc m) v l g = drop-swap xs i m v (omega (arith, l)) g

  -- The list split at one of its elements.
  take-next :
      (xs : List A) (i n : ℕ) (x : A)
      → i < n
      → get_elem? xs i ≡ some x
      → take (suc i) (take n xs) ≡ take i (take n xs) ++ (x ∷ [])
  take-next [] i n x l g = cc
  take-next xs i zero x l g = let z : ⊥ = omega (arith, l) in elim z [ ]
  take-next (y ∷ xs) zero (suc n) x l g = let q : y ≡ x = cc in ap (λ r. r ∷ []) q
  take-next (y ∷ xs) (suc i) (suc n) x l g =
      ap (λ r. y ∷ r) (take-next xs i n x (omega (arith, l)) g)

  drop-next :
      (xs : List A) (i n : ℕ) (x : A)
      → i < n
      → get_elem? xs i ≡ some x
      → drop i (take n xs) ≡ x ∷ drop (suc i) (take n xs)
  drop-next [] i n x l g = cc
  drop-next xs i zero x l g = let z : ⊥ = omega (arith, l) in elim z [ ]
  drop-next (y ∷ xs) zero (suc n) x l g = let q : y ≡ x = cc in ap (λ r. r ∷ take n xs) q
  drop-next (y ∷ xs) (suc i) (suc n) x l g = drop-next xs i n x (omega (arith, l)) g

  -- Done at the end of the list.
  split-done :
      (p : A → Bool) (xs : List A) (i n : ℕ)
      → n ≤ i
      → take i (take n xs) ++ keep p (drop i (take n xs)) ≡ take n xs
  split-done p xs zero zero l = refl
  split-done p xs (suc i) zero l = refl
  split-done p xs zero (suc n) l = let z : ⊥ = omega (arith, l) in elim z [ ]
  split-done p [] (suc i) (suc n) l = refl
  split-done p (x ∷ xs) (suc i) (suc n) l = ap (λ r. x ∷ r) (split-done p xs i n (omega (arith, l)))

  -- An element that stays moves to the part that is done.
  split-keep :
      (p : A → Bool) (xs : List A) (i n : ℕ) (x : A)
      → i < n
      → get_elem? xs i ≡ some x
      → p x ≡ true
      → take (suc i) (take n xs) ++ keep p (drop (suc i) (take n xs))
        ≡ take i (take n xs) ++ keep p (drop i (take n xs))
  split-keep p xs i n x l g e =
      rw (take-next xs i n x l g, drop-next xs i n x l g, e)
        (append_assoc (take i (take n xs)) (x ∷ []) (keep p (drop (suc i) (take n xs))))

  -- An element that goes is replaced by the last one.
  split-swap :
      (p : A → Bool) (xs : List A) (i m : ℕ) (x v : A)
      → i ≤ m
      → get_elem? xs i ≡ some x
      → get_elem? xs m ≡ some v
      → p x ≡ false
      → Perm
          (take i (take m (set xs i v)) ++ keep p (drop i (take m (set xs i v))))
          (take i (take (suc m) xs) ++ keep p (drop i (take (suc m) xs)))
  split-swap p xs i m x v l g k e =
      rw (take-swap xs i m v l, drop-next xs i (suc m) x (omega (arith, l)) g, e)
        (Perm.append_left (take i (take (suc m) xs)) (keep-perm p (drop-swap xs i m v l k)))

ltb-false : (a b : ℕ) → ltb a b ≡ false → b ≤ a
ltb-false a b h = ground arith

-- The slots in use.
abbrev pub active : (fl : Floats) → ProcessTracker fl → List (ProcessHistory fl)
active fl t = take t.count t.processes

module _ (fl : Floats) (pid_exists : Text → Bool) where
  abbrev alive : ProcessHistory fl → Bool
  alive h = pid_exists h.pid

  limpiar-keep :
      (fuel i : ℕ) (t : ProcessTracker fl)
      → t.count ≤ length t.processes
      → i ≤ t.count
      → t.count - i ≤ fuel
      → Perm
          (active fl (limpiar fl pid_exists fuel i t))
          (take i (active fl t) ++ keep alive (drop i (active fl t)))
  unfolding limpiar
  limpiar-keep zero i t w l f =
      subst (Perm (active fl t)) (sym (split-done alive t.processes i t.count (omega (arith, f))))
        (Perm.refl (active fl t))
  limpiar-keep (suc fuel) i t w l f = elim (Bool-cases (ltb i t.count)) [
    | inl b ↦
        let c = ltb→lt i t.count b in
        let (h, g) = get_elem-some t.processes i (omega (arith, c, w)) in
        elim (Bool-cases (pid_exists h.pid)) [
          | inl e ↦
              let one : i + 1 ≡ suc i = omega arith in
              let step = split-keep alive t.processes i t.count h c g e in
              let q : limpiar fl pid_exists (suc fuel) i t ≡ limpiar fl pid_exists fuel (suc i) t =
                rw (b, limpiar, g, e, one) refl in
              rw q (subst (Perm _) step (limpiar-keep fuel (suc i) t w c (omega (arith, f))))
          | inr e ↦
              let (last, k) = get_elem-some t.processes (t.count - 1) (omega (arith, c, w)) in
              let all : suc (t.count - 1) ≡ t.count = omega (arith, c) in
              let step =
                split-swap alive t.processes i (t.count - 1) h last (omega (arith, c)) g k e in
              let t' : ProcessTracker fl = record t {
                processes = set t.processes i last;
                count = t.count - 1;
              } in
              let rest =
                limpiar-keep fuel i t' (omega (arith, w, length-set t.processes i last))
                  (omega (arith, c)) (omega (arith, f, c)) in
              let q : limpiar fl pid_exists (suc fuel) i t ≡ limpiar fl pid_exists fuel i t' =
                rw (b, limpiar, g, e, k) refl in
              rw q (Perm.trans rest (rw all at step))
        ]
    | inr b ↦
        let q : limpiar fl pid_exists (suc fuel) i t ≡ t = rw (b, limpiar) refl in
        rw q (
          subst (Perm (active fl t))
            (sym (split-done alive t.processes i t.count (ltb-false i t.count b)))
            (Perm.refl (active fl t)))
  ]

  -- On a table in order, `cleanup` keeps the slots of the processes that still exist, each with
  -- what it held, and no other, though maybe in another order.
  pub cleanup-keep :
      (t : ProcessTracker fl)
      → IsValid fl t
      → Perm (active fl (cleanup fl pid_exists t)) (keep alive (active fl t))
  unfolding cleanup
  cleanup-keep t v =
      limpiar-keep t.count 0 t (omega (arith, v.slots, v.within)) (omega arith) (omega arith)
