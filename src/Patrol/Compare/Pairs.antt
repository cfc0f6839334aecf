-- ===== src/Patrol/Compare/Pairs.antt =====
-- What the double loop of the comparisons collects.
use antibawirus.Common.{
  ◌≡◌, refl, inl, inr, List, [], ◌∷◌, In, In-append, In-append_left, In-append_right,
}
use antibawirus.Patrol.Files.{ArchivoInfo}
use antibawirus.Patrol.Compare.{Alert, against, each_pair}

-- A pair of the two snapshots for which the body gives the alert.
abbrev pub Pair :
    (ArchivoInfo → ArchivoInfo → List Alert) → List ArchivoInfo → List ArchivoInfo → Alert → Type 0
Pair body vs ns a = (v : ArchivoInfo) × (n : ArchivoInfo) × In v vs × In n ns × In a (body v n)

module _ (body : ArchivoInfo → ArchivoInfo → List Alert) (a : Alert) where
  In-against :
      (v : ArchivoInfo) (ns : List ArchivoInfo)
      → In a (against body v ns)
      → (n : ArchivoInfo) × In n ns × In a (body v n)
  unfolding against
  In-against v [] h = elim h [ ]
  In-against v (n ∷ ns) h = elim (In-append a (body v n) (against body v ns) h) [
    | inl l ↦ (n, inl refl, l)
    | inr r ↦ let (m, mem, here) = In-against v ns r in (m, inr mem, here)
  ]

  against-In :
      (v n : ArchivoInfo) (ns : List ArchivoInfo)
      → In n ns
      → In a (body v n)
      → In a (against body v ns)
  unfolding against
  against-In v n [] m h = elim m [ ]
  against-In v n (k ∷ ns) (inl e) h = In-append_left a (body v k) _ (rw e at h)
  against-In v n (k ∷ ns) (inr m) h = In-append_right a (body v k) _ (against-In v n ns m h)

  pub In-each_pair : (vs ns : List ArchivoInfo) → In a (each_pair body vs ns) → Pair body vs ns a
  unfolding each_pair
  In-each_pair [] ns h = elim h [ ]
  In-each_pair (v ∷ vs) ns h = elim (In-append a (against body v ns) (each_pair body vs ns) h) [
    | inl l ↦ let (n, mem, here) = In-against v ns l in (v, n, inl refl, mem, here)
    | inr r ↦ let (u, n, mu, mn, here) = In-each_pair vs ns r in (u, n, inr mu, mn, here)
  ]

  pub each_pair-In :
      (v n : ArchivoInfo) (vs ns : List ArchivoInfo)
      → In v vs
      → In n ns
      → In a (body v n)
      → In a (each_pair body vs ns)
  unfolding each_pair
  each_pair-In v n [] ns mv mn h = elim mv [ ]
  each_pair-In v n (u ∷ vs) ns (inl e) mn h =
      In-append_left a (against body u ns) _ (against-In u n ns mn (rw e at h))
  each_pair-In v n (u ∷ vs) ns (inr m) mn h =
      In-append_right a (against body u ns) _ (each_pair-In v n vs ns m mn h)

-- A double loop whose body gives nothing collects nothing.
pub each_pair-nil :
    (body : ArchivoInfo → ArchivoInfo → List Alert) (vs ns : List ArchivoInfo)
    → ((v n : ArchivoInfo) → In v vs → In n ns → body v n ≡ [])
    → each_pair body vs ns ≡ []
unfolding each_pair
each_pair-nil body [] ns h = refl
each_pair-nil body (v ∷ vs) ns h =
    rw (nothing ns (λ n m. h v n (inl refl) m), each_pair-nil body vs ns (λ u n m. h u n (inr m)))
      refl
  where
    nothing :
        (ms : List ArchivoInfo)
        → ((n : ArchivoInfo) → In n ms → body v n ≡ [])
        → against body v ms ≡ []
    nothing [] g = refl
    nothing (n ∷ ms) g = rw (g n (inl refl), nothing ms (λ k m. g k (inr m))) refl
