-- ===== src/Scanner/Ports/Laws.antt =====
-- What the lines of the scanner say: which class a port falls in, and that a range can be cut.
use antibawirus.Common.{
  ℕ, zero, suc, ◌+◌, ◌≡◌, refl, ◌⊎◌, inl, inr, String, List, [], ◌∷◌, ◌++◌, none, some, arith, In,
  Option-cases,
}
use mathlib.Core.List.{append_assoc}
use native.Mathlib.Nat.{zero-add, add-zero, suc-add}
use antibawirus.Scanner.Ports.{
  Service, common_services, risk_ports, search_table, alert_risk, alert_nonstandard, fine, report,
  Net, scan_ports,
}

-- The ports that a table names.
abbrev pub ports_of : List Service → List ℕ
ports_of [] = []
ports_of (s ∷ rest) = elim s.service [ none ↦ [] | some _ ↦ s.port ∷ ports_of rest ]

found-In :
    (t : List Service) (p : ℕ) {name : String} → search_table t p ≡ some name → In p (ports_of t)
unfolding search_table
found-In [] p h = cc
found-In (s ∷ rest) p {name} h = elim (Option-cases s.service) [
  | inl e ↦ cc (rw (e, search_table) at h)
  | inr (n, e) ↦
      rw (e, ports_of) (ground (arith, rw (e, search_table) at h, found-In rest p {name = name}))
]

missing-not-In : (t : List Service) (p : ℕ) → search_table t p ≡ none → ¬ In p (ports_of t)
unfolding search_table
missing-not-In [] p h m = m
missing-not-In (s ∷ rest) p h m = elim (Option-cases s.service) [
  | inl e ↦ rw (e, ports_of) at m
  | inr (n, e) ↦
      ground (arith, rw (e, ports_of) at m, rw (e, search_table) at h, missing-not-In rest p)
]

pub scan_ports-zero : (net : Net) (port : ℕ) → [] ≡ scan_ports net port zero
unfolding scan_ports
scan_ports-zero net port = refl

pub scan_ports-append :
    (net : Net) (port a b : ℕ)
    → scan_ports net port (a + b) ≡ scan_ports net port a ++ scan_ports net (port + a) b
unfolding scan_ports
scan_ports-append net port zero b = rw (zero-add, add-zero)
scan_ports-append net port (suc a) b =
    rw (suc-add, scan_ports-append net (port + 1) a b, append_assoc, shift) refl
  where
    shift : port + 1 + a ≡ port + suc a
    shift = omega arith

abbrev pub common_ports : List ℕ
common_ports = 20 ∷ 21 ∷ 22 ∷ 23 ∷ 25 ∷ 53 ∷ 80 ∷ 110 ∷ 143 ∷ 443 ∷ 445 ∷ 3306 ∷ 3389 ∷ []

abbrev pub dangerous_ports : List ℕ
dangerous_ports = 4444 ∷ 31337 ∷ 6667 ∷ 8080 ∷ 9999 ∷ []

-- The line printed for an open port falls in one of three classes: [OK] for the ports of
-- the first table, the risk alert for those of the second, and else the alert on a non-standard
-- service, whose name is always "Desconocido".
pub report_cases :
    (p : ℕ)
    → (In p common_ports × ((name : String) × (report p ≡ fine p name)))
      ⊎ (In p dangerous_ports × ((name : String) × (report p ≡ alert_risk p name)))
      ⊎ ((¬ In p common_ports)
          × (¬ In p dangerous_ports)
          × (report p ≡ alert_nonstandard p "Desconocido"))
unfolding report
report_cases p = elim (Option-cases (search_table common_services p)) [
  | inl e ↦ elim (Option-cases (search_table risk_ports p)) [
    | inl f ↦ inr (
        inr
          (missing-not-In common_services p e, missing-not-In risk_ports p f, ground (arith, e, f)))
    | inr (n, f) ↦ inr (inl (found-In risk_ports p f, (n, ground (arith, e, f))))
  ]
  | inr (n, e) ↦ inl (found-In common_services p e, (n, ground (arith, e)))
]
