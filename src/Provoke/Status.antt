-- ===== src/Provoke/Status.antt =====
-- The exit status of a run of the small programs.
use antibawirus.Common.{ℕ, ◌≡◌, ap, arith}

-- A run that ends with status 1 is none that ends with status 0.
pub failed_only : {A : Type 0} (s s' : A) → ¬ (◌≡◌ {A = ℕ × A} (1, s) (0, s'))
failed_only s s' e = let h : 1 ≡ 0 = ap (λ r. r.0) e in omega (arith, h)
