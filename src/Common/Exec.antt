-- ===== src/Common/Exec.antt =====
-- What running C code comes to: a result, undefined behaviour such as a null pointer handed to
-- `strcmp`, or, in a model that counts its recursions, that the count was too small.

pub data Exec {ℓ} (A : Type ℓ) : Type ℓ where
  ok : A → Exec A
  crash exhausted : Exec A

infixl 5 ◌>>=◌
abbrev pub ◌>>=◌ {ℓ κ} : {A : Type ℓ} {B : Type κ} → Exec A → (A → Exec B) → Exec B
ok a >>= f = f a
crash >>= f = crash
exhausted >>= f = exhausted
