-- ===== src/Guard/Monitor/Laws.antt =====
-- monitor.c: the white list, and the line of /proc/meminfo that gives the size of the memory.
use antibawirus.Common.{
  ◌≡◌, refl, ap, ◌⊎◌, inl, inr, ◌↔◌, Bool, true, false, List, [], ◌∷◌, ◌++◌, Option, none, some,
  drop, All, In, Bool-cases,
}
use antibawirus.Common.Int.{ℤ, pos}
use antibawirus.Common.Text.{Text, codes, str_eq, str_eq_iff, is_prefix, fgets_lines}
use antibawirus.Common.Text.Scan.{scan_long}
use antibawirus.Guard.Monitor.{lista, en_lista, lista_blanca, mem_total, get_total_ram}

-- The texts before the null pointer.
abbrev pub names : List (Option Text) → List Text
names [] = []
names (none ∷ rest) = []
names (some n ∷ rest) = n ∷ names rest

en_lista_iff :
    (name : Text) (ls : List (Option Text)) → (en_lista name ls ≡ true) ↔ In name (names ls)
unfolding en_lista
en_lista_iff name [] = (λ h. cc, λ z. elim z [ ])
en_lista_iff name (none ∷ rest) = (λ h. cc, λ z. elim z [ ])
en_lista_iff name (some n ∷ rest) = elim (Bool-cases (str_eq name n)) [
  | inl e ↦ (λ _. inl ((str_eq_iff name n).0 e), λ _. rw e refl)
  | inr e ↦ (
    λ h. inr ((en_lista_iff name rest).0 (rw e at h)),
    λ i. elim i [
      | inl q ↦ rw ((str_eq_iff name n).1 q) refl
      | inr j ↦ rw e ((en_lista_iff name rest).1 j)
    ],
  )
]

-- A process is on the white list exactly when its name is one of the five of the source.
pub lista_blanca_iff : (name : Text) → (lista_blanca name ≡ true) ↔ In name (names lista)
unfolding lista_blanca
lista_blanca_iff name = en_lista_iff name lista

abbrev pub is_mem_total : Text → Bool
is_mem_total line = is_prefix (codes "MemTotal:") line

abbrev pub line_value : Text → ℤ
line_value line = elim (scan_long (drop 9 line)) [ none ↦ pos 0 | some (v, _) ↦ v ]

-- The first line of a list that starts with `MemTotal:`.
pub record FirstMemTotal (ls : List Text) : Type 0 where
  pub before : List Text
  pub line : Text
  pub rest : List Text
  pub split : ls ≡ before ++ (line ∷ rest)
  pub others : All (λ l. is_mem_total l ≡ false) before
  pub matches : is_mem_total line ≡ true

mem_total_cases :
    (ls : List Text)
    → (All (λ l. is_mem_total l ≡ false) ls × (mem_total ls ≡ pos 0))
      ⊎ ((f : FirstMemTotal ls) × (mem_total ls ≡ line_value f.line))
unfolding mem_total
mem_total_cases [] = inl (tt, refl)
mem_total_cases (l ∷ ls) = elim (Bool-cases (is_mem_total l)) [
  | inl e ↦ inr (
    record { before = []; line = l; rest = ls; split = refl; others = tt; matches = e },
    rw e refl,
  )
  | inr e ↦ elim (mem_total_cases ls) [
    | inl (a, m) ↦ inl ((e, a), rw (e, m) refl)
    | inr (f, m) ↦ inr (
      record {
        before = l ∷ f.before;
        line = f.line;
        rest = f.rest;
        split = ap (λ r. l ∷ r) f.split;
        others = (e, f.others);
        matches = f.matches;
      },
      rw (e, m) refl,
    )
  ]
]

-- The memory read from a file is the number of its first `MemTotal:` line, or 0 when it has none.
pub get_total_ram_cases :
    (file : Text)
    → (All (λ l. is_mem_total l ≡ false) (fgets_lines 256 file)
        × (get_total_ram (some file) ≡ pos 0))
      ⊎ ((f : FirstMemTotal (fgets_lines 256 file)) × (get_total_ram (some file)
            ≡ line_value f.line))
unfolding get_total_ram
get_total_ram_cases file = mem_total_cases (fgets_lines 256 file)
