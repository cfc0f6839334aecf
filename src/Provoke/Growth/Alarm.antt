-- ===== src/Provoke/Growth/Alarm.antt =====
-- aumentar.c and Fronteras.c: the growth of the file, and the alert that it provokes.
use antibawirus.Common.{
  ℕ, zero, suc, ◌+◌, ◌*◌, ◌≤◌, ◌<◌, ◌≡◌, refl, inl, inr, List, [], ◌∷◌, arith, ltb, Bool-cases, In,
}
use antibawirus.Common.Int.{pos, ◌-ℤ◌}
use antibawirus.Patrol.Files.{ArchivoInfo}
use antibawirus.Patrol.Compare.{grown, growth_limit, tamano}
use antibawirus.Patrol.Files.Laws.{SameFile}
use antibawirus.Patrol.Compare.Changes.{tamano_iff}
use antibawirus.Provoke.Growth.{bytes_a_escribir, escribir, aumentar, total_bytes, buffer_size}

abbrev pub sum : List ℕ → ℕ
sum [] = 0
sum (n ∷ ns) = n + sum ns

bytes_bounds :
    (e : ℕ)
    → e < total_bytes
    → (bytes_a_escribir e ≤ buffer_size) × (e + bytes_a_escribir e ≤ total_bytes)
unfolding bytes_a_escribir
bytes_bounds e h = (ground arith, ground arith)

-- A block that does not fill the buffer is the last one.
bytes_full :
    (e : ℕ)
    → e < total_bytes
    → bytes_a_escribir e < buffer_size
    → e + bytes_a_escribir e ≡ total_bytes
unfolding bytes_a_escribir
bytes_full e h l = ground arith

enough_left :
    (fuel e : ℕ)
    → e < total_bytes
    → total_bytes ≤ e + suc fuel * buffer_size
    → total_bytes ≤ e + bytes_a_escribir e + fuel * buffer_size
enough_left fuel e h l = elim (Bool-cases (ltb (bytes_a_escribir e) buffer_size)) [
  | inl b ↦ let last = bytes_full e h (ground (arith, b)) in omega (arith, last)
  | inr b ↦
      let full : buffer_size ≤ bytes_a_escribir e = ground (arith, b) in omega (arith, full, l)
]

escribir-sum :
    (fuel e : ℕ)
    → e ≤ total_bytes
    → total_bytes ≤ e + fuel * buffer_size
    → e + sum (escribir fuel e) ≡ total_bytes
unfolding escribir
escribir-sum zero e h l = omega (arith, h, l)
escribir-sum (suc fuel) e h l = elim (Bool-cases (ltb e total_bytes)) [
  | inl b ↦
      let below : e < total_bytes = ground (arith, b) in
      let (_, fits) = bytes_bounds e below in
      let enough : total_bytes ≤ e + bytes_a_escribir e + fuel * buffer_size =
        enough_left fuel e below l in
      rw b (omega (arith, escribir-sum fuel (e + bytes_a_escribir e) fits enough))
  | inr b ↦ rw b (ground (arith, b, h))
]

aumentar-sum : sum aumentar ≡ total_bytes
unfolding aumentar
aumentar-sum = let h = escribir-sum 12288 0 (omega arith) (omega arith) in omega (arith, h)

-- The loop ends, and what it has written, 12 MB, provokes the alert: if a snapshot holds the file as
-- it was, and the next one holds it with the bytes written added to its size, the growth is reported.
pub aumentar_reported :
    (vs ns : List ArchivoInfo) (v n : ArchivoInfo)
    → In v vs
    → In n ns
    → SameFile v n
    → n.tamano ≡ v.tamano + sum aumentar
    → (sum aumentar ≡ 12 * 1024 * 1024) × In (grown n (pos n.tamano -ℤ pos v.tamano)) (tamano vs ns)
aumentar_reported vs ns v n i j same e =
    let written = aumentar-sum in
    let more : v.tamano + growth_limit ≤ n.tamano = omega (arith, e, written) in
    (written, (tamano_iff vs ns n (pos n.tamano -ℤ pos v.tamano)).1 (v, i, j, (same, more), refl))
