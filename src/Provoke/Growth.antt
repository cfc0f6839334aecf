-- ===== src/Provoke/Growth.antt =====
-- Patrullas Fronterizas/aumentar.c appends 12 MB to a file, in blocks.
pub mod Alarm
use antibawirus.Common.{ℕ, zero, suc, ◌+◌, ◌-◌, ◌*◌, List, [], ◌∷◌, ltb, if◌then◌else◌}

abbrev pub buffer_size : ℕ
buffer_size = 1024

abbrev pub total_bytes : ℕ
total_bytes = 12 * 1024 * 1024

unfoldable pub bytes_a_escribir : ℕ → ℕ
bytes_a_escribir escritos =
    if ltb buffer_size (total_bytes - escritos) then buffer_size else total_bytes - escritos

-- The sizes of the blocks that the loop hands to `fwrite`, from `escritos` on, with fuel.
unfoldable pub escribir : ℕ → ℕ → List ℕ
unfolding bytes_a_escribir
escribir zero escritos = []
escribir (suc fuel) escritos =
    let rest = escribir fuel (escritos + bytes_a_escribir escritos) in
    if ltb escritos total_bytes then bytes_a_escribir escritos ∷ rest else []

-- `main`, once the file is open: a block is at least one byte.
unfoldable pub aumentar : List ℕ
aumentar = escribir 12288 0
