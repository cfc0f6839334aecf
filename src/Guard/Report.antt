-- ===== src/Guard/Report.antt =====
-- guardia_info.c: the text of the lines that the program prints.
pub mod Digits
pub mod Value
use antibawirus.Common.{ℕ, zero, suc, ◌+◌, ◌/◌, ◌%◌, [], ◌∷◌, ◌++◌, ltb, if◌then◌else◌}
use antibawirus.Common.Int.{ℤ, pos, negsuc}
use antibawirus.Common.Text.{Text, codes, newline}
use antibawirus.Guard.Tracker.{Floats}
use antibawirus.Guard.Process.{
  Tipo, pico_cpu, pico_ram, uso_cpu, uso_ram, Linea, nueva_iteracion, alerta, fila,
}

-- `%lu`: the digits of a number, with fuel; `n + 1` is enough, since each round divides by ten.
unfoldable pub digits : ℕ → ℕ → Text
digits zero n = []
digits (suc fuel) n =
    let rest = digits fuel (n / 10) in
    if ltb n 10 then (n + b'0') ∷ [] else rest ++ ((n % 10 + b'0') ∷ [])

unfoldable pub decimal : ℕ → Text
unfolding digits
decimal n = digits (suc n) n

-- `%d`
unfoldable pub decimal_int : ℤ → Text
unfolding decimal
decimal_int (pos n) = decimal n
decimal_int (negsuc n) = b'-' ∷ decimal (suc n)

abbrev pub etiqueta : Tipo → Text
etiqueta pico_cpu = codes "ALERTA_PICO_CPU"
etiqueta pico_ram = codes "ALERTA_PICO_RAM"
etiqueta uso_cpu = codes "ALERTA_USO_CPU"
etiqueta uso_ram = codes "ALERTA_USO_RAM"

module _ (fl : Floats) where
  -- An alert, without the line's end.
  abbrev pub cuerpo : Tipo → fl.Float → Text → Text → Text
  cuerpo t v name pid =
      etiqueta t
      ++ (codes ": "
          ++ (fl.print v ++ (codes "% | Nombre: " ++ (name ++ (codes " | PID: " ++ pid)))))

  unfoldable pub texto : Linea fl → Text
  texto nueva_iteracion = codes "NUEVA_ITERACION\n"
  texto (alerta t v name pid) = cuerpo t v name pid ++ (newline ∷ [])
  texto (fila pid name cpu ram vsize threads) =
      pid
      ++ b';'
        ∷ (name
            ++ b';'
              ∷ (fl.print cpu
                  ++ b';'
                    ∷ (fl.print ram
                        ++ b';'
                          ∷ (decimal vsize ++ b';' ∷ (decimal_int threads ++ (newline ∷ []))))))
