-- ===== src/Salon/Window/Command.antt =====
-- UI.c and Ports_Scanner.c: the command that the window gives the shell, and how the scanner reads
-- its argument.
use mathlib.Core.List.{append-nil}
use antibawirus.Common.{
  ℕ, zero, suc, ◌+◌, ◌-◌, ◌≤◌, ◌≡◌, sym, ap, ◌∙◌, List, [], ◌∷◌, ◌++◌, some, arith, length,
  length-append, take, take-short,
}
use antibawirus.Common.Int.{pos}
use antibawirus.Common.Text.{Text}
use antibawirus.Common.Text.Scan.{value}
use antibawirus.Common.Text.Scan.Laws.{IsNumber}
use antibawirus.Scanner.Ports.{Line, Net, scan_ports}
use antibawirus.Scanner.Split.{Creado, trabaja}
use antibawirus.Scanner.Main.{main, scan_range, started}
use antibawirus.Scanner.Main.Threads.{flatten, main_lines}
use antibawirus.Scanner.Main.Argument.{scan_range-numbers}
use antibawirus.Salon.Window.{scanner, range_arg, orden}

length-take : {A : Type 0} (n : ℕ) (s : List A) → length (take n s) ≤ n
length-take zero s = omega arith
length-take (suc n) [] = omega arith
length-take (suc n) (x ∷ s) = let h = length-take n s in omega (arith, h)

-- The command holds the whole argument, which may be cut, whatever is in the entries.
pub orden_whole : (first last : Text) → orden first last ≡ scanner ++ range_arg first last
unfolding orden range_arg
orden_whole first last =
    let short : length (range_arg first last) ≤ 215 =
      let h = length-take 63 (first ++ b'-' ∷ last) in omega (arith, h) in
    ap (λ s. scanner ++ s) (take-short 215 (range_arg first last) short)

-- Two numbers in decimal, of at most 62 digits together and with 1 ≤ first ≤ last ≤ 65535, are not
-- cut on their way to the shell. If each thread can be created and has not ended when `main` reads
-- its arguments again, the scanner that is started with them starts its threads, and their lines,
-- joined in the order of the threads, are those of one loop over the ports from first to last.
pub entries_scanned :
    (net : Net) (create : ℕ → Creado) (first last : Text)
    → IsNumber first
    → IsNumber last
    → 1 ≤ value 0 first
    → value 0 first ≤ value 0 last
    → value 0 last ≤ 65535
    → length first + length last ≤ 62
    → ((k : ℕ) → create k ≡ trabaja)
    → (orden first last ≡ scanner ++ (first ++ b'-' ∷ last))
      × ((threads : List (List Line)) × (main net create (range_arg first last ∷ [])
            ≡ started threads)
          × (flatten threads ≡ scan_ports net (value 0 first) (value 0 last + 1 - value 0 first)))
unfolding range_arg
entries_scanned net create first last hf hl h1 h2 h3 le ok =
    let short : length (first ++ b'-' ∷ last) ≤ 63 =
      omega (arith, length-append first (b'-' ∷ last), le) in
    let kept : range_arg first last ≡ first ++ b'-' ∷ last =
      take-short 63 (first ++ b'-' ∷ last) short in
    let read : scan_range (first ++ b'-' ∷ last) ≡ some (pos (value 0 first), pos (value 0 last)) =
      ap (λ s. scan_range (first ++ b'-' ∷ s)) (sym (append-nil last))
      ∙ scan_range-numbers first last [] hf hl (omega (arith, h2, h3)) (omega (arith, h3)) tt in
    (
      orden_whole first last ∙ ap (λ s. scanner ++ s) kept,
      main_lines net create (range_arg first last) (value 0 first) (value 0 last)
          (ap scan_range kept ∙ read) h1 h2 h3 ok,
    )
