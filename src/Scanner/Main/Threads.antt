-- ===== src/Scanner/Main/Threads.antt =====
-- Ports_Scanner.c: what the threads print. The mutex makes each line whole.
use mathlib.Core.List.{Perm, perm_middle, append_assoc}
use mathlib.Core.List.Perm
use antibawirus.Common.{
  ℕ, zero, suc, ◌+◌, ◌-◌, ◌≤◌, ◌≡◌, refl, ap, sym, ◌∙◌, subst, false, List, [], ◌∷◌, ◌++◌, some,
  map, arith, All,
}
use antibawirus.Common.Int.{pos}
use antibawirus.Common.Text.{Text}
use antibawirus.Scanner.Ports.{Line, Net, scan_ports, port_scanner}
use antibawirus.Scanner.Ports.Laws.{scan_ports-append, scan_ports-zero}
use antibawirus.Scanner.Split.{Creado, trabaja, ScanArgs}
use antibawirus.Scanner.Split.Partition.{range, all_ports, start_threads_covers}
use antibawirus.Scanner.Main.{scan_range, out_of_range, started, scan_thread, run_threads, main}

abbrev pub flatten : List (List Line) → List Line
flatten [] = []
flatten (ls ∷ rest) = ls ++ flatten rest

-- `Merge threads out`: `out` is what a run prints whose threads still have `threads` to print.
pub data Merge : List (List Line) → List Line → Type 0 where
  done : {threads : List (List Line)} → All (λ ls. ls ≡ []) threads → Merge threads []
  print :
      (before after : List (List Line)) (l : Line) (ls : List Line) {threads : List (List Line)}
      {out : List Line}
      → threads ≡ before ++ ((l ∷ ls) ∷ after)
      → Merge (before ++ (ls ∷ after)) out
      → Merge threads (l ∷ out)

flatten-append : (a b : List (List Line)) → flatten (a ++ b) ≡ flatten a ++ flatten b
flatten-append [] b = refl
flatten-append (x ∷ a) b = rw (flatten-append a b, append_assoc) refl

flatten-empty : (threads : List (List Line)) → All (λ ls. ls ≡ []) threads → flatten threads ≡ []
flatten-empty [] h = refl
flatten-empty (x ∷ threads) h = rw (h.0, flatten-empty threads h.1) refl

-- Whatever the order of the threads, the lines are those of all threads, each as often.
Merge-perm :
    {threads : List (List Line)} {out : List Line} → Merge threads out → Perm out (flatten threads)
Merge-perm (done {threads = t} h) = rw (flatten-empty t h) (Perm.refl [])
Merge-perm (print before after l ls e m) =
    rw (e, flatten-append before ((l ∷ ls) ∷ after))
      (Perm.trans (Perm.cons l (rw (flatten-append before (ls ∷ after)) at (Merge-perm m)))
        (Perm.symm (perm_middle (flatten before) (ls ++ flatten after))))

-- The lines for the ports of a list, one after the other.
scan_list : Net → List ℕ → List Line
scan_list net [] = []
scan_list net (p ∷ ps) = scan_ports net p 1 ++ scan_list net ps

scan_list-append :
    (net : Net) (ps qs : List ℕ) → scan_list net (ps ++ qs) ≡ scan_list net ps ++ scan_list net qs
unfolding scan_list
scan_list-append net [] qs = refl
scan_list-append net (p ∷ ps) qs =
    rw (scan_list-append net ps qs) (sym (append_assoc (scan_ports net p 1) _ _))

scan_list-range : (net : Net) (start n : ℕ) → scan_list net (range start n) ≡ scan_ports net start n
unfolding scan_list
scan_list-range net start zero = scan_ports-zero net start
scan_list-range net start (suc n) =
    ap (λ t. scan_ports net start 1 ++ t) (scan_list-range net (start + 1) n)
    ∙ sym (scan_ports-append net start 1 n)
    ∙ ap (scan_ports net start) (omega arith)

-- What the threads print, each in its order, is what one loop over all their ports prints.
flatten-scan_threads :
    (net : Net) (args : List ScanArgs)
    → flatten (map (scan_thread net) args) ≡ scan_list net (all_ports args)
unfolding scan_thread scan_list port_scanner
flatten-scan_threads net [] = refl
flatten-scan_threads net (a ∷ args) =
    rw (flatten-scan_threads net args, ← scan_list-range, scan_list-append) refl

in_range :
    (first last : ℕ)
    → 1 ≤ first
    → first ≤ last
    → last ≤ 65535
    → out_of_range (pos first) (pos last) ≡ false
unfolding out_of_range
in_range first last h1 h2 h3 = ground arith

-- A run over a range within 1 to 65535, in which every thread can be created and has not
-- ended when `main` reads its arguments again, starts its threads,
-- and their lines, joined in the order of the threads, are those of one loop over the range.
pub main_lines :
    (net : Net) (create : ℕ → Creado) (arg : Text) (first last : ℕ)
    → scan_range arg ≡ some (pos first, pos last)
    → 1 ≤ first
    → first ≤ last
    → last ≤ 65535
    → ((k : ℕ) → create k ≡ trabaja)
    → (threads : List (List Line)) × (main net create (arg ∷ []) ≡ started threads)
      × (flatten threads ≡ scan_ports net first (last + 1 - first))
unfolding main run_threads
main_lines net create arg first last e h1 h2 h3 ok =
    let (args, launched, covers, _, _) = start_threads_covers create first last ok h1 h2 in
    (
      map (scan_thread net) args,
      rw (e, main, in_range first last h1 h2 h3, launched) refl,
      flatten-scan_threads net args
          ∙ ap (scan_list net) covers
          ∙ scan_list-range net first (last + 1 - first),
    )

started-injective : {a b : List (List Line)} → started a ≡ started b → a ≡ b
started-injective e = cc

-- In a run over a range within 1 to 65535, in which every thread can be created and has not ended
-- when `main` reads its arguments again, and which starts its threads, these may print their lines in any order: the whole output holds the lines of one
-- loop over the range, each as often as there.
pub main-perm :
    (net : Net) (create : ℕ → Creado) (arg : Text) (first last : ℕ) {threads : List (List Line)}
    {out : List Line}
    → scan_range arg ≡ some (pos first, pos last)
    → 1 ≤ first
    → first ≤ last
    → last ≤ 65535
    → ((k : ℕ) → create k ≡ trabaja)
    → main net create (arg ∷ []) ≡ started threads
    → Merge threads out
    → Perm out (scan_ports net first (last + 1 - first))
main-perm net create arg first last {out = out} e h1 h2 h3 ok run m =
    let (threads', started', lines) = main_lines net create arg first last e h1 h2 h3 ok in
    subst (Perm out) (ap flatten (started-injective (sym run ∙ started')) ∙ lines) (Merge-perm m)
