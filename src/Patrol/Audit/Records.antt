-- ===== src/Patrol/Audit/Records.antt =====
-- Which lines of the audit log count.
use antibawirus.Common.{
  ◌≡◌, refl, ap, ◌∙◌, sym, true, false, List, [], ◌∷◌, ◌++◌, Option, some, arith, All,
  if◌then◌else◌,
}
use mathlib.Core.List.{append-nil}
use antibawirus.Common.Text.{Text, codes, contains, fgets_lines}
use antibawirus.Common.Exec.{ok}
use antibawirus.Patrol.Audit.{
  Registro, inicial, paso, leer, sin_registro, comando, mostrar_proceso_modificador,
}

abbrev pub IsSyscall : Text → Type 0
IsSyscall line = contains line (codes "type=SYSCALL") ≡ true

abbrev pub NotSyscall : Text → Type 0
NotSyscall line = contains line (codes "type=SYSCALL") ≡ false

abbrev pub IsPath : Text → Type 0
IsPath line = contains line (codes "type=PATH") ≡ true

paso-outside :
    (r : Registro) (line : Text) → r.in_syscall ≡ false → NotSyscall line → paso r line ≡ (r, false)
unfolding paso
paso-outside r line e h = ground (arith, e, h)

-- Outside a block a line without a SYSCALL record changes nothing.
leer-outside :
    (r : Registro) (lines more : List Text)
    → r.in_syscall ≡ false
    → All NotSyscall lines
    → leer r (lines ++ more) ≡ leer r more
unfolding leer
leer-outside r [] more e h = refl
leer-outside r (line ∷ lines) more e h =
    rw (paso-outside r line e h.0, leer) (leer-outside r lines more e h.1)

-- If no line of the log holds a SYSCALL record, the report says that none was found, whatever
-- fields the lines hold.
pub report-sin_registro :
    (popen : Text → Option Text) (archivo out : Text)
    → popen (comando archivo) ≡ some out
    → All NotSyscall (fgets_lines 1024 out)
    → mostrar_proceso_modificador popen archivo ≡ ok (sin_registro archivo)
unfolding mostrar_proceso_modificador leer
report-sin_registro popen archivo out e h =
    let nothing : leer inicial (fgets_lines 1024 out) ≡ inicial =
      ap (leer inicial) (sym (append-nil (fgets_lines 1024 out)))
      ∙ leer-outside inicial (fgets_lines 1024 out) [] refl h in
    rw (e, mostrar_proceso_modificador, nothing) refl

-- Inside a block a line keeps it open, or ends the reading.
paso-inside : (r : Registro) (line : Text) → r.in_syscall ≡ true → (paso r line).0.in_syscall ≡ true
unfolding paso
paso-inside r line e = ground (arith, e)

paso-opens : (r : Registro) (line : Text) → IsSyscall line → (paso r line).0.in_syscall ≡ true
unfolding paso
paso-opens r line h = ground (arith, h)

paso-path :
    (r : Registro) (line : Text) → r.in_syscall ≡ true → IsPath line → (paso r line).1 ≡ true
unfolding paso
paso-path r line e h = ground (arith, e, h)

leer-cut :
    (r : Registro) (block post : List Text) (p : Text)
    → r.in_syscall ≡ true
    → IsPath p
    → leer r (block ++ p ∷ post) ≡ leer r (block ++ p ∷ [])
unfolding leer
leer-cut r [] post p e h = rw (paso-path r p e h) refl
leer-cut r (line ∷ block) post p e h =
    ap (λ t. if (paso r line).1 then (paso r line).0 else t)
      (leer-cut (paso r line).0 block post p (paso-inside r line e) h)

leer-opened :
    (r : Registro) (s p : Text) (block post : List Text)
    → IsSyscall s
    → IsPath p
    → leer r (s ∷ (block ++ p ∷ post)) ≡ leer r (s ∷ (block ++ p ∷ []))
unfolding leer
leer-opened r s p block post hs hp =
    ap (λ t. if (paso r s).1 then (paso r s).0 else t)
      (leer-cut (paso r s).0 block post p (paso-opens r s hs) hp)

-- What the log holds behind the first PATH record of the first block does not change the report's
-- fields: they are those of the block that the first SYSCALL record opens.
pub leer-first_block :
    (before block post : List Text) (s p : Text)
    → All NotSyscall before
    → IsSyscall s
    → IsPath p
    → leer inicial (before ++ s ∷ (block ++ p ∷ post)) ≡ leer inicial (s ∷ (block ++ p ∷ []))
leer-first_block before block post s p hb hs hp =
    leer-outside inicial before (s ∷ (block ++ p ∷ post)) refl hb
    ∙ leer-opened inicial s p block post hs hp
