-- ===== src/Guard/System/Safety.antt =====
-- guardia_info.c: what holds in every state that the loop and its threads reach.
use antibawirus.Common.{
  ◌≤◌, ◌≡◌, refl, sym, ◌⊎◌, inl, inr, Bool, List, Option, none, some, arith, ltb, All, All-append,
  All-split, length, take-short, Bool-cases, Option-cases, subst,
}
use antibawirus.Common.Int.{ℤ, pos}
use antibawirus.Common.Text.{Text}
use antibawirus.Guard.Tracker.{
  Floats, ProcessHistory, ProcessTracker, Sample, Resultado, done, salida, desborde, ampliar,
  buscar, update_process,
}
use antibawirus.Guard.Tracker.Invariant.{IsValid, IsValidOutcome, update_process-IsValid}
use antibawirus.Guard.Tracker.Order.{cleanup-IsValid, init_tracker-IsValid}
use antibawirus.Guard.Process.{
  Status, con_tiempos, leer_status, Lecturas, Preparado, preparar, leer_stat,
}
use antibawirus.Guard.System.{
  copy_pid, Principal, cabeza, iterando, terminado, desbordado, nulo, leyendo, Hilo, nuevo,
  imprimiendo, Sistema, Entorno, call, Step, Reach, inicio, sigue, limpia, conserva, cerrado, abre,
  salta, crea, no_crea, acaba, mide, sin_memoria, desborda, cae, imprime, termina,
}

abbrev pub IsShort : Text → Type 0
IsShort name = length name ≤ 14

copy-IsShort : (name : Text) → IsShort name → IsShort (copy_pid name)
copy-IsShort name h = rw (take-short 16 name (omega (arith, h))) h

module _ (fl : Floats) where
  -- A call that goes wrong only by running out of memory.
  abbrev Keeps : Resultado fl → Type 0
  Keeps (done u) = IsValid fl u.tracker
  Keeps salida = Unit
  Keeps desborde = ⊥

  Keeps-of : (r : Resultado fl) → IsValidOutcome fl r → Keeps r
  Keeps-of (done u) v = v
  Keeps-of salida v = tt
  Keeps-of desborde v = v

  abbrev pub Fits : ProcessTracker fl → Option (List (ProcessHistory fl)) → Type 0
  Fits t none = Unit {0}
  Fits t (some slots) = length slots ≡ t.capacity

  module _ (umbral_cpu : fl.Float) (lista_blanca : Text → Bool) where
    -- Without memory a call ends the program, or needed none.
    no_memory :
        (s : Sample fl) (t : ProcessTracker fl)
        → (update_process fl umbral_cpu lista_blanca none s t
            ≡ update_process fl umbral_cpu lista_blanca (some t.processes) s t)
          ⊎ (update_process fl umbral_cpu lista_blanca none s t ≡ salida)
    unfolding update_process ampliar
    no_memory s t = elim (Option-cases (buscar fl s.pid t.processes t.count)) [
      | inr (i, e) ↦ inl (rw (e, update_process) refl)
      | inl e ↦ elim (Bool-cases (ltb t.count t.capacity)) [
        | inl b ↦ inl (rw (e, update_process, b) refl)
        | inr b ↦ inr (rw (e, update_process, b) refl)
      ]
    ]

    update_process-Keeps :
        (extra : Option (List (ProcessHistory fl))) (s : Sample fl) (t : ProcessTracker fl)
        → IsValid fl t
        → IsShort s.pid
        → Fits t extra
        → Keeps (update_process fl umbral_cpu lista_blanca extra s t)
    update_process-Keeps (some slots) s t v b f =
        Keeps-of _ (update_process-IsValid fl umbral_cpu lista_blanca slots s t v b f)
    update_process-Keeps none s t v b f = elim (no_memory s t) [
      | inl e ↦ subst Keeps (sym e) (
          Keeps-of _
            (update_process-IsValid fl umbral_cpu lista_blanca t.processes s t v b v.slots))
      | inr e ↦ subst Keeps (sym e) tt
    ]

  abbrev pub ShortMain : Principal → Type 0
  ShortMain desbordado = ⊥
  ShortMain nulo = Unit
  ShortMain (leyendo names) = All IsShort names
  ShortMain cabeza = Unit
  ShortMain iterando = Unit
  ShortMain terminado = Unit

  abbrev pub ShortHilo : Hilo fl → Type 0
  ShortHilo (nuevo pid) = IsShort pid
  ShortHilo (imprimiendo ls) = Unit

  pub record IsSafe (s : Sistema fl) : Type 0 where
    pub in_order : IsValid fl s.tracker
    pub main_short : ShortMain s.principal
    pub hilos_short : All ShortHilo s.hilos

  con_tiempos-pid :
      (pid : Text) (r : Lecturas) (s : Status) (t : Option (ℤ × ℤ)) (p : Preparado fl)
      → con_tiempos fl pid r s t ≡ some p
      → p.sample.pid ≡ pid
  con_tiempos-pid pid r s none p e = cc
  con_tiempos-pid pid r s (some (u, v)) p e = cc

  pub preparar-pid :
      (pid : Text) (r : Lecturas) (p : Preparado fl)
      → preparar fl pid r ≡ some p
      → p.sample.pid ≡ pid
  unfolding preparar
  preparar-pid pid r p e =
      let s =
        leer_status (record { name = r.old_name; threads = pos 0; rss = pos 0; line = r.old_line })
          r.status in
      con_tiempos-pid pid r s (leer_stat s.line r.stat) p e

  module _ (env : Entorno fl) (listed : (names : List Text) → env.Listing names → All IsShort names)
      (grown : (t : ProcessTracker fl) (extra : Option (List (ProcessHistory fl)))
        → env.Memory t extra
        → Fits t extra) where
    call-Keeps :
        (s : Sistema fl) (pid : Text) (r : Lecturas) (p : Preparado fl)
        (extra : Option (List (ProcessHistory fl)))
        → IsValid fl s.tracker
        → IsShort pid
        → preparar fl pid r ≡ some p
        → env.Memory s.tracker extra
        → Keeps (call fl env extra p s.tracker)
    call-Keeps s pid r p extra v b e mem =
        update_process-Keeps env.umbral_cpu env.lista_blanca extra p.sample s.tracker v
          (rw (preparar-pid pid r p e) b) (grown s.tracker extra mem)

    Step-IsSafe : {s t : Sistema fl} → Step fl env s t → IsSafe s → IsSafe t
    Step-IsSafe {s} (limpia now later access m l) v = record {
      in_order = cleanup-IsValid fl access s.tracker v.in_order;
      main_short = tt;
      hilos_short = v.hilos_short;
    }
    Step-IsSafe (conserva now m l) v = record {
      in_order = v.in_order;
      main_short = tt;
      hilos_short = v.hilos_short;
    }
    Step-IsSafe (cerrado m) v = record {
      in_order = v.in_order;
      main_short = tt;
      hilos_short = v.hilos_short;
    }
    Step-IsSafe (abre names m l) v = record {
      in_order = v.in_order;
      main_short = listed names l;
      hilos_short = v.hilos_short;
    }
    Step-IsSafe (salta name names m d) v = record {
      in_order = v.in_order;
      main_short = (rw m at v.main_short).1;
      hilos_short = v.hilos_short;
    }
    Step-IsSafe {s} (crea name names m d) v = record {
      in_order = v.in_order;
      main_short = (rw m at v.main_short).1;
      hilos_short =
          All-append ShortHilo s.hilos _ v.hilos_short
            (copy-IsShort name (rw m at v.main_short).0, tt);
    }
    Step-IsSafe (no_crea name names m d) v = record {
      in_order = v.in_order;
      main_short = (rw m at v.main_short).1;
      hilos_short = v.hilos_short;
    }
    Step-IsSafe (acaba m) v = record {
      in_order = v.in_order;
      main_short = tt;
      hilos_short = v.hilos_short;
    }
    Step-IsSafe {s} (mide before after pid r p extra u h rd e mem c) v =
        let (a, b) = All-split ShortHilo before _ (rw h at v.hilos_short) in
        record {
          in_order = rw c at (call-Keeps s pid r p extra v.in_order b.0 e mem);
          main_short = v.main_short;
          hilos_short = All-append ShortHilo before _ a (tt, b.1);
        }
    Step-IsSafe (sin_memoria before after pid r p extra h rd e mem c) v = record {
      in_order = v.in_order;
      main_short = tt;
      hilos_short = tt;
    }
    Step-IsSafe {s} (desborda before after pid r p extra h rd e mem c) v =
        let (a, b) = All-split ShortHilo before _ (rw h at v.hilos_short) in
        absurd (rw c at (call-Keeps s pid r p extra v.in_order b.0 e mem))
    Step-IsSafe (cae before after pid r h rd e) v = record {
      in_order = v.in_order;
      main_short = tt;
      hilos_short = v.hilos_short;
    }
    Step-IsSafe (imprime before after l ls h) v =
        let (a, b) = All-split ShortHilo before _ (rw h at v.hilos_short) in
        record {
          in_order = v.in_order;
          main_short = v.main_short;
          hilos_short = All-append ShortHilo before _ a (tt, b.1);
        }
    Step-IsSafe (termina before after h) v =
        let (a, b) = All-split ShortHilo before _ (rw h at v.hilos_short) in
        record {
          in_order = v.in_order;
          main_short = v.main_short;
          hilos_short = All-append ShortHilo before after a b.1;
        }

    -- In every state that the loop and its threads reach, in any order, the table is in order, and
    -- nothing was written outside the array. The conditions are that the names in /proc have at most
    -- 14 characters, and that `realloc` gives the slots asked for or fails.
    pub Reach-IsSafe : {s : Sistema fl} → Reach fl env s → IsSafe s
    Reach-IsSafe (inicio slots t now l e) = record {
      in_order = init_tracker-IsValid fl slots t l e;
      main_short = tt;
      hilos_short = tt;
    }
    Reach-IsSafe (sigue r st) = Step-IsSafe st (Reach-IsSafe r)
