-- ===== src/Guard/System/Lines.antt =====
-- guardia_info.c: the lines that the loop and its threads print.
use antibawirus.Common.{
  ◌≡◌, Bool, true, false, ◌&&◌, not, List, [], ◌∷◌, ◌++◌, map, All, All-append, All-split,
  if◌then◌else◌,
}
use antibawirus.Common.Text.{Text}
use antibawirus.Guard.Tracker.{Floats, Spike}
use antibawirus.Guard.Process.{
  Preparado, uso_cpu, uso_ram, Linea, nueva_iteracion, alerta, fila, linea_de, informar,
}
use antibawirus.Guard.System.{
  starts_digit, copy_pid, Hilo, nuevo, imprimiendo, Sistema, Entorno, Step, Reach, inicio, sigue,
  limpia, conserva, cerrado, abre, salta, crea, no_crea, acaba, mide, sin_memoria, desborda, cae,
  imprime, termina,
}
use antibawirus.Guard.System.Safety.{preparar-pid}

module _ (fl : Floats) where
  -- The rows start with a digit, as the directories of processes do.
  abbrev pub IsLine : Linea fl → Type 0
  IsLine nueva_iteracion = Unit
  IsLine (alerta t v name pid) = Unit
  IsLine (fila pid name cpu ram vsize threads) = starts_digit pid ≡ true

  abbrev LinesHilo : Hilo fl → Type 0
  LinesHilo (nuevo pid) = starts_digit pid ≡ true
  LinesHilo (imprimiendo ls) = All IsLine ls

  record IsPrinted (s : Sistema fl) : Type 0 where
    threads : All LinesHilo s.hilos
    output : All IsLine s.salida

  copy_digit : (name : Text) → starts_digit name ≡ true → starts_digit (copy_pid name) ≡ true
  unfolding starts_digit
  copy_digit [] h = h
  copy_digit (c ∷ name) h = h

  peaks-IsLine : (ss : List (Spike fl)) → All IsLine (map (linea_de fl) ss)
  unfolding linea_de
  peaks-IsLine [] = tt
  peaks-IsLine (Spike.pico_cpu a b n p ∷ ss) = (tt, peaks-IsLine ss)
  peaks-IsLine (Spike.pico_ram a b n p ∷ ss) = (tt, peaks-IsLine ss)

  alert-IsLine :
      (b : Bool) (l : Linea fl) (rest : List (Linea fl))
      → IsLine l
      → All IsLine rest
      → All IsLine ((if b then l ∷ [] else []) ++ rest)
  alert-IsLine true l rest h hs = (h, hs)
  alert-IsLine false l rest h hs = hs

  informar-IsLine :
      (umbral_cpu umbral_mem : fl.Float) (lista_blanca : Text → Bool) (p : Preparado fl)
      (cpu : fl.Float)
      → starts_digit p.sample.pid ≡ true
      → All IsLine (informar fl umbral_cpu umbral_mem lista_blanca p cpu)
  unfolding informar
  informar-IsLine umbral_cpu umbral_mem lista_blanca p cpu h =
      let name = p.sample.name in
      let pid = p.sample.pid in
      let ram = p.sample.ram_percent in
      let row = fila pid name cpu ram p.vsize p.threads ∷ [] in
      let above_mem = fl.above ram umbral_mem && not (lista_blanca name) in
      let above_cpu = fl.above cpu umbral_cpu && not (lista_blanca name) in
      let after_mem = alert-IsLine above_mem (alerta uso_ram ram name pid) row tt (h, tt) in
      alert-IsLine above_cpu (alerta uso_cpu cpu name pid)
        ((if above_mem then alerta uso_ram ram name pid ∷ [] else []) ++ row) tt after_mem

  module _ (env : Entorno fl) where
    Step-IsPrinted : {s t : Sistema fl} → Step fl env s t → IsPrinted s → IsPrinted t
    Step-IsPrinted (limpia now later access m c) v = record {
      threads = v.threads;
      output = v.output;
    }
    Step-IsPrinted (conserva now m c) v = record { threads = v.threads; output = v.output }
    Step-IsPrinted (cerrado m) v = record {
      threads = v.threads;
      output = All-append IsLine _ _ v.output (tt, tt);
    }
    Step-IsPrinted (abre names m l) v = record {
      threads = v.threads;
      output = All-append IsLine _ _ v.output (tt, tt);
    }
    Step-IsPrinted (salta name names m d) v = record { threads = v.threads; output = v.output }
    Step-IsPrinted (crea name names m d) v = record {
      threads = All-append LinesHilo _ _ v.threads (copy_digit name d, tt);
      output = v.output;
    }
    Step-IsPrinted (no_crea name names m d) v = record { threads = v.threads; output = v.output }
    Step-IsPrinted (acaba m) v = record { threads = v.threads; output = v.output }
    Step-IsPrinted (mide before after pid r p extra u h rd e mem c) v =
        let (a, b) = All-split LinesHilo before (nuevo pid ∷ after) (rw h at v.threads) in
        let digit : starts_digit p.sample.pid ≡ true = rw (preparar-pid fl pid r p e) b.0 in
        record {
          threads = All-append LinesHilo before _ a (
            informar-IsLine env.umbral_cpu env.umbral_mem env.lista_blanca p u.cpu_out digit,
            b.1,
          );
          output = All-append IsLine _ _ v.output (peaks-IsLine u.printed);
        }
    Step-IsPrinted (sin_memoria before after pid r p extra h rd e mem c) v = record {
      threads = tt;
      output = v.output;
    }
    Step-IsPrinted (desborda before after pid r p extra h rd e mem c) v = record {
      threads = v.threads;
      output = v.output;
    }
    Step-IsPrinted (cae before after pid r h rd e) v = record {
      threads = v.threads;
      output = v.output;
    }
    Step-IsPrinted (imprime before after l ls h) v =
        let (a, b) =
          All-split LinesHilo before (imprimiendo (l ∷ ls) ∷ after) (rw h at v.threads) in
        record {
          threads = All-append LinesHilo before _ a (b.0.1, b.1);
          output = All-append IsLine _ _ v.output (b.0.0, tt);
        }
    Step-IsPrinted (termina before after h) v =
        let (a, b) = All-split LinesHilo before (imprimiendo [] ∷ after) (rw h at v.threads) in
        record { threads = All-append LinesHilo before after a b.1; output = v.output }

    Reach-IsPrinted : {s : Sistema fl} → Reach fl env s → IsPrinted s
    Reach-IsPrinted (inicio slots t now l e) = record { threads = tt; output = tt }
    Reach-IsPrinted (sigue r st) = Step-IsPrinted st (Reach-IsPrinted r)

    pub Reach-IsLine : {s : Sistema fl} → Reach fl env s → All IsLine s.salida
    Reach-IsLine r = (Reach-IsPrinted r).output
