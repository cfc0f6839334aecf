-- ===== src/Patrol/Rounds/Baseline.antt =====
-- Fronteras.c, `main`: what a round is compared with.
use antibawirus.Common.{ℕ, ◌≡◌, refl, sym, ap, subst, ◌∙◌, List, [], ◌∷◌, ◌++◌, Option, map}
use mathlib.Core.List.{append_assoc, append-nil}
use antibawirus.Common.Text.{Text}
use antibawirus.Common.Exec.{Exec, ok, crash, exhausted, ◌>>=◌}
use antibawirus.Patrol.Files.{ArchivoInfo}
use antibawirus.Patrol.Devices.{World, Notice, Tabla, alerta, ensenar}
use antibawirus.Patrol.Devices.Snapshot.{Agrees, files_of, empty_table, ensenar-Agrees}
use antibawirus.Patrol.Rounds.{Evento, Estado, aviso, emitir, comparar, ronda, rondas}

-- What a successful `do` block did.
bind_ok {ℓ κ} :
    {A : Type ℓ} {B : Type κ} (m : Exec A) (f : A → Exec B) {b : B}
    → (m >>= f) ≡ ok b
    → (a : A) × (m ≡ ok a) × (f a ≡ ok b)
bind_ok (ok a) f e = (a, refl, e)
bind_ok crash f e = cc
bind_ok exhausted f e = cc

result {ℓ} : {A : Type ℓ} {a b : A} → Exec.ok a ≡ ok b → a ≡ b
result e = cc

table_files :
    (t : Tabla) (fs : Exec (List ArchivoInfo)) → Agrees empty_table (ok t) fs → fs ≡ ok t.archivos
table_files t (ok fs) (v, e) = ap ok (sym e)
table_files t crash h = absurd h
table_files t exhausted h = absurd h

module _ (popen : Text → Option Text) (fuel : ℕ) where
  -- The parts of a round that succeeds.
  record Round (w : World) (e : Estado) (out : List Evento × Estado) : Type 0 where
    visto : List Notice × ℕ
    files : List ArchivoInfo
    eventos : List Evento
    seen : alerta w e.lista_dispositivos w.usb ≡ ok visto
    snapshot : files_of w fuel w.usb ≡ ok files
    told : emitir popen (comparar e.lista_archivos files e.viejos visto.1) ≡ ok eventos
    printed : out.0 ≡ map aviso visto.0 ++ eventos
    next : out.1 ≡ record { lista_dispositivos = w.usb; viejos = visto.1; lista_archivos = files }

  ronda-Round :
      (w : World) (e : Estado) {out : List Evento × Estado}
      → ronda popen fuel w e ≡ ok out
      → Round w e out
  unfolding ronda
  ronda-Round w e {out} h =
      let (visto, seen, h1) = bind_ok (alerta w e.lista_dispositivos w.usb) _ h in
      let (t, table, h2) = bind_ok (ensenar w fuel w.usb) _ h1 in
      let (eventos, told, h3) =
        bind_ok (emitir popen (comparar e.lista_archivos t.archivos e.viejos visto.1)) _ h2 in
      let whole = sym (result h3) in
      record {
        visto = visto;
        files = t.archivos;
        eventos = eventos;
        seen = seen;
        snapshot =
            table_files t (files_of w fuel w.usb) (rw table at (ensenar-Agrees w fuel w.usb));
        told = told;
        printed = ap (λ r. r.0) whole;
        next = ap (λ r. r.1) whole;
      }

  rondas-append :
      (ws vs : List World) (e : Estado) {evs : List Evento} {e' : Estado}
      → rondas popen fuel (ws ++ vs) e ≡ ok (evs, e')
      → (first : List Evento × Estado) × (second : List Evento × Estado) × (rondas popen fuel ws e
          ≡ ok first)
        × (rondas popen fuel vs first.1 ≡ ok second)
        × (evs ≡ first.0 ++ second.0)
        × (e' ≡ second.1)
  unfolding rondas
  rondas-append [] vs e {evs} {e'} h = (([], e), (evs, e'), refl, h, refl, refl)
  rondas-append (w ∷ ws) vs e h =
      let (primera, first, h1) = bind_ok (ronda popen fuel w e) _ h in
      let (resto, later, h2) = bind_ok (rondas popen fuel (ws ++ vs) primera.1) _ h1 in
      let (a, b, ra, rb, ev, en) = rondas-append ws vs primera.1 later in
      let whole = sym (result h2) in
      (
        (primera.0 ++ a.0, a.1),
        b,
        rw (first, ra) refl,
        rb,
        ap (λ r. r.0) whole ∙ ap (λ t. primera.0 ++ t) ev ∙ sym (append_assoc primera.0 a.0 b.0),
        ap (λ r. r.1) whole ∙ en,
      )

  -- What the last two rounds, in the worlds `v` and `w`, leave.
  pub record LastRound (v w : World) (evs : List Evento) (e' : Estado) : Type 0 where
    pub antes : List ArchivoInfo
    pub nuevos : List ArchivoInfo
    pub antes_files : files_of v fuel v.usb ≡ ok antes
    pub nuevos_files : files_of w fuel w.usb ≡ ok nuevos
    pub anterior : List Text
    pub visto_antes : List Notice × ℕ
    pub visto : List Notice × ℕ
    pub contados_antes : alerta v anterior v.usb ≡ ok visto_antes
    pub contados : alerta w v.usb w.usb ≡ ok visto
    pub eventos : List Evento
    pub told : emitir popen (comparar antes nuevos visto_antes.1 visto.1) ≡ ok eventos
    pub earlier : List Evento
    pub printed : evs ≡ earlier ++ (map aviso visto.0 ++ eventos)
    pub kept : e' ≡ record { lista_dispositivos = w.usb; viejos = visto.1; lista_archivos = nuevos }

  two_rounds :
      (v w : World) (e : Estado) {evs : List Evento} {e' : Estado}
      → rondas popen fuel (v ∷ w ∷ []) e ≡ ok (evs, e')
      → LastRound v w evs e'
  unfolding rondas
  two_rounds v w e {evs} {e'} h =
      let (first, run1, h1) = bind_ok (ronda popen fuel v e) _ h in
      let (rest, run2, h2) = bind_ok (rondas popen fuel (w ∷ []) first.1) _ h1 in
      let (second, run3, h3) = bind_ok (ronda popen fuel w first.1) _ run2 in
      let a = ronda-Round v e run1 in
      let b = subst (λ s. Round w s second) a.next (ronda-Round w first.1 run3) in
      let tail = sym (result h3) in
      let whole = sym (result h2) in
      record {
        antes = a.files;
        nuevos = b.files;
        antes_files = a.snapshot;
        nuevos_files = b.snapshot;
        anterior = e.lista_dispositivos;
        visto_antes = a.visto;
        visto = b.visto;
        contados_antes = a.seen;
        contados = b.seen;
        eventos = b.eventos;
        told = b.told;
        earlier = first.0;
        printed =
            ap (λ r. r.0) whole
            ∙ ap (λ t. first.0 ++ t) (ap (λ r. r.0) tail ∙ append-nil second.0 ∙ b.printed);
        kept = ap (λ r. r.1) whole ∙ ap (λ r. r.1) tail ∙ b.next;
      }

  -- However many rounds a run of the patrol has, if none of them fails, the last one compares the
  -- files of the devices listed in its own world with those of the world before it, prints the
  -- notices and the alerts of that comparison, each alert with its report, behind what the earlier
  -- rounds printed, and keeps its own files, devices and count for the next round.
  pub rondas-LastRound :
      (ws : List World) (v w : World) (e : Estado) {evs : List Evento} {e' : Estado}
      → rondas popen fuel (ws ++ v ∷ w ∷ []) e ≡ ok (evs, e')
      → LastRound v w evs e'
  rondas-LastRound ws v w e h =
      let (a, b, _, rb, ev, en) = rondas-append ws (v ∷ w ∷ []) e h in
      let last = two_rounds v w a.1 rb in
      record {
        antes = last.antes;
        nuevos = last.nuevos;
        antes_files = last.antes_files;
        nuevos_files = last.nuevos_files;
        anterior = last.anterior;
        visto_antes = last.visto_antes;
        visto = last.visto;
        contados_antes = last.contados_antes;
        contados = last.contados;
        eventos = last.eventos;
        told = last.told;
        earlier = a.0 ++ last.earlier;
        printed = ev ∙ ap (λ t. a.0 ++ t) last.printed ∙ sym (append_assoc a.0 last.earlier _);
        kept = en ∙ last.kept;
      }
