-- ===== src/Provoke/Replication/Copies.antt =====
-- Test2_Replication.c: the sizes of the copies.
use mathlib.Core.Option.{some-injective}
use mathlib.Core.Sum.{inr-injective}
use antibawirus.Common.{
  ℕ, zero, suc, ◌+◌, ◌≤◌, ◌<◌, ◌≡◌, ◌≢◌, refl, sym, ap, ◌∙◌, inl, inr, [], ◌∷◌, Option, some, arith,
  length, length-append, length-drop, drop, Bool-cases, Option-cases, ◌⊎◌, ◌==◌, ==_iff, subst,
}
use antibawirus.Common.Text.{Text, str_eq, str_eq_iff}
use antibawirus.Provoke.Posix.{Posix}
use antibawirus.Provoke.Descriptors.{
  Descriptors, IsDescriptors, rdonly, wronly_creat, wronly_creat_trunc, size,
}
use antibawirus.Provoke.Replication.{
  original, num_copies, dest_path, escrito, copiar_una, copiar, leido, tras_leer, con_buffer,
  con_stat, preparar, main,
}

early : {A B : Type 0} {x : A} {y : B} → (let r : A ⊎ B = inl x in r ≡ inr y) → ⊥
early e = cc

equal_or_later : (i j : ℕ) → i ≤ j → (i ≡ j) ⊎ (i + 1 ≤ j)
equal_or_later i j l = elim (Bool-cases (i == j)) [
  | inl e ↦ inl ((==_iff i j).0 e)
  | inr e ↦ inr (ground (arith, l, e, ==_iff i j))
]

-- The copy `i` that is made in the state `s` can be opened, and is written in full.
abbrev OneWritten : (ℕ → ℕ) → (P : Posix) → Descriptors P → Text → ℕ → P.State → Type 0
OneWritten rand P D buffer i s =
    (fd : ℕ) × (s' : P.State) × (s'' : P.State) × (D.open_file s (dest_path rand i)
        wronly_creat_trunc
      ≡ some (fd, s'))
    × (D.write s' fd buffer ≡ some (length buffer, s''))

-- So can the `n` copies from `i` on that the loop makes from the state `s` on.
abbrev pub AllWritten : (ℕ → ℕ) → (P : Posix) → Descriptors P → Text → ℕ → ℕ → P.State → Type 0
AllWritten rand P D buffer zero i s = Unit
AllWritten rand P D buffer (suc n) i s =
    OneWritten rand P D buffer i s
    × AllWritten rand P D buffer n (i + 1) (copiar_una rand P D buffer i s)

module _ (P : Posix) (D : Descriptors P) (law : IsDescriptors P D) where
  written_full :
      (s u : P.State) (fd : ℕ) (p buffer : Text) (rand : ℕ → ℕ)
      → law.at s fd ≡ some (p, 0)
      → size P s p ≡ some 0
      → D.write s fd buffer ≡ some (length buffer, u)
      → size P (escrito rand P D s (D.write s fd buffer)) p ≡ some (length buffer)
  written_full s u fd p [] rand here sz e = rw e (law.write-nothing s u fd 0 p e ∙ sz)
  written_full s u fd p (c ∷ bytes) rand here sz e =
      let (_, _, _, grew) =
        law.write-at s u fd 0 0 (length (c ∷ bytes)) p (c ∷ bytes) here sz (omega arith) e in
      rw e (grew ∙ ap some (omega arith))

  written-other :
      (s : P.State) (fd : ℕ) (p q buffer : Text) (rand : ℕ → ℕ)
      → law.at s fd ≡ some (p, 0)
      → q ≢ p
      → size P (escrito rand P D s (D.write s fd buffer)) q ≡ size P s q
  written-other s fd p q buffer rand here other = elim (Option-cases (D.write s fd buffer)) [
    | inl e ↦ rw e refl
    | inr ((k, s'), e) ↦ rw e (law.write-other s s' fd 0 k p q buffer here other e)
  ]

  module _ (rand : ℕ → ℕ) (buffer : Text) where
    copiar_una-made :
        (i : ℕ) (s : P.State)
        → OneWritten rand P D buffer i s
        → size P (copiar_una rand P D buffer i s) (dest_path rand i) ≡ some (length buffer)
    unfolding copiar_una
    copiar_una-made i s (fd, s', u, e, w) =
        let p = dest_path rand i in
        let here = law.open-at s s' p wronly_creat_trunc fd e in
        let sz = law.open-truncated s s' p wronly_creat_trunc fd refl e in
        rw (copiar_una, e) (law.close-size _ fd p ∙ written_full s' u fd p buffer rand here sz w)

    -- A file of the size of the copies keeps it: another copy that gets the same name has it too.
    copiar_una-kept :
        (i : ℕ) (s : P.State) (q : Text)
        → OneWritten rand P D buffer i s
        → size P s q ≡ some (length buffer)
        → size P (copiar_una rand P D buffer i s) q ≡ some (length buffer)
    unfolding copiar_una
    copiar_una-kept i s q one sz = elim (Bool-cases (str_eq q (dest_path rand i))) [
      | inl e ↦ rw ((str_eq_iff q (dest_path rand i)).0 e) (copiar_una-made i s one)
      | inr e ↦
          let p = dest_path rand i in
          let other : q ≢ p = λ same. let t = (str_eq_iff q p).1 same in cc in
          let (fd, s', u, o, w) = one in
          let here = law.open-at s s' p wronly_creat_trunc fd o in
          rw (copiar_una, o)
            (law.close-size _ fd q
              ∙ written-other s' fd p q buffer rand here other
              ∙ law.open-other s s' p q wronly_creat_trunc fd other o
              ∙ sz)
    ]

    copiar-kept :
        (n i : ℕ) (s : P.State) (q : Text)
        → AllWritten rand P D buffer n i s
        → size P s q ≡ some (length buffer)
        → size P (copiar rand P D buffer n i s) q ≡ some (length buffer)
    unfolding copiar
    copiar-kept zero i s q all sz = sz
    copiar-kept (suc n) i s q (one, all) sz =
        copiar-kept n (i + 1) _ q all (copiar_una-kept i s q one sz)

    copiar-made :
        (n i j : ℕ) (s : P.State)
        → AllWritten rand P D buffer n i s
        → i ≤ j
        → j < i + n
        → size P (copiar rand P D buffer n i s) (dest_path rand j) ≡ some (length buffer)
    unfolding copiar
    copiar-made zero i j s all l m = absurd (omega (arith, l, m))
    copiar-made (suc n) i j s (one, all) l m = elim (equal_or_later i j l) [
      | inl e ↦
          ap
            (λ k.
              size P (copiar rand P D buffer n (i + 1) (copiar_una rand P D buffer i s))
                (dest_path rand k))
            (sym e)
          ∙ copiar-kept n (i + 1) _ (dest_path rand i) all (copiar_una-made i s one)
      | inr k ↦ copiar-made n (i + 1) j _ all (omega (arith, k)) (omega (arith, m))
    ]

  -- A buffer has as many bytes as its block.
  length-leido :
      (rand : ℕ → ℕ) (n fd : ℕ) (s : P.State) (block : Text)
      → length block ≡ n
      → length (leido rand P D block (D.read s fd n)) ≡ n
  length-leido rand n fd s block whole = elim (Option-cases (D.read s fd n)) [
    | inl e ↦ rw e whole
    | inr ((bytes, s'), e) ↦
        let fits = law.read-count s s' fd n bytes e in
        let both = length-append bytes (drop (length bytes) block) in
        let behind = length-drop (length bytes) block in
        rw e (omega (arith, whole, fits, both, behind))
  ]

  tras_leer-size :
      (rand : ℕ → ℕ) (n fd : ℕ) (s : P.State) (q : Text)
      → size P (tras_leer rand P D s (D.read s fd n)) q ≡ size P s q
  tras_leer-size rand n fd s q = elim (Option-cases (D.read s fd n)) [
    | inl e ↦ rw e refl
    | inr ((bytes, s'), e) ↦ rw e (law.read-size s s' fd n bytes q e)
  ]

  module _ (rand : ℕ → ℕ) (malloc : ℕ → Option Text)
      (block_size : (n : ℕ) (block : Text) → malloc n ≡ some block → length block ≡ n) where
    -- All the copies, and the original, have the size `n`.
    abbrev IsReplicated : ℕ → P.State → Type 0
    IsReplicated n s =
        (size P s original ≡ some n)
        × ((j : ℕ) → j < num_copies → size P s (dest_path rand j) ≡ some n)

    -- The bytes to write are as many as the file has, and the file still has its size.
    abbrev IsReady : ℕ → Text → P.State → Type 0
    IsReady n buffer s = (length buffer ≡ n) × (size P s original ≡ some n)

    con_buffer-IsReady :
        (n fd : ℕ) (s s' : P.State) (buffer : Text)
        → size P s original ≡ some n
        → con_buffer rand P D malloc n fd s (malloc n) ≡ inr (buffer, s')
        → IsReady n buffer s'
    con_buffer-IsReady n fd s s' buffer sz run = elim (Option-cases (malloc n)) [
      | inl e ↦ absurd (early (rw e at run))
      | inr (block, e) ↦
          let r = D.read s fd n in
          let same : inr (leido rand P D block r, D.close (tras_leer rand P D s r) fd)
              ≡ inr (buffer, s') =
            rw e at run in
          let full : length (leido rand P D block r) ≡ n =
            length-leido rand n fd s block (block_size n block e) in
          let sz' : size P (D.close (tras_leer rand P D s r) fd) original ≡ some n =
            law.close-size _ fd original ∙ tras_leer-size rand n fd s original ∙ sz in
          let pair : (leido rand P D block r, D.close (tras_leer rand P D s r) fd) ≡ (buffer, s') =
            inr-injective _ _ same in
          subst (λ b. IsReady n b.0 b.1) pair (full, sz')
    ]

    con_stat-IsReady :
        (n : ℕ) (s s' : P.State) (buffer : Text)
        → size P s original ≡ some n
        → con_stat rand P D malloc s (P.stat s original) ≡ inr (buffer, s')
        → IsReady n buffer s'
    con_stat-IsReady n s s' buffer sz run = elim (Option-cases (P.stat s original)) [
      | inl e ↦ absurd (early (rw e at run))
      | inr (st, e) ↦
          let same : st.st_size ≡ n = some-injective _ _ (rw e at sz) in
          elim (Option-cases (D.open_file s original rdonly)) [
            | inl f ↦ absurd (early (rw (e, con_stat, f) at run))
            | inr ((fd, t), f) ↦
                let kept = law.open-kept s t original rdonly fd n refl sz f in
                con_buffer-IsReady n fd t s' buffer kept (rw (e, con_stat, f, same) at run)
          ]
    ]

    preparar-IsReady :
        (n : ℕ) (s s' : P.State) (buffer : Text)
        → size P s original ≡ some n
        → preparar rand P D malloc s ≡ inr (buffer, s')
        → IsReady n buffer s'
    unfolding preparar
    preparar-IsReady n s s' buffer sz run =
        elim (Option-cases (D.open_file s original wronly_creat)) [
          | inl e ↦ absurd (early (rw (preparar, e) at run))
          | inr ((fd, t), e) ↦
              let kept =
                law.close-size t fd original
                ∙ law.open-kept s t original wronly_creat fd n refl sz e in
              con_stat-IsReady n (D.close t fd) s' buffer kept (rw (preparar, e) at run)
        ]

    -- A run that gets to its loop, and whose copies can be opened and are written in full.
    pub main-IsReplicated :
        (n : ℕ) (s t : P.State) (buffer : Text)
        → size P s original ≡ some n
        → preparar rand P D malloc s ≡ inr (buffer, t)
        → AllWritten rand P D buffer num_copies 0 t
        → (s' : P.State) × (main rand P D malloc s ≡ (0, s')) × IsReplicated n s'
    unfolding main
    main-IsReplicated n s t buffer sz ready all =
        let (full, kept) = preparar-IsReady n s t buffer sz ready in
        (
          copiar rand P D buffer num_copies 0 t,
          rw (main, ready) refl,
          (
            copiar-kept rand buffer num_copies 0 t original all (kept ∙ ap some (sym full))
                ∙ ap some full,
            λ j small.
                copiar-made rand buffer num_copies 0 j t all (omega arith) (omega (arith, small))
                ∙ ap some full,
          ),
        )
