-- ===== src/Io/Shared/Isolation.antt =====
-- A process gets a mutex of its own from `initialize`, and shares it where another opens the file.
use c_bdd.Base.{
  ℕ, ◌≡◌, ◌≢◌, sym, ◌∙◌, subst, inl, inr, none, some, Option-cases, Outcome, ok, IfOk, IfOk-ok,
  if-then, if◌then◌else◌, undefined, throws, bad_mutex, ◌==◌, not,
}
use c_bdd.Io.Shared.{
  SharedCalls, mmap_name, Shared, open_structure, mmap_exclusion_structure, init_print_mutex,
  initialize,
}
use c_bdd.Io.Shared.Files.{FileSystem}
use c_bdd.Io.Shared.Opening.{
  Keeps, open_structure-Keeps, open_structure-created, open_structure-existing,
}

module _ {W : Type 0} {calls : (pid : ℕ) → SharedCalls W} (files : FileSystem calls) where
  open files use {named, file_of, file_at}

  -- A process has its mutex in a file that no process had before, and what was mapped stays so.
  abbrev Owns : ℕ → W → Shared × W → Type 0
  Owns p w (shared, w') =
      (a : ℕ) × (f : ℕ) × (shared.synchronisation_map ≡ some a)
      × (file_at p a w' ≡ some f)
      × ((q b : ℕ) → file_at q b w ≢ some f)
      × Keeps files w w'

  mmap_exclusion_structure-Owns :
      (p a : ℕ) (shared : Shared) (w : W)
      → (mmap_exclusion_structure (calls p) shared w).0.synchronisation_map ≡ some a
      → Owns p w (mmap_exclusion_structure (calls p) shared w)
  unfolding mmap_exclusion_structure
  mmap_exclusion_structure-Owns p a shared w known =
      let unnamed = (calls p).unlink mmap_name w in
      let (f, found, _, fresh) =
        open_structure-created files p shared unnamed a known (files.unlinked p mmap_name w) in
      (
        a,
        f,
        known,
        found,
        λ q b e. fresh q b (files.unlink_keeps p mmap_name q b w ∙ e),
        λ q b g e.
            open_structure-Keeps files p shared unnamed q b g
              (files.unlink_keeps p mmap_name q b w ∙ e),
      )

  Owns-kept :
      (p : ℕ) (w : W) (shared : Shared) (w' w'' : W)
      → ((q b : ℕ) → file_at q b w'' ≡ file_at q b w')
      → Owns p w (shared, w')
      → Owns p w (shared, w'')
  Owns-kept p w shared w' w'' same (a, f, known, found, fresh, keeps) =
      (a, f, known, same p a ∙ found, fresh, λ q b g e. same q b ∙ keeps q b g e)

  init_print_mutex-Owns :
      (p : ℕ) (w : W) (shared : Shared) (w' w'' : W)
      → ((q b : ℕ) → file_at q b w'' ≡ file_at q b w')
      → ((a : ℕ) → shared.synchronisation_map ≡ some a → Owns p w (shared, w'))
      → IfOk (Owns p w) (init_print_mutex (calls p) shared w'')
  unfolding init_print_mutex
  init_print_mutex-Owns p w shared w' w'' same owns =
      elim (Option-cases shared.synchronisation_map) [
        | inl failed ↦ rw (failed, init_print_mutex) tt
        | inr (a, known) ↦
            let kept =
              Owns-kept p w shared w' ((calls p).init_mutex a w'').1
                (λ q b. files.mutex_keeps p a q b w'' ∙ same q b) (owns a known) in
            subst
              (λ x. IfOk (Owns p w) (elim x [
                | none ↦ undefined
                | some address ↦
                    let (failed, left) = (calls p).init_mutex address w'' in
                    if not (failed == 0) then throws bad_mutex else ok (shared, left)
              ]))
              (sym known)
              (if-then (IfOk (Owns p w)) (not (((calls p).init_mutex a w'').0 == 0)) tt kept)
      ]

  module _ (p : ℕ) (shared : Shared) (w : W) where
    abbrev began : Shared
    began = record shared { parent_pid = p }

    abbrev w1 : W
    w1 = (mmap_exclusion_structure (calls p) began w).1

    abbrev w2 : W
    w2 = ((calls p).init_attribute w1).1

    -- What `initialize` does behind its first call on the mutex's attribute.
    abbrev behind_attribute : Outcome (Shared × W)
    behind_attribute =
        if not (((calls p).share_attribute w2).0 == 0)
        then throws bad_mutex
        else init_print_mutex (calls p) (mmap_exclusion_structure (calls p) began w).0
            ((calls p).share_attribute w2).1

    initialize-Owns : IfOk (Owns p w) (initialize (calls p) p shared w)
    unfolding initialize
    initialize-Owns =
        if-then (IfOk (Owns p w)) (not (((calls p).init_attribute w1).0 == 0))
          {x = throws bad_mutex} {y = behind_attribute} tt
          (if-then (IfOk (Owns p w)) (not (((calls p).share_attribute w2).0 == 0))
            {x = throws bad_mutex} tt
            (init_print_mutex-Owns p w (mmap_exclusion_structure (calls p) began w).0 w1 _
              (λ q b. files.share_keeps p q b w2 ∙ files.attribute_keeps p q b w1)
              (λ a known. mmap_exclusion_structure-Owns p a began w known)))

  -- A debugger that is started after another has a mutex of its own. If both have set up theirs,
  -- each has it in a file, and these are different files, the first one's still in place: the two
  -- neither exclude nor disturb each other. The calls on the files do what they document.
  pub initialize-own_mutex :
      (p q : ℕ) (s t s' t' : Shared) (w w' w'' : W)
      → initialize (calls p) p s w ≡ ok (s', w')
      → initialize (calls q) q t w' ≡ ok (t', w'')
      → (a : ℕ) × (b : ℕ) × (f : ℕ) × (g : ℕ) × (s'.synchronisation_map ≡ some a)
        × (t'.synchronisation_map ≡ some b)
        × (file_at p a w'' ≡ some f)
        × (file_at q b w'' ≡ some g)
        × (f ≢ g)
  initialize-own_mutex p q s t s' t' w w' w'' e e' =
      let (a, f, known, found, _, _) =
        IfOk-ok (Owns p w) (initialize (calls p) p s w) e (initialize-Owns p s w) in
      let (b, g, known', found', fresh, keeps) =
        IfOk-ok (Owns q w') (initialize (calls q) q t w') e' (initialize-Owns q t w') in
      (
        a,
        b,
        f,
        g,
        known,
        known',
        keeps p a f found,
        found',
        λ same. fresh p a (subst (λ x. file_at p a w' ≡ some x) same found),
      )

  -- The bug: two debuggers that start at once can get the same mutex. If both have taken the name away
  -- before either opens the file, the second one opens the file that the first has just created, so
  -- that where both mappings succeed, the mutex that it sets up next is the first one's.
  pub open_structure-race :
      (p q : ℕ) (s t : Shared) (w : W) (a b : ℕ)
      → let begun = (calls q).unlink mmap_name ((calls p).unlink mmap_name w) in
        let (s', w') = open_structure (calls p) s begun in
        let (t', w'') = open_structure (calls q) t w' in
        s'.synchronisation_map ≡ some a
        → t'.synchronisation_map ≡ some b
        → (f : ℕ) × (file_at p a w'' ≡ some f) × (file_at q b w'' ≡ some f)
  open_structure-race p q s t w a b known known' =
      let before = (calls p).unlink mmap_name w in
      let begun = (calls q).unlink mmap_name before in
      let w' = (open_structure (calls p) s begun).1 in
      let (f, found, has_name, _) =
        open_structure-created files p s begun a known (files.unlinked q mmap_name before) in
      (
        f,
        open_structure-Keeps files q t w' p a f found,
        open_structure-existing files q t w' b known' f has_name,
      )
