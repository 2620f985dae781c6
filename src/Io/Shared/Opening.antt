-- ===== src/Io/Shared/Opening.antt =====
-- Which file `mmapExclusionStructure` maps.
use c_bdd.Base.{ℕ, ◌≡◌, ◌≢◌, refl, sym, ◌∙◌, subst, Option, none, some}
use c_bdd.Io.Shared.{SharedCalls, mmap_name, mutex_size, Shared, open_structure}
use c_bdd.Io.Shared.Files.{FileSystem}

module _ {W : Type 0} {calls : (pid : ℕ) → SharedCalls W} (files : FileSystem calls) where
  open files use {named, file_of, file_at}

  -- What is mapped stays mapped.
  abbrev pub Keeps : W → W → Type 0
  Keeps w w' = (q a f : ℕ) → file_at q a w ≡ some f → file_at q a w' ≡ some f

  mapped_through :
      (p : ℕ) (file : Option ℕ) (d a size : ℕ) (w : W)
      → file ≡ some d
      → ((calls p).map_file file size w).0 ≡ some a
      → file_at p a ((calls p).map_file file size w).1 ≡ file_of p d w
  mapped_through p file d a size w e =
      subst
        (λ x.
          ((calls p).map_file x size w).0 ≡ some a
          → file_at p a ((calls p).map_file x size w).1 ≡ file_of p d w)
        (sym e) (files.mapped p d a size w)

  mapped_file :
      (p : ℕ) (file : Option ℕ) (a size : ℕ) (w : W)
      → ((calls p).map_file file size w).0 ≡ some a
      → (d : ℕ) × (file ≡ some d)
  mapped_file p none a size w known = cc (files.bad_file p size w)
  mapped_file p (some d) a size w known = (d, refl)

  module _ (p : ℕ) (shared : Shared) (w : W) where
    abbrev opened_world : W
    opened_world = ((calls p).open_file mmap_name w).1

    abbrev sized_world : W
    sized_world = (calls p).truncate ((calls p).open_file mmap_name w).0 mutex_size opened_world

    abbrev pub after_open : Shared × W
    after_open = open_structure (calls p) shared w

    open_structure-named :
        (f : ℕ) → named mmap_name opened_world ≡ some f → named mmap_name after_open.1 ≡ some f
    unfolding open_structure
    open_structure-named f h =
        (files.map_keeps p _ mutex_size sized_world).0 mmap_name
        ∙ (files.truncate_keeps p _ mutex_size opened_world).0 mmap_name
        ∙ h

    pub open_structure-Keeps : Keeps w after_open.1
    unfolding open_structure
    open_structure-Keeps q a f h = (files.map_keeps p _ mutex_size sized_world).1 q a f (
        (files.truncate_keeps p _ mutex_size opened_world).2 q a
        ∙ files.open_keeps p mmap_name q a w
        ∙ h)

    module _ (a : ℕ) (known : after_open.0.synchronisation_map ≡ some a) where
      opened_file : (d : ℕ) × (((calls p).open_file mmap_name w).0 ≡ some d)
      unfolding open_structure
      opened_file = mapped_file p ((calls p).open_file mmap_name w).0 a mutex_size sized_world known

      open_structure-file :
          (d f : ℕ)
          → ((calls p).open_file mmap_name w).0 ≡ some d
          → file_of p d opened_world ≡ some f
          → file_at p a after_open.1 ≡ some f
      unfolding open_structure
      open_structure-file d f e has_file =
          mapped_through p ((calls p).open_file mmap_name w).0 d a mutex_size sized_world e known
          ∙ (files.truncate_keeps p _ mutex_size opened_world).1 d
          ∙ has_file

      -- Where the name is free, the mutex is in a new file, which gets the name.
      pub open_structure-created :
          named mmap_name w ≡ none
          → (f : ℕ) × (file_at p a after_open.1 ≡ some f)
            × (named mmap_name after_open.1 ≡ some f)
            × ((q b : ℕ) → file_at q b w ≢ some f)
      open_structure-created unnamed =
          let (d, e) = opened_file in
          let (f, has_file, has_name, fresh) = files.created p d mmap_name w e unnamed in
          (f, open_structure-file d f e has_file, open_structure-named f has_name, fresh)

      -- Where a file has the name, the mutex is in that file.
      pub open_structure-existing :
          (f : ℕ) → named mmap_name w ≡ some f → file_at p a after_open.1 ≡ some f
      open_structure-existing f has_name =
          let (d, e) = opened_file in
          open_structure-file d f e (files.opened p d f mmap_name w e has_name)
