-- ===== src/Io/Shared/Files.antt =====
-- The files behind the shared mutex, as the calls of the processes find them.
use c_bdd.Base.{ℕ, ◌≡◌, ◌≢◌, Option, none, some, List}
use c_bdd.Io.Shared.{SharedCalls}

-- The files as the calls of the processes find them. A file has a number; it has a name or not, a
-- process opens it, and has it at an address. The laws are the documented behaviour of the calls.
pub record FileSystem {W : Type 0} (calls : (pid : ℕ) → SharedCalls W) : Type 0 where
  pub named : (name : List ℕ) → W → Option ℕ
  pub file_of : (pid descriptor : ℕ) → W → Option ℕ
  pub file_at : (pid address : ℕ) → W → Option ℕ
  -- `unlink` takes the name away, and no memory
  pub unlinked : (p : ℕ) (name : List ℕ) (w : W) → named name ((calls p).unlink name w) ≡ none
  pub unlink_keeps :
      (p : ℕ) (name : List ℕ) (q a : ℕ) (w : W)
      → file_at q a ((calls p).unlink name w) ≡ file_at q a w
  -- `open` with O_CREAT gives the file of the name, or a new one
  pub opened :
      (p d f : ℕ) (name : List ℕ) (w : W)
      → ((calls p).open_file name w).0 ≡ some d
      → named name w ≡ some f
      → file_of p d ((calls p).open_file name w).1 ≡ some f
  pub created :
      (p d : ℕ) (name : List ℕ) (w : W)
      → ((calls p).open_file name w).0 ≡ some d
      → named name w ≡ none
      → (f : ℕ) × (file_of p d ((calls p).open_file name w).1 ≡ some f)
        × (named name ((calls p).open_file name w).1 ≡ some f)
        × ((q a : ℕ) → file_at q a w ≢ some f)
  pub open_keeps :
      (p : ℕ) (name : List ℕ) (q a : ℕ) (w : W)
      → file_at q a ((calls p).open_file name w).1 ≡ file_at q a w
  -- `ftruncate` changes no more than the size
  pub truncate_keeps :
      (p : ℕ) (file : Option ℕ) (size : ℕ) (w : W)
      → ((name : List ℕ) → named name ((calls p).truncate file size w) ≡ named name w)
        × ((d : ℕ) → file_of p d ((calls p).truncate file size w) ≡ file_of p d w)
        × ((q a : ℕ) → file_at q a ((calls p).truncate file size w) ≡ file_at q a w)
  -- `mmap` has the file at the address that it returns, which was free; -1 is no file
  pub bad_file : (p size : ℕ) (w : W) → ((calls p).map_file none size w).0 ≡ none
  pub mapped :
      (p d a size : ℕ) (w : W)
      → ((calls p).map_file (some d) size w).0 ≡ some a
      → file_at p a ((calls p).map_file (some d) size w).1 ≡ file_of p d w
  pub map_keeps :
      (p : ℕ) (file : Option ℕ) (size : ℕ) (w : W)
      → ((name : List ℕ) → named name ((calls p).map_file file size w).1 ≡ named name w)
        × ((q a f : ℕ)
            → file_at q a w ≡ some f
            → file_at q a ((calls p).map_file file size w).1 ≡ some f)
  -- the calls of `pthread` keep away from the files
  pub attribute_keeps :
      (p q a : ℕ) (w : W) → file_at q a ((calls p).init_attribute w).1 ≡ file_at q a w
  pub share_keeps :
      (p q a : ℕ) (w : W) → file_at q a ((calls p).share_attribute w).1 ≡ file_at q a w
  pub mutex_keeps :
      (p address q a : ℕ) (w : W) → file_at q a ((calls p).init_mutex address w).1 ≡ file_at q a w
