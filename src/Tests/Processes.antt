-- ===== src/Tests/Processes.antt =====
-- Processes beside each other: a debugger with its child, and two debuggers over a small file system.
use c_bdd.Base.{
  ℕ, ◌+◌, ◌<◌, ◌≡◌, ◌≢◌, refl, ◌⊎◌, Option, none, some, List, [], ◌∷◌, ◌++◌, map, codes, arith, leb,
  if◌then◌else◌, false,
}
use c_bdd.Io.{Event, locked, unlocked, wrote, bypassed, cout}
use c_bdd.Io.Processes.{init_child, child_text, act}
use c_bdd.Text.{line, unsigned}
use c_bdd.Io.Attach.{
  does, resumes, awaits, child_does, Attaching, Step, Reaches, start, next, debugger_stops,
  forked_with, attach_actions,
}
use c_bdd.Io.Attach.Progress.{AllDone, remaining, attach-ends}
use c_bdd.Io.Shared.{SharedCalls, Shared, open_structure, initialize}
use c_bdd.Io.Shared.Files.{FileSystem}
use c_bdd.Io.Shared.Isolation.{initialize-own_mutex, open_structure-race}

abbrev ready : List Event
ready = locked ∷ wrote cout (codes "ready.") ∷ unlocked ∷ []

abbrev both : Attaching
both = forked_with (attach_actions false ++ map does ready) (init_child 7 false)

-- The child has ended its first line when the debugger stops it.
abbrev stopped_child : Attaching
stopped_child = record both {
  running = false;
  debugger_left = resumes ∷ awaits ∷ map does ready;
  child_left =
      locked ∷ wrote cout (child_text (codes "ready, pid=" ++ line (unsigned 7))) ∷ unlocked ∷ [];
}

both-Reaches : Reaches both stopped_child
unfolding attach_actions init_child act
both-Reaches =
    next (next start (child_does (bypassed (10 ∷ [])) refl refl refl)) (debugger_stops refl)

attach-ends_example :
    (AllDone stopped_child ⊎ ((u : Attaching) × Step stopped_child u))
    × ((u : Attaching) → Step stopped_child u → remaining u < remaining stopped_child)
attach-ends_example = attach-ends ready 7 refl stopped_child both-Reaches

-- One file may have a name, and every file up to `mapped` is mapped, at its own number.
record World : Type 0 where
  slot : Option ℕ
  mapped : ℕ

abbrev open_slot : World → Option ℕ × World
open_slot w = elim w.slot [
  | none ↦ (some (w.mapped + 1), record w { slot = some (w.mapped + 1) })
  | some f ↦ (some f, w)
]

abbrev map_slot : Option ℕ → World → Option ℕ × World
map_slot none w = (none, w)
map_slot (some d) w = (some d, record w { mapped = if leb d w.mapped then w.mapped else d })

abbrev calls : (pid : ℕ) → SharedCalls World
calls pid = record {
  unlink = λ name w. record w { slot = none };
  open_file = λ name w. open_slot w;
  truncate = λ file size w. w;
  map_file = λ file size w. map_slot file w;
  unmap = λ address size w. w;
  init_attribute = λ w. (0, w);
  share_attribute = λ w. (0, w);
  init_mutex = λ address w. (0, w);
}

abbrev file_at : ℕ → World → Option ℕ
file_at a w = if leb a w.mapped then some a else none

open_slot-opened :
    (d f : ℕ) (w : World) → (open_slot w).0 ≡ some d → w.slot ≡ some f → some d ≡ some f
open_slot-opened d f w e s = ground arith

open_slot-created :
    (d : ℕ) (w : World)
    → (open_slot w).0 ≡ some d
    → w.slot ≡ none
    → (f : ℕ) × (some d ≡ some f)
      × ((open_slot w).1.slot ≡ some f)
      × ((q a : ℕ) → file_at a w ≢ some f)
open_slot-created d w e s = (w.mapped + 1, ground arith, ground arith, λ q a h. ground arith)

map_slot-mapped :
    (d a : ℕ) (w : World) → some d ≡ some a → file_at a (map_slot (some d) w).1 ≡ some d
map_slot-mapped d a w e = ground arith

map_slot-keeps :
    (file : Option ℕ) (a f : ℕ) (w : World)
    → file_at a w ≡ some f
    → file_at a (map_slot file w).1 ≡ some f
map_slot-keeps none a f w h = h
map_slot-keeps (some d) a f w h = ground arith

map_slot-slot : (file : Option ℕ) (w : World) → (map_slot file w).1.slot ≡ w.slot
map_slot-slot none w = refl
map_slot-slot (some d) w = refl

open_slot-mapped : (w : World) → (open_slot w).1.mapped ≡ w.mapped
open_slot-mapped w = ground arith

files : FileSystem calls
files = record {
  named = λ name w. w.slot;
  file_of = λ pid d w. some d;
  file_at = λ pid a w. file_at a w;
  unlinked = λ p name w. refl;
  unlink_keeps = λ p name q a w. refl;
  opened = λ p d f name w. open_slot-opened d f w;
  created = λ p d name w. open_slot-created d w;
  open_keeps = λ p name q a w. rw (open_slot-mapped w) refl;
  truncate_keeps = λ p file size w. (λ name. refl, λ d. refl, λ q a. refl);
  bad_file = λ p size w. refl;
  mapped = λ p d a size w. map_slot-mapped d a w;
  map_keeps = λ p file size w. (λ name. map_slot-slot file w, λ q a f. map_slot-keeps file a f w);
  attribute_keeps = λ p q a w. refl;
  share_keeps = λ p q a w. refl;
  mutex_keeps = λ p address q a w. refl;
}

-- The file of an earlier session still has the name.
abbrev leftover : World
leftover = record { slot = some 3; mapped = 3 }

abbrev unset : Shared
unset = record { parent_pid = 0; synchronisation_map = none }

abbrev set_up : (pid address : ℕ) → Shared
set_up pid address = record { parent_pid = pid; synchronisation_map = some address }

initialize-own_mutex_example :
    (a : ℕ) × (b : ℕ) × (f : ℕ) × (g : ℕ) × (some 4 ≡ some a)
    × (some 5 ≡ some b)
    × (file_at a (record { slot = some 5; mapped = 5 }) ≡ some f)
    × (file_at b (record { slot = some 5; mapped = 5 }) ≡ some g)
    × (f ≢ g)
unfolding initialize files
initialize-own_mutex_example =
    initialize-own_mutex files 20 21 unset unset (set_up 20 4) (set_up 21 5) leftover
      (record { slot = some 4; mapped = 4 }) (record { slot = some 5; mapped = 5 }) refl refl

open_structure-race_example :
    (f : ℕ) × (file_at 4 (record { slot = some 4; mapped = 4 }) ≡ some f)
    × (file_at 4 (record { slot = some 4; mapped = 4 }) ≡ some f)
unfolding open_structure files
open_structure-race_example = open_structure-race files 20 21 unset unset leftover 4 4 refl refl
