-- ===== src/Start/Main/Closing.antt =====
-- What the program has opened, and what its deferred calls close.
use thing_directory.Common.{◌≡◌, ◌⊎◌, false, List, [], ◌∷◌}
use thing_directory.Common.Order.{text_order, bytes_order}
use thing_directory.Errors.{Result, is_ok}
use thing_directory.Exec.{Exec}
use thing_directory.LevelDb.{LevelDb}
use thing_directory.Libraries.{Libraries}
use thing_directory.Start.Packages.{Packages}
use thing_directory.Start.Config.{Config}
use thing_directory.Start.Main.{Part, Process, Start, event_queue, listener}

-- The deferred calls close each part that is open but the listener, in the reverse order of their
-- opening.
pub data Closes : List Part → List Part → Type 0 where
  at_start : Closes [] []
  closes : {part : Part} {os ds : List Part} → Closes os ds → Closes (part ∷ os) (part ∷ ds)
  idles : {part : Part} {os ds : List Part} → Closes os ds → Closes os (part ∷ ds)
  stays : {os ds : List Part} → Closes os ds → Closes (listener ∷ os) ds

abbrev IsClosing : Process → Type 0
IsClosing s = Closes s.opened s.deferred

-- All is closed but the event queue that was opened last.
abbrev pub LeavesQueue : List Part → List Part → Type 0
LeavesQueue os ds = (rest : List Part) × (os ≡ event_queue ∷ rest) × Closes rest ds

-- How a run ends: only one that does not return leaves an event queue open.
abbrev pub Ends : {A : Type 0} → Result A → List Part → List Part → Type 0
Ends r os ds = Closes os ds ⊎ ((is_ok r ≡ false) × LeavesQueue os ds)

abbrev IsEnd : {A : Type 0} → Result A × Process → Type 0
IsEnd (r, s) = Ends r s.opened s.deferred

record Keeps {A : Type 0} (m : Exec Process A) : Type 0 where
  keeps : (s : Process) → IsClosing s → IsEnd (m s)
