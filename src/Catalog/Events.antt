-- ===== src/Catalog/Events.antt =====
-- catalog/events.go: the listeners of the directory, called one after the other until one fails. A
-- listener acts on a state of its own.
use thing_directory.Common.{List, [], ◌∷◌}
use thing_directory.Exec.{Exec, pure, ◌>>◌}
use thing_directory.Json.{ThingDescription}

pub record EventListener (S : Type 0) : Type 0 where
  pub create_handler : ThingDescription → Exec S (Unit {0})
  pub update_handler : ThingDescription → ThingDescription → Exec S (Unit {0})
  pub delete_handler : ThingDescription → Exec S (Unit {0})

module _ {S : Type 0} where
  unfoldable pub created : List (EventListener S) → ThingDescription → Exec S (Unit {0})
  created [] td = pure tt
  created (l ∷ ls) td = do l.create_handler td; created ls td

  unfoldable pub updated :
      List (EventListener S) → ThingDescription → ThingDescription → Exec S (Unit {0})
  updated [] old td = pure tt
  updated (l ∷ ls) old td = do l.update_handler old td; updated ls old td

  unfoldable pub deleted : List (EventListener S) → ThingDescription → Exec S (Unit {0})
  deleted [] old = pure tt
  deleted (l ∷ ls) old = do l.delete_handler old; deleted ls old

-- A goroutine that a change of the directory starts: `go c.listeners.created(td)` and so on.
pub data Job : Type 0 where
  creation : ThingDescription → Job
  change : ThingDescription → ThingDescription → Job
  deletion : ThingDescription → Job

unfoldable pub run_job : {S : Type 0} → List (EventListener S) → Job → Exec S (Unit {0})
unfolding created updated deleted
run_job ls (creation td) = created ls td
run_job ls (change old td) = updated ls old td
run_job ls (deletion old) = deleted ls old
