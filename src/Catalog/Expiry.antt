-- ===== src/Catalog/Expiry.antt =====
-- The removal of expired Thing Descriptions: `cleanExpired` of catalog/controller.go.
pub mod Sweep
use thing_directory.Common.{
  Option, none, some, List, [], ◌∷◌, String, Bool, true, false, ltb, if◌then◌else◌,
}
use thing_directory.Common.Order.{text_order}
use thing_directory.Time.{Time, Rfc3339}
use thing_directory.Wot.{ThingRegistration, key_thing_id}
use thing_directory.Errors.{Result, ok, err, panicked, ◌>>=◌}
use thing_directory.Exec.{Exec, continue}
use thing_directory.Json.{ThingDescription, get, as_text}
use thing_directory.LevelDb.{LevelDb}
use thing_directory.Libraries.{Libraries}
use thing_directory.Catalog.Storage
use thing_directory.Catalog.Storage.{LevelDbStorage}
use thing_directory.Catalog.Registration.{thing_registration, thing_expires}

-- t.After(*expires)
abbrev pub is_over : Time → Option Time → Bool
is_over t none = false
is_over t (some expires) = ltb expires t

-- The loop over the iterator. A registration that cannot be parsed panics.
unfoldable pub expired_services :
    Rfc3339 → Time → List ThingDescription → Result (List ThingDescription)
expired_services rfc t [] = ok []
expired_services rfc t (td ∷ tds) = do
  tr ← thing_registration rfc td
  later ← expired_services rfc t tds
  ok (if is_over t (thing_expires tr) then td ∷ later else later)

module _ (lib : Libraries) (L : LevelDb String) where
  -- The loop over `expiredServices`. An id that is no text panics; an error of `delete` is logged.
  unfoldable pub remove_all : List ThingDescription → Exec (LevelDbStorage L) (Unit {0})
  remove_all [] s = (ok tt, s)
  remove_all (td ∷ tds) s = elim (as_text (get key_thing_id td)) [
    | none ↦ (panicked "interface conversion", s)
    | some id ↦ remove_all tds (Storage.delete lib L id s).1
  ]

  -- One round, at time t.
  unfoldable pub clean_expired : Time → Exec (LevelDbStorage L) (Unit {0})
  unfolding expired_services remove_all
  clean_expired t s = continue (expired_services lib.rfc t (Storage.iterator lib L s)) remove_all s

  -- The rounds of the ticker. A panic is recovered from, and the next round is a new goroutine's.
  unfoldable pub clean_rounds : List Time → LevelDbStorage L → LevelDbStorage L
  clean_rounds [] s = s
  clean_rounds (t ∷ ts) s = clean_rounds ts (clean_expired t s).1
