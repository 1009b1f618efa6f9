-- ===== src/Examples.antt =====
-- Concrete packages, Thing Descriptions and states, on which the theorems are run. A time is written in
-- unary, which meets the law of RFC 3339 text; a merge patch is the patch itself.
pub mod Witnesses
pub mod Runs
pub mod Answers
pub mod Notifications
pub mod Starts
pub mod Requests
pub mod Publications
pub mod Calls
pub mod Routing
pub mod Servings
pub mod Stores
use mathlib.Core.Path.{subst}
use Prim.Native.Char.{Char}
use thing_directory.Common.{
  ◌+◌, ◌-◌, ◌*◌, Bool-cases, leb, ◌≤◌, min, sym, ◌⊎◌, inl, inr, arith, ℕ, zero, suc, ◌<◌, ◌≡◌, refl,
  ap, Bool, true, false, String, Option, none, some, List, [], ◌∷◌, ◌==◌, if◌then◌else◌,
}
use thing_directory.Common.Order.{text_order, bytes_order}
use thing_directory.Time.{Time, Rfc3339, year_10000}
use thing_directory.Wot.{ThingRegistration}
use thing_directory.Errors.{Io, done, fault}
use thing_directory.Json.{
  Value, text, number, Fields, end, field, registration, object, ThingDescription, Bytes,
}
use thing_directory.Json.Print.{print}
use thing_directory.LevelDb.{LevelDb}
use thing_directory.LevelDb.Memory.{done-injective, Memory, memory, empty, insert}
use thing_directory.Libraries.{Libraries, IsPaging}
use thing_directory.Catalog.Controller.{Controller}
use thing_directory.Catalog.Http.{Request}
use thing_directory.Notification.Queue.{Event, LevelDbEventQueue}

unfoldable pub ticks : ℕ → String
ticks zero = ""
ticks (suc n) = String.◌∷◌ "|" (ticks n)

unfoldable pub count : String → ℕ
count String.[] = 0
count (String.◌∷◌ c s) = suc (count s)

pub count-ticks : (n : ℕ) → count (ticks n) ≡ n
unfolding count ticks
count-ticks zero = refl
count-ticks (suc n) = ap suc (count-ticks n)

-- The elements from `from` on, at most `most` of them.
abbrev pub test_window : ℕ → ℕ → ℕ → ℕ × ℕ
test_window total from most = (min total from, min most (total - from))

window_within : (total from most : ℕ) → min total from + min most (total - from) ≤ total
window_within total from most = omega arith

window_start : (total from most : ℕ) → (min most (total - from) ≡ 0) ⊎ (min total from ≡ from)
window_start total from most = elim (Bool-cases (leb total from)) [
  | inl over ↦ inl (ground arith)
  | inr under ↦ inr (ground arith)
]

abbrev pub test_lib : Libraries
test_lib = record {
  rfc = record {
    format = ticks;
    parse = λ s. some (count s);
    parse-format = λ t h. ap some (count-ticks t);
  };
  Schema = Unit;
  read_schema = λ path. done tt;
  schema_validate = λ schema td. done (true, []);
  merge_patch = λ old patch. done patch;
  create_merge_patch = λ old new. done new;
  json_path = λ bytes path. done bytes;
  parse_document = λ bytes. fault "no document";
  query_all = λ doc path. done [];
  parse_float = λ s. none;
  parse_bool = λ s. if s == "true" then some true else if s == "false" then some false else none;
  int_value = λ n. number (record { bits = n });
  paging = λ total page per_page most. done (test_window total (per_page * (page - 1)) per_page);
  parse_paging = λ page per_page most. done (1, 100);
}

abbrev pub test_db : LevelDb String
test_db = memory String

abbrev pub test_queue_db : LevelDb (List ℕ)
test_queue_db = memory (List ℕ)

-- A Thing Description, which expires at the instant 7.
abbrev pub lamp_registration : ThingRegistration
lamp_registration = record {
  created = some 3;
  expires = some 7;
  modified = some 3;
  retrieved = none;
  ttl = none;
}

abbrev pub lamp : ThingDescription
lamp =
    field "id" (text "urn:lamp")
      (field "registration" (registration lamp_registration) (field "title" (text "Lamp") end))

abbrev pub new_lamp : ThingDescription
new_lamp = field "id" (text "urn:lamp") (field "title" (text "New lamp") end)

abbrev pub switch : ThingDescription
switch = field "title" (text "Switch") end

abbrev pub no_controller : Controller test_db
no_controller = record { storage = record { db = empty; wg = 0 }; spawned = [] }

abbrev pub lamp_controller : Controller test_db
lamp_controller = record {
  storage = record { db = insert empty "urn:lamp" (print test_lib.rfc (object lamp) []); wg = 0 };
  spawned = [];
}

abbrev pub request : String → ThingDescription → Request
request id td = record {
  body = done (print test_lib.rfc (object td) []);
  id = id;
  form_error = none;
  form = λ name. "";
  uri = "/things";
  now = 5;
  uuid = "1";
  instance_uuid = "2";
}

pub test_lib-IsPaging : IsPaging test_lib
test_lib-IsPaging = record {
  subset = λ total page per_page most {o} {l} e.
      let same = done-injective (test_window total (per_page * (page - 1)) per_page) (o, l) e in
      subst (λ (w : ℕ × ℕ). w.0 + w.1 ≤ total) same
        (window_within total (per_page * (page - 1)) per_page);
  pages = λ total page per_page most h k m.
      let from = per_page * (page - 1) in
      (min total from, min per_page (total - from), refl, refl, window_start total from per_page);
}
