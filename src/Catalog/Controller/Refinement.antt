-- ===== src/Catalog/Controller/Refinement.antt =====
-- The controller implements the map from ids to Thing Descriptions: in any sequence of calls, each call
-- has the effect that is specified for it, whether it returns or not.
use thing_directory.Common.{◌≡◌, ap, Bool, String, List, [], ◌∷◌}
use thing_directory.Common.Order.{text_order}
use thing_directory.Time.{Time}
use thing_directory.Errors.{is_ok}
use thing_directory.LevelDb.{LevelDb, IsFaultless}
use thing_directory.Libraries.{Libraries}
use thing_directory.Catalog.Storage
use thing_directory.Catalog.Controller.{Controller, add, update, patch, delete, get_td}
use thing_directory.Catalog.Controller.RoundTrip.{gets}
use thing_directory.Catalog.Controller.Specification.{
  Call, adding, updating, patching, removing, View,
}

module _ (lib : Libraries) (schemas : List lib.Schema) where
  module _ (L : LevelDb String) (sure : IsFaultless L) where
    abbrev pub perform : Call → Controller L → Controller L
    perform (adding td now uuid) c = (add lib L schemas td now uuid c).1
    perform (updating id td now) c = (update lib L schemas id td now c).1
    perform (patching id sent now) c = (patch lib L schemas id sent now c).1
    perform (removing id) c = (delete lib L schemas id c).1

    -- Whether a call returns without an error.
    abbrev pub returns : Call → Controller L → Bool
    returns (adding td now uuid) c = is_ok (add lib L schemas td now uuid c).0
    returns (updating id td now) c = is_ok (update lib L schemas id td now c).0
    returns (patching id sent now) c = is_ok (patch lib L schemas id sent now c).0
    returns (removing id) c = is_ok (delete lib L schemas id c).0

    abbrev pub replies : List Call → Controller L → List Bool
    replies [] c = []
    replies (call ∷ calls) c = returns call c ∷ replies calls (perform call c)

    abbrev pub perform_all : List Call → Controller L → Controller L
    perform_all [] c = c
    perform_all (call ∷ calls) c = perform_all calls (perform call c)

    abbrev pub view : Controller L → View
    view c j = gets lib L sure schemas j c

    pub view_storage :
        (c d : Controller L) → d.storage ≡ c.storage → (j : String) → view d j ≡ view c j
    unfolding get_td
    view_storage c d same j = ap (λ s. (Storage.get lib L j s).0) same
