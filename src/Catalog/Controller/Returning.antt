-- ===== src/Catalog/Controller/Returning.antt =====
-- When the calls of the controller return, over a store that does not fail.
use thing_directory.Common.{
  ◌≡◌, refl, sym, ◌∙◌, ap, true, false, String, Option, some, none, List, [], arith, ◌==◌, is_some,
}
use thing_directory.Common.Order.{text_order}
use thing_directory.Time.{Time}
use thing_directory.Wot.{ThingRegistration}
use thing_directory.Wot.Validation.{validate_against_schemas}
use thing_directory.Errors.{ok, err}
use thing_directory.Json.{ThingDescription, object, Bytes}
use thing_directory.Json.Print.{is_printable}
use thing_directory.Json.Parse.{unmarshal_map}
use thing_directory.LevelDb.{LevelDb, IsFaultless}
use thing_directory.Libraries.{Libraries}
use thing_directory.Catalog.Registration.{thing_registration}
use thing_directory.Catalog.Storage.{or_json_error, not_found_error}
use thing_directory.Catalog.Storage.Crud.{stored, decoded, get-state}
use thing_directory.Catalog.Storage.Results.{update-result, delete-result}
use thing_directory.Catalog.Controller.{
  Controller, add_with_id, get_td, update, replace, delete, validate, stamp,
}
use thing_directory.Catalog.Controller.Effects.{update-replace}
use thing_directory.Catalog.Controller.Outcomes.{add-succeeds}
use thing_directory.Catalog.Controller.RoundTrip.{gets, gets-decoded}
use thing_directory.Catalog.Controller.Stamping.{promised, stamp-promised}

module _ (lib : Libraries) (L : LevelDb String) (sure : IsFaultless L) (schemas : List lib.Schema)
    (c : Controller L) (id : String) where
  valid-lem :
      (td : ThingDescription)
      → validate_against_schemas lib td schemas ≡ ok []
      → validate lib L schemas td ≡ ok tt
  unfolding validate
  valid-lem td v = rw v refl

  not_found-decoded :
      (o : Option Bytes) → decoded lib L c.storage id o ≡ err (not_found_error id) → o ≡ none
  not_found-decoded none h = refl
  not_found-decoded (some bytes) h = go (unmarshal_map bytes) h
    where
      go :
          (r : Option ThingDescription)
          → or_json_error r ≡ err (not_found_error id)
          → some bytes ≡ none
      go none h = absurd (cc)
      go (some td) h = absurd (cc)

  found-decoded :
      (o : Option Bytes) (td : ThingDescription)
      → decoded lib L c.storage id o ≡ ok td
      → is_some o ≡ true
  found-decoded none td h = cc
  found-decoded (some bytes) td h = refl

  -- An `add` returns if the Thing Description is valid, its registration can be read, it is JSON once
  -- it is stamped, and its id is free.
  pub add-returns :
      (td : ThingDescription) (now : Time) (tr : Option ThingRegistration)
      → (id == "") ≡ false
      → validate_against_schemas lib td schemas ≡ ok []
      → thing_registration lib.rfc td ≡ ok tr
      → is_printable (object (promised (some now) tr now td)) ≡ true
      → gets lib L sure schemas id c ≡ err (not_found_error id)
      → (add_with_id lib L schemas id td now c).0 ≡ ok id
  add-returns td now tr named v read printable free =
      add-succeeds lib L schemas id c td now tr sure (valid-lem td v) read
        (ap (λ t. is_printable (object t)) (stamp-promised (some now) tr now td) ∙ printable) named
        (not_found-decoded (stored L c.storage id)
          (sym (gets-decoded lib L sure schemas id c) ∙ free))

  replace-returns :
      (old td : ThingDescription) (now : Time) (was : ThingRegistration)
      (tr : Option ThingRegistration)
      → thing_registration lib.rfc old ≡ ok (some was)
      → thing_registration lib.rfc td ≡ ok tr
      → is_printable (object (stamp was.created tr now td)) ≡ true
      → is_some (stored L c.storage id) ≡ true
      → (replace lib L schemas id old td now c).0 ≡ ok tt
  unfolding replace
  replace-returns old td now was tr o e p taken =
      let u = update-result lib L sure c.storage id (stamp was.created tr now td) in
      ground (arith, o, e, p, taken, u)

  -- An `update` returns if the Thing Description is valid, its registration and that of the old one
  -- can be read, and it is JSON once it is stamped.
  pub update-returns :
      (old td : ThingDescription) (now : Time) (was : ThingRegistration)
      (tr : Option ThingRegistration)
      → gets lib L sure schemas id c ≡ ok old
      → validate_against_schemas lib td schemas ≡ ok []
      → thing_registration lib.rfc old ≡ ok (some was)
      → thing_registration lib.rfc td ≡ ok tr
      → is_printable (object (promised was.created tr now td)) ≡ true
      → (update lib L schemas id td now c).0 ≡ ok tt
  unfolding get_td
  update-returns old td now was tr found v o e printable =
      ap (λ p. p.0) (update-replace lib L schemas id c old td now tt found (valid-lem td v))
      ∙ replace-returns old td now was tr o e
          (ap (λ t. is_printable (object t)) (stamp-promised was.created tr now td) ∙ printable)
          (found-decoded (stored L c.storage id) old
            (sym (gets-decoded lib L sure schemas id c) ∙ found))

  -- A `delete` returns if there is something to delete.
  pub delete-returns :
      (old : ThingDescription)
      → gets lib L sure schemas id c ≡ ok old
      → (delete lib L schemas id c).0 ≡ ok tt
  unfolding delete get_td
  delete-returns old found =
      let taken =
        found-decoded (stored L c.storage id) old
          (sym (gets-decoded lib L sure schemas id c) ∙ found) in
      ground
        (arith, found, taken, get-state lib L c.storage id, delete-result lib L sure c.storage id)
