-- ===== src/Catalog/Http/Streams.antt =====
-- The list of all Thing Descriptions as it is streamed to a client, and as one text: both are what
-- json.Marshal would print of the array of what is stored.
use thing_directory.Common.{
  ℕ, ◌+◌, ◌-◌, ◌≡◌, arith, refl, ap, ◌∙◌, Bool, true, false, String, List, [], ◌∷◌, ◌++◌,
}
use mathlib.Core.List.{append_assoc}
use thing_directory.Common.Order.{text_order}
use thing_directory.Errors.{ok}
use thing_directory.Json.{Value, array, of_items, rbrack, lbrack, comma, Bytes}
use thing_directory.Json.Print.{print}
use thing_directory.Json.Texts.{Texts, array_text, more_texts, print-array}
use thing_directory.LevelDb.{LevelDb, IsFaultless}
use thing_directory.LevelDb.Faultless.{scan-error, scan-entries}
use thing_directory.Libraries.{Libraries}
use thing_directory.Catalog.Storage
use thing_directory.Catalog.Storage.{joined, sent_bytes, max_per_page}
use thing_directory.Catalog.Storage.Crud.{entries}
use thing_directory.Catalog.Controller
use thing_directory.Catalog.Controller.{Controller}
use thing_directory.Catalog.Responses.{payload}
use thing_directory.Catalog.Http.{Request}
use thing_directory.Catalog.Http.Queries.{chunks, get_all}

-- A context that is not cancelled.
abbrev pub never : ℕ → Bool
never i = false

module _ (lib : Libraries) (L : LevelDb String) (schemas : List lib.Schema) where
  joined-texts :
      (es : List (String × Bytes)) → joined false es ++ rbrack ∷ [] ≡ more_texts lib.rfc es
  unfolding joined
  joined-texts [] = refl
  joined-texts ((key, bytes) ∷ es) =
      append_assoc (comma ∷ bytes) (joined false es) (rbrack ∷ [])
      ∙ ap (λ (t : Bytes). comma ∷ (bytes ++ t)) (joined-texts es)

  joined-array :
      (es : List (String × Bytes))
      → lbrack ∷ (joined true es ++ rbrack ∷ []) ≡ array_text lib.rfc es
  unfolding joined
  joined-array [] = refl
  joined-array ((key, bytes) ∷ es) =
      ap (λ (t : Bytes). lbrack ∷ t)
        (append_assoc bytes (joined false es) (rbrack ∷ [])
          ∙ ap (λ (t : Bytes). bytes ++ t) (joined-texts es))

  chunks-texts :
      (i j : ℕ) (es : List (String × Bytes))
      → chunks lib L schemas never i false (sent_bytes never j es) ≡ more_texts lib.rfc es
  unfolding chunks sent_bytes
  chunks-texts i j [] = refl
  chunks-texts i j ((key, bytes) ∷ es) =
      ap (λ (t : Bytes). comma ∷ (bytes ++ t)) (chunks-texts (i + 1) (j + 1) es)

  chunks-array :
      (es : List (String × Bytes))
      → lbrack ∷ chunks lib L schemas never 0 true (sent_bytes never 0 es) ≡ array_text lib.rfc es
  unfolding chunks sent_bytes
  chunks-array [] = refl
  chunks-array ((key, bytes) ∷ es) = ap (λ (t : Bytes). lbrack ∷ (bytes ++ t)) (chunks-texts 1 1 es)

  module _ (sure : IsFaultless L) (c : Controller L) (vs : List Value)
      (h : Texts lib.rfc vs (entries L c.storage)) where
    -- Over a store that does not fail, and whose entries are the texts that json.Marshal writes of
    -- some values, the body that GET of all streams to a client that stays, and the bytes that
    -- `listAllBytes` returns, are the text that json.Marshal writes of the array of these values,
    -- in the order of the entries.
    pub get_all-list_all_bytes :
        (req : Request)
        → ((get_all lib L schemas never never req c).body
            ≡ payload (print lib.rfc (array (of_items vs)) []))
          × (Controller.list_all_bytes lib L schemas c
              ≡ (ok (print lib.rfc (array (of_items vs)) []), c))
    unfolding get_all Controller.iterate_bytes Storage.iterate_bytes Controller.list_all_bytes
        Storage.list_all_bytes
    get_all-list_all_bytes req =
        let released : c.storage.wg + 1 - 1 ≡ c.storage.wg = omega arith in
        let text = print-array lib.rfc vs (entries L c.storage) h in
        (
          rw (scan-entries L sure c.storage.db)
              (ap payload (chunks-array (entries L c.storage) ∙ text)),
          rw (scan-error L sure c.storage.db, scan-entries L sure c.storage.db, released)
              (ap (λ t. (ok t, c)) (joined-array (entries L c.storage) ∙ text)),
        )
