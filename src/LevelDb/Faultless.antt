-- ===== src/LevelDb/Faultless.antt =====
-- The calls of a store that does not fail, as equations.
use thing_directory.Common.{◌≡◌, refl, ap, ◌∙◌, none, List, [], ◌∷◌, is_some}
use thing_directory.Common.Order.{KeyOrder}
use thing_directory.Common.SortedMap
use thing_directory.Errors.{done}
use thing_directory.Json.{Bytes}
use thing_directory.LevelDb.{LevelDb, IsFaultless, within, everything}

within-everything : {K : Type 0} ⦃o : KeyOrder K⦄ (m : List (K × Bytes)) → within everything m ≡ m
within-everything [] = refl
within-everything (e ∷ m) = ap (◌∷◌ e) (within-everything m)

module _ {K : Type 0} ⦃o : KeyOrder K⦄ (L : LevelDb K) (sure : IsFaultless L) (d : L.Db) where
  pub has-eq : (k : K) → L.has d k ≡ done (is_some (SortedMap.lookup k (L.contents d)))
  has-eq k = let (b, e) = sure.has d k in e ∙ ap done (L.has_law d k b e)

  pub get-eq : (k : K) → L.get d k ≡ done (SortedMap.lookup k (L.contents d))
  get-eq k = let (r, e) = sure.get d k in e ∙ ap done (L.get_law d k r e)

  pub scan-error : (L.scan d everything).1 ≡ none
  scan-error = sure.scan d everything

  pub scan-entries : (L.scan d everything).0 ≡ L.contents d
  scan-entries = L.scan_law d everything scan-error ∙ within-everything (L.contents d)
