-- ===== src/Json/Maps.antt =====
-- Reading and writing the maps among the values.
use thing_directory.Common.{
  ◌≡◌, refl, ap, ◌∙◌, String, Option, none, some, List, [], ◌∷◌, inl, inr, arith, All,
  if◌then◌else◌, is_some, Bool-cases, ◌==◌,
}
use thing_directory.Common.Order.{text_order}
use thing_directory.Common.SortedMap
use thing_directory.Common.SortedMap.{Above, IsSorted, insert-IsSorted, All-insert, lookup-insert}
use thing_directory.Time.{Rfc3339}
use thing_directory.Json.{
  Value, null, boolean, number, text, array, object, registration, Items, nil, cons, Fields, end,
  field, fields, of_fields, get, put,
}
use thing_directory.Json.Print.{print}
use thing_directory.Json.Parse.{absorb, unmarshal_map}
use thing_directory.Json.RoundTrip.{
  IsValue, AreValues, IsMap, IsJson, AreJson, IsJsonMap, plain, plain_fields, fields-of_fields,
  unmarshal-print,
}

module _ (k j : String) (v : Value) (fs : Fields) where
  pub get-put : get j (put k v fs) ≡ (if k == j then some v else get j fs)
  get-put =
      ap (SortedMap.lookup j) (fields-of_fields (SortedMap.insert k v (fields fs)))
      ∙ lookup-insert k j v (fields fs)

mutual
  pub IsJson-IsValue : (v : Value) → IsJson v → IsValue v
  IsJson-IsValue null h = tt
  IsJson-IsValue (boolean b) h = tt
  IsJson-IsValue (number x) h = tt
  IsJson-IsValue (text s) h = tt
  IsJson-IsValue (array vs) h = AreJson-AreValues vs h
  IsJson-IsValue (object fs) h = IsJsonMap-IsMap fs h
  IsJson-IsValue (registration r) h = tt

  AreJson-AreValues : (vs : Items) → AreJson vs → AreValues vs
  AreJson-AreValues nil h = tt
  AreJson-AreValues (cons v vs) (h, k) = (IsJson-IsValue v h, AreJson-AreValues vs k)

  pub IsJsonMap-IsMap : (fs : Fields) → IsJsonMap fs → IsMap fs
  IsJsonMap-IsMap end h = tt
  IsJsonMap-IsMap (field k v fs) (a, h, m) = (a, IsJson-IsValue v h, IsJsonMap-IsMap fs m)

IsMap-to : (fs : Fields) → IsMap fs → IsSorted (fields fs) × All (λ e. IsValue e.1) (fields fs)
IsMap-to end h = (tt, tt)
IsMap-to (field k v fs) (a, h, m) = let (s, w) = IsMap-to fs m in ((a, s), (h, w))

IsMap-from :
    (m : List (String × Value)) → IsSorted m → All (λ e. IsValue e.1) m → IsMap (of_fields m)
IsMap-from [] s h = tt
IsMap-from ((k, v) ∷ m) (a, s) (h, w) = (rw (fields-of_fields m) a, h, IsMap-from m s w)

IsJsonMap-to :
    (fs : Fields) → IsJsonMap fs → IsSorted (fields fs) × All (λ e. IsJson e.1) (fields fs)
IsJsonMap-to end h = (tt, tt)
IsJsonMap-to (field k v fs) (a, h, m) = let (s, w) = IsJsonMap-to fs m in ((a, s), (h, w))

IsJsonMap-from :
    (m : List (String × Value)) → IsSorted m → All (λ e. IsJson e.1) m → IsJsonMap (of_fields m)
IsJsonMap-from [] s h = tt
IsJsonMap-from ((k, v) ∷ m) (a, s) (h, w) = (rw (fields-of_fields m) a, h, IsJsonMap-from m s w)

module _ (k : String) (v : Value) (fs : Fields) where
  pub put-IsMap : IsMap fs → IsValue v → IsMap (put k v fs)
  put-IsMap h p =
      let (s, w) = IsMap-to fs h in
      IsMap-from _ (insert-IsSorted k v (fields fs) s) (All-insert _ k v (fields fs) p w)

  pub put-IsJsonMap : IsJsonMap fs → IsJson v → IsJsonMap (put k v fs)
  put-IsJsonMap h p =
      let (s, w) = IsJsonMap-to fs h in
      IsJsonMap-from _ (insert-IsSorted k v (fields fs) s) (All-insert _ k v (fields fs) p w)

  pub absorb-IsJsonMap : IsJsonMap fs → IsJson v → IsJsonMap (absorb k v fs)
  unfolding absorb
  absorb-IsJsonMap h p = elim (Bool-cases (is_some (get k fs))) [
    | inl e ↦ rw e h
    | inr e ↦ rw e (put-IsJsonMap h p)
  ]

module _ (rfc : Rfc3339) where
  abbrev pub plain? : Option Value → Option Value
  plain? none = none
  plain? (some v) = some (plain rfc v)

  pub get-plain : (k : String) (fs : Fields) → get k (plain_fields rfc fs) ≡ plain? (get k fs)
  unfolding plain SortedMap.lookup
  get-plain k end = refl
  get-plain k (field j v fs) = ground (arith, get-plain k fs)

  pub unmarshal_map-print :
      (fs : Fields)
      → IsMap fs
      → unmarshal_map (print rfc (object fs) []) ≡ some (plain_fields rfc fs)
  unfolding unmarshal_map plain
  unmarshal_map-print fs h = rw (unmarshal-print rfc (object fs) h)
