-- ===== src/Json/Plain.antt =====
-- The values that JSON text can hold: maps with their keys in order, and no struct. `plain` is the value
-- that a printed value is read back as.
use thing_directory.Common.{◌≡◌, refl, ap, String, List, [], ◌∷◌, arith}
use thing_directory.Common.Order.{text_order}
use thing_directory.Common.SortedMap.{Above}
use thing_directory.Time.{Rfc3339}
use thing_directory.Wot.{ThingRegistration}
use thing_directory.Json.{
  Value, null, boolean, number, text, array, object, registration, Items, nil, cons, Fields, end,
  field, fields, of_fields,
}
use thing_directory.Json.Print.{members}

pub of_fields-fields : (fs : Fields) → of_fields (fields fs) ≡ fs
of_fields-fields end = refl
of_fields-fields (field k v fs) = ap (field k v) (of_fields-fields fs)

pub fields-of_fields : (m : List (String × Value)) → fields (of_fields m) ≡ m
fields-of_fields [] = refl
fields-of_fields ((k, v) ∷ m) = ap (◌∷◌ (k, v)) (fields-of_fields m)

-- The maps in a value are maps: their keys are distinct, and in order.
abbrev mutual
  pub IsValue : Value → Type 0
  IsValue (array vs) = AreValues vs
  IsValue (object fs) = IsMap fs
  IsValue null = Unit
  IsValue (boolean b) = Unit
  IsValue (number x) = Unit
  IsValue (text s) = Unit
  IsValue (registration r) = Unit

  pub AreValues : Items → Type 0
  AreValues nil = Unit
  AreValues (cons v vs) = IsValue v × AreValues vs

  pub IsMap : Fields → Type 0
  IsMap end = Unit
  IsMap (field k v fs) = Above k (fields fs) × IsValue v × IsMap fs

-- The same of a value without structs, as json.Unmarshal makes them.
abbrev mutual
  pub IsJson : Value → Type 0
  IsJson (array vs) = AreJson vs
  IsJson (object fs) = IsJsonMap fs
  IsJson null = Unit
  IsJson (boolean b) = Unit
  IsJson (number x) = Unit
  IsJson (text s) = Unit
  IsJson (registration r) = ⊥

  pub AreJson : Items → Type 0
  AreJson nil = Unit
  AreJson (cons v vs) = IsJson v × AreJson vs

  pub IsJsonMap : Fields → Type 0
  IsJsonMap end = Unit
  IsJsonMap (field k v fs) = Above k (fields fs) × IsJson v × IsJsonMap fs

module _ (rfc : Rfc3339) where
  -- The value as it is read back.
  unfoldable mutual
    pub plain : Value → Value
    plain null = null
    plain (boolean b) = boolean b
    plain (number x) = number x
    plain (text s) = text s
    plain (array vs) = array (plain_items vs)
    plain (object fs) = object (plain_fields fs)
    plain (registration r) = object (of_fields (members rfc r))

    pub plain_items : Items → Items
    plain_items nil = nil
    plain_items (cons v vs) = cons (plain v) (plain_items vs)

    pub plain_fields : Fields → Fields
    plain_fields end = end
    plain_fields (field k v fs) = field k (plain v) (plain_fields fs)

  Above-plain :
      (k : String) (fs : Fields) → Above k (fields fs) → Above k (fields (plain_fields fs))
  unfolding plain
  Above-plain k end a = tt
  Above-plain k (field j v fs) (h, a) = (h, Above-plain k fs a)

  members-IsJsonMap : (r : ThingRegistration) → IsJsonMap (of_fields (members rfc r))
  members-IsJsonMap r = ground arith

  mutual
    unfolding plain

    pub plain_value : (v : Value) → IsValue v → IsJson (plain v)
    plain_value null h = tt
    plain_value (boolean b) h = tt
    plain_value (number x) h = tt
    plain_value (text s) h = tt
    plain_value (array vs) h = plain_values vs h
    plain_value (object fs) h = plain_map fs h
    plain_value (registration r) h = members-IsJsonMap r

    plain_values : (vs : Items) → AreValues vs → AreJson (plain_items vs)
    plain_values nil h = tt
    plain_values (cons v vs) (h, k) = (plain_value v h, plain_values vs k)

    pub plain_map : (fs : Fields) → IsMap fs → IsJsonMap (plain_fields fs)
    plain_map end h = tt
    plain_map (field k v fs) (a, h, m) = (Above-plain k fs a, plain_value v h, plain_map fs m)
