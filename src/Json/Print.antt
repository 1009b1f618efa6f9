-- ===== src/Json/Print.antt =====
-- json.Marshal. It refuses a time beyond the year 9999; no other value here is refused.
use thing_directory.Common.{
  Bool, true, ◌&&◌, String, Option, none, some, List, [], ◌∷◌, ◌++◌, ltb, if◌then◌else◌,
}
use thing_directory.Time.{Time, Rfc3339, year_10000}
use thing_directory.Wot.{ThingRegistration, key_created, key_expires, key_modified, key_ttl}
use thing_directory.Json.{
  Value, null, boolean, number, text, array, object, registration, Items, nil, cons, Fields, end,
  field, Token, lbrace, rbrace, lbrack, rbrack, comma, colon, word_null, word_bool, num, str, Bytes,
}

abbrev pub in_years : Option Time → Bool
in_years none = true
in_years (some t) = ltb t year_10000

unfoldable pub has_json_times : ThingRegistration → Bool
has_json_times r =
    in_years r.created && (in_years r.expires && (in_years r.modified && in_years r.retrieved))

unfoldable mutual
  unfolding has_json_times

  pub is_printable : Value → Bool
  is_printable (array vs) = are_printable vs
  is_printable (object fs) = have_printable fs
  is_printable (registration r) = has_json_times r
  is_printable null = true
  is_printable (boolean b) = true
  is_printable (number x) = true
  is_printable (text s) = true

  pub are_printable : Items → Bool
  are_printable nil = true
  are_printable (cons v vs) = is_printable v && are_printable vs

  pub have_printable : Fields → Bool
  have_printable end = true
  have_printable (field k v fs) = is_printable v && have_printable fs

module _ (rfc : Rfc3339) where
  abbrev time_member : String → Option Time → List (String × Value)
  time_member k none = []
  time_member k (some t) = (k, text (rfc.format t)) ∷ []

  -- The struct's JSON tags, in its order, with `omitempty`.
  abbrev pub members : ThingRegistration → List (String × Value)
  members r =
      time_member key_created r.created
      ++ (time_member key_expires r.expires
          ++ (time_member key_modified r.modified
              ++ (time_member "retrieved" r.retrieved
                  ++ elim r.ttl [ none ↦ [] | some x ↦ (key_ttl, number x) ∷ [] ])))

  abbrev pub leaf : Value → Token
  leaf (text s) = str s
  leaf (number x) = num x
  leaf _ = word_null

  abbrev pub more_leaves : List (String × Value) → Bytes → Bytes
  more_leaves [] rest = rbrace ∷ rest
  more_leaves ((k, v) ∷ ms) rest = comma ∷ str k ∷ colon ∷ leaf v ∷ more_leaves ms rest

  abbrev pub leaves : List (String × Value) → Bytes → Bytes
  leaves [] rest = rbrace ∷ rest
  leaves ((k, v) ∷ ms) rest = str k ∷ colon ∷ leaf v ∷ more_leaves ms rest

  -- A value's tokens, in front of those of what follows it.
  unfoldable mutual
    pub print : Value → Bytes → Bytes
    print null rest = word_null ∷ rest
    print (boolean b) rest = word_bool b ∷ rest
    print (number x) rest = num x ∷ rest
    print (text s) rest = str s ∷ rest
    print (array vs) rest = lbrack ∷ print_items vs rest
    print (object fs) rest = lbrace ∷ print_fields fs rest
    print (registration r) rest = lbrace ∷ leaves (members r) rest

    pub print_items : Items → Bytes → Bytes
    print_items nil rest = rbrack ∷ rest
    print_items (cons v vs) rest = print v (print_more_items vs rest)

    pub print_more_items : Items → Bytes → Bytes
    print_more_items nil rest = rbrack ∷ rest
    print_more_items (cons v vs) rest = comma ∷ print v (print_more_items vs rest)

    pub print_fields : Fields → Bytes → Bytes
    print_fields end rest = rbrace ∷ rest
    print_fields (field k v fs) rest = str k ∷ colon ∷ print v (print_more_fields fs rest)

    pub print_more_fields : Fields → Bytes → Bytes
    print_more_fields end rest = rbrace ∷ rest
    print_more_fields (field k v fs) rest =
        comma ∷ str k ∷ colon ∷ print v (print_more_fields fs rest)

  unfoldable pub marshal : Value → Option Bytes
  marshal v = if is_printable v then some (print v []) else none
