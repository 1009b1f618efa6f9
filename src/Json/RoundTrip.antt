-- ===== src/Json/RoundTrip.antt =====
-- What json.Marshal writes, json.Unmarshal reads back, up to the struct wot.ThingRegistration, which
-- comes back as a map.
unfoldable pub use thing_directory.Json.Plain.{plain, plain_items, plain_fields}
pub use thing_directory.Json.Plain.{
  fields-of_fields, IsValue, AreValues, IsMap, IsJson, AreJson, IsJsonMap, plain_value, plain_map,
}
use thing_directory.Json.Plain.{of_fields-fields}
use thing_directory.Common.{
  ℕ, zero, suc, ◌+◌, ◌*◌, ◌≤◌, ◌≡◌, refl, ap, ◌∙◌, String, some, [], ◌∷◌, arith, length,
}
use thing_directory.Common.Order.{text_order}
use thing_directory.Common.SortedMap.{Above, lookup-Above, insert-Above}
use thing_directory.Time.{Rfc3339}
use thing_directory.Wot.{ThingRegistration}
use thing_directory.Json.{
  Value, null, boolean, number, text, array, object, registration, Items, nil, cons, Fields, end,
  field, fields, lbrace, lbrack, comma, colon, str, Bytes,
}
use thing_directory.Json.Print.{
  print, print_items, print_more_items, print_fields, print_more_fields,
}
use thing_directory.Json.Parse.{
  ◌>>=◌, absorb, parse, parse_items, parse_more_items, parse_fields, parse_more_fields, unmarshal,
}

absorb-Above :
    (k : String) (v : Value) (fs : Fields) → Above k (fields fs) → absorb k v fs ≡ field k v fs
unfolding absorb
absorb-Above k v fs a =
    rw (lookup-Above k (fields fs) a, insert-Above k v (fields fs) a)
      (ap (field k v) (of_fields-fields fs))

-- The calls that a value takes.
mutual
  cost : Value → ℕ
  cost (array vs) = suc (cost_items vs)
  cost (object fs) = suc (cost_fields fs)
  cost null = 1
  cost (boolean b) = 1
  cost (number x) = 1
  cost (text s) = 1
  cost (registration r) = 1

  cost_items : Items → ℕ
  cost_items nil = 1
  cost_items (cons v vs) = suc (cost v + cost_items vs)

  cost_fields : Fields → ℕ
  cost_fields end = 1
  cost_fields (field k v fs) = suc (cost v + cost_fields fs)

module _ (rfc : Rfc3339) where
  print-registration :
      (r : ThingRegistration) (rest : Bytes)
      → print rfc (registration r) rest ≡ print rfc (plain rfc (registration r)) rest
  unfolding print plain
  print-registration r rest = ground arith

  -- A struct is printed as the map that it is read back as.
  mutual
    unfolding print plain

    pub print-plain : (v : Value) (rest : Bytes) → print rfc v rest ≡ print rfc (plain rfc v) rest
    print-plain null rest = refl
    print-plain (boolean b) rest = refl
    print-plain (number x) rest = refl
    print-plain (text s) rest = refl
    print-plain (array nil) rest = refl
    print-plain (array (cons v vs)) rest = ap (◌∷◌ lbrack) (
        print-plain v (print_more_items rfc vs rest)
        ∙ ap (print rfc (plain rfc v)) (print_plain_items vs rest))
    print-plain (object end) rest = refl
    print-plain (object (field k v fs)) rest =
        ap (λ (t : Bytes). lbrace ∷ str k ∷ colon ∷ t)
          (print-plain v (print_more_fields rfc fs rest)
            ∙ ap (print rfc (plain rfc v)) (print_plain_fields fs rest))
    print-plain (registration r) rest = print-registration r rest

    print_plain_items :
        (vs : Items) (rest : Bytes)
        → print_more_items rfc vs rest ≡ print_more_items rfc (plain_items rfc vs) rest
    print_plain_items nil rest = refl
    print_plain_items (cons v vs) rest = ap (◌∷◌ comma) (
        print-plain v (print_more_items rfc vs rest)
        ∙ ap (print rfc (plain rfc v)) (print_plain_items vs rest))

    print_plain_fields :
        (fs : Fields) (rest : Bytes)
        → print_more_fields rfc fs rest ≡ print_more_fields rfc (plain_fields rfc fs) rest
    print_plain_fields end rest = refl
    print_plain_fields (field k v fs) rest =
        ap (λ (t : Bytes). comma ∷ str k ∷ colon ∷ t)
          (print-plain v (print_more_fields rfc fs rest)
            ∙ ap (print rfc (plain rfc v)) (print_plain_fields fs rest))

module _ (rfc : Rfc3339) where
  -- No value begins with the bracket that ends an array.
  parse_items-print :
      (n : ℕ) (v : Value) (rest : Bytes)
      → parse_items (suc n) (print rfc v rest) ≡ (
          parse n (print rfc v rest) >>= λ w more.
          parse_more_items n more >>= λ ws end. some (cons w ws, end))
  unfolding parse print
  parse_items-print n null rest = refl
  parse_items-print n _ rest = refl

  mutual
    unfolding parse print cost

    parse-print :
        (n : ℕ) (v : Value) (rest : Bytes)
        → IsJson v
        → cost v ≤ n
        → parse n (print rfc v rest) ≡ some (v, rest)
    parse-print zero null rest j h = absurd (omega arith)
    parse-print zero (boolean b) rest j h = absurd (omega arith)
    parse-print zero (number x) rest j h = absurd (omega arith)
    parse-print zero (text s) rest j h = absurd (omega arith)
    parse-print zero (array vs) rest j h = absurd (omega arith)
    parse-print zero (object fs) rest j h = absurd (omega arith)
    parse-print zero (registration r) rest j h = absurd j
    parse-print (suc n) null rest j h = refl
    parse-print (suc n) (boolean b) rest j h = refl
    parse-print (suc n) (number x) rest j h = refl
    parse-print (suc n) (text s) rest j h = refl
    parse-print (suc n) (array vs) rest j h = rw (parse_items_lem n vs rest j (omega arith)) refl
    parse-print (suc n) (object fs) rest j h = rw (parse_fields_lem n fs rest j (omega arith)) refl
    parse-print (suc n) (registration r) rest j h = absurd j

    parse_items_lem :
        (n : ℕ) (vs : Items) (rest : Bytes)
        → AreJson vs
        → cost_items vs ≤ n
        → parse_items n (print_items rfc vs rest) ≡ some (vs, rest)
    parse_items_lem zero nil rest j h = absurd (omega arith)
    parse_items_lem zero (cons v vs) rest j h = absurd (omega arith)
    parse_items_lem (suc n) nil rest j h = refl
    parse_items_lem (suc n) (cons v vs) rest (j, js) h =
        rw
          (
            parse_items-print n v (print_more_items rfc vs rest),
            parse-print n v (print_more_items rfc vs rest) j (omega arith),
            parse_more_items_lem n vs rest js (omega arith),
          )
          refl

    parse_more_items_lem :
        (n : ℕ) (vs : Items) (rest : Bytes)
        → AreJson vs
        → cost_items vs ≤ n
        → parse_more_items n (print_more_items rfc vs rest) ≡ some (vs, rest)
    parse_more_items_lem zero nil rest j h = absurd (omega arith)
    parse_more_items_lem zero (cons v vs) rest j h = absurd (omega arith)
    parse_more_items_lem (suc n) nil rest j h = refl
    parse_more_items_lem (suc n) (cons v vs) rest (j, js) h =
        rw
          (
            parse-print n v (print_more_items rfc vs rest) j (omega arith),
            parse_more_items_lem n vs rest js (omega arith),
          )
          refl

    parse_fields_lem :
        (n : ℕ) (fs : Fields) (rest : Bytes)
        → IsJsonMap fs
        → cost_fields fs ≤ n
        → parse_fields n (print_fields rfc fs rest) ≡ some (fs, rest)
    parse_fields_lem zero end rest j h = absurd (omega arith)
    parse_fields_lem zero (field k v fs) rest j h = absurd (omega arith)
    parse_fields_lem (suc n) end rest j h = refl
    parse_fields_lem (suc n) (field k v fs) rest (a, j, js) h =
        rw
          (
            parse-print n v (print_more_fields rfc fs rest) j (omega arith),
            parse_more_fields_lem n fs rest js (omega arith),
            absorb-Above k v fs a,
          )
          refl

    parse_more_fields_lem :
        (n : ℕ) (fs : Fields) (rest : Bytes)
        → IsJsonMap fs
        → cost_fields fs ≤ n
        → parse_more_fields n (print_more_fields rfc fs rest) ≡ some (fs, rest)
    parse_more_fields_lem zero end rest j h = absurd (omega arith)
    parse_more_fields_lem zero (field k v fs) rest j h = absurd (omega arith)
    parse_more_fields_lem (suc n) end rest j h = refl
    parse_more_fields_lem (suc n) (field k v fs) rest (a, j, js) h =
        rw
          (
            parse-print n v (print_more_fields rfc fs rest) j (omega arith),
            parse_more_fields_lem n fs rest js (omega arith),
            absorb-Above k v fs a,
          )
          refl

  -- The fuel of `unmarshal` is enough.
  mutual
    unfolding print cost

    cost-le :
        (v : Value) (rest : Bytes)
        → IsJson v
        → cost v + 1 + 2 * length rest ≤ 2 * length (print rfc v rest)
    cost-le null rest j = omega arith
    cost-le (boolean b) rest j = omega arith
    cost-le (number x) rest j = omega arith
    cost-le (text s) rest j = omega arith
    cost-le (array vs) rest j = omega (arith, cost_items-le vs rest j)
    cost-le (object fs) rest j = omega (arith, cost_fields-le fs rest j)
    cost-le (registration r) rest j = absurd j

    cost_items-le :
        (vs : Items) (rest : Bytes)
        → AreJson vs
        → cost_items vs + 2 * length rest ≤ 2 * length (print_items rfc vs rest)
    cost_items-le nil rest j = omega arith
    cost_items-le (cons v vs) rest (j, js) =
        omega (arith, cost-le v (print_more_items rfc vs rest) j, cost_more_items-le vs rest js)

    cost_more_items-le :
        (vs : Items) (rest : Bytes)
        → AreJson vs
        → cost_items vs + 2 * length rest ≤ 2 * length (print_more_items rfc vs rest)
    cost_more_items-le nil rest j = omega arith
    cost_more_items-le (cons v vs) rest (j, js) =
        omega (arith, cost-le v (print_more_items rfc vs rest) j, cost_more_items-le vs rest js)

    cost_fields-le :
        (fs : Fields) (rest : Bytes)
        → IsJsonMap fs
        → cost_fields fs + 2 * length rest ≤ 2 * length (print_fields rfc fs rest)
    cost_fields-le end rest j = omega arith
    cost_fields-le (field k v fs) rest (a, j, js) =
        omega (arith, cost-le v (print_more_fields rfc fs rest) j, cost_more_fields-le fs rest js)

    cost_more_fields-le :
        (fs : Fields) (rest : Bytes)
        → IsJsonMap fs
        → cost_fields fs + 2 * length rest ≤ 2 * length (print_more_fields rfc fs rest)
    cost_more_fields-le end rest j = omega arith
    cost_more_fields-le (field k v fs) rest (a, j, js) =
        omega (arith, cost-le v (print_more_fields rfc fs rest) j, cost_more_fields-le fs rest js)

  pub unmarshal-print_json : (w : Value) → IsJson w → unmarshal (print rfc w []) ≡ some w
  unfolding unmarshal
  unmarshal-print_json w j =
      rw (parse-print (2 * length (print rfc w [])) w [] j (omega (arith, cost-le w [] j))) refl

  -- What json.Marshal writes of a value is read back by json.Unmarshal as that value with each
  -- registration struct turned into a map, if the keys of each map in it are in order.
  pub unmarshal-print : (v : Value) → IsValue v → unmarshal (print rfc v []) ≡ some (plain rfc v)
  unmarshal-print v h =
      rw (print-plain rfc v []) (unmarshal-print_json (plain rfc v) (plain_value rfc v h))
