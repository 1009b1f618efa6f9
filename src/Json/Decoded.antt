-- ===== src/Json/Decoded.antt =====
-- What json.Unmarshal returns is a JSON value: its maps are maps, and it holds no struct.
use mathlib.Core.Path.{subst}
use mathlib.Core.Option.{some-injective}
use thing_directory.Common.{
  String, ℕ, zero, suc, ◌*◌, ◌≡◌, refl, Option, none, some, [], ◌∷◌, length,
}
use thing_directory.Json.{
  Value, null, object, Items, cons, Fields, lbrace, rbrace, lbrack, rbrack, comma, colon, word_null,
  word_bool, num, str, Bytes,
}
use thing_directory.Json.Parse.{
  whole, map_of, ◌>>=◌, absorb, parse, parse_items, parse_more_items, parse_fields,
  parse_more_fields, unmarshal, unmarshal_map,
}
use thing_directory.Json.RoundTrip.{IsJson, AreJson, IsJsonMap}
use thing_directory.Json.Maps.{absorb-IsJsonMap}

abbrev Reads : {A : Type 0} → (A → Type 0) → Option (A × Bytes) → Type 0
Reads P none = Unit
Reads P (some (a, rest)) = P a

module _ {A B : Type 0} (P : A → Type 0) (Q : B → Type 0) where
  Reads-bind :
      (m : Option (A × Bytes)) (f : A → Bytes → Option (B × Bytes))
      → Reads P m
      → ((a : A) (rest : Bytes) → P a → Reads Q (f a rest))
      → Reads Q (m >>= f)
  Reads-bind none f p q = tt
  Reads-bind (some (a, rest)) f p q = q a rest p

-- An item, or a member, and those that follow it.
items_step :
    (m : Option (Value × Bytes)) (more : Bytes → Option (Items × Bytes))
    → Reads IsJson m
    → ((rest : Bytes) → Reads AreJson (more rest))
    → Reads AreJson (m >>= λ v rest. more rest >>= λ vs end. some (cons v vs, end))
items_step m more p q =
    Reads-bind IsJson AreJson m _ p
      λ v rest j. Reads-bind AreJson AreJson (more rest) _ (q rest) (λ vs end js. (j, js))

fields_step :
    (k : String) (m : Option (Value × Bytes)) (more : Bytes → Option (Fields × Bytes))
    → Reads IsJson m
    → ((rest : Bytes) → Reads IsJsonMap (more rest))
    → Reads IsJsonMap (m >>= λ v rest. more rest >>= λ fs end. some (absorb k v fs, end))
fields_step k m more p q = Reads-bind IsJson IsJsonMap m _ p λ v rest j.
    Reads-bind IsJsonMap IsJsonMap (more rest) _ (q rest)
      (λ fs end js. absorb-IsJsonMap k v fs js j)

mutual
  unfolding parse

  parse-IsJson : (n : ℕ) (tokens : Bytes) → Reads IsJson (parse n tokens)
  parse-IsJson zero tokens = tt
  parse-IsJson (suc n) [] = tt
  parse-IsJson (suc n) (word_null ∷ rest) = tt
  parse-IsJson (suc n) (word_bool b ∷ rest) = tt
  parse-IsJson (suc n) (num x ∷ rest) = tt
  parse-IsJson (suc n) (str s ∷ rest) = tt
  parse-IsJson (suc n) (lbrack ∷ rest) =
      Reads-bind AreJson IsJson (parse_items n rest) _ (parse_items-AreJson n rest) (λ vs more j. j)
  parse-IsJson (suc n) (lbrace ∷ rest) =
      Reads-bind IsJsonMap IsJson (parse_fields n rest) _ (parse_fields-IsJsonMap n rest)
        (λ fs more j. j)
  parse-IsJson (suc n) (_ ∷ rest) = tt

  parse_items-AreJson : (n : ℕ) (tokens : Bytes) → Reads AreJson (parse_items n tokens)
  parse_items-AreJson zero tokens = tt
  parse_items-AreJson (suc n) (rbrack ∷ rest) = tt
  parse_items-AreJson (suc n) tokens =
      items_step (parse n tokens) (parse_more_items n) (parse-IsJson n tokens)
        (parse_more_items-AreJson n)

  parse_more_items-AreJson : (n : ℕ) (tokens : Bytes) → Reads AreJson (parse_more_items n tokens)
  parse_more_items-AreJson zero tokens = tt
  parse_more_items-AreJson (suc n) (rbrack ∷ rest) = tt
  parse_more_items-AreJson (suc n) (comma ∷ tokens) =
      items_step (parse n tokens) (parse_more_items n) (parse-IsJson n tokens)
        (parse_more_items-AreJson n)
  parse_more_items-AreJson (suc n) _ = tt

  parse_fields-IsJsonMap : (n : ℕ) (tokens : Bytes) → Reads IsJsonMap (parse_fields n tokens)
  parse_fields-IsJsonMap zero tokens = tt
  parse_fields-IsJsonMap (suc n) (rbrace ∷ rest) = tt
  parse_fields-IsJsonMap (suc n) (str k ∷ colon ∷ tokens) =
      fields_step k (parse n tokens) (parse_more_fields n) (parse-IsJson n tokens)
        (parse_more_fields-IsJsonMap n)
  parse_fields-IsJsonMap (suc n) _ = tt

  parse_more_fields-IsJsonMap :
      (n : ℕ) (tokens : Bytes) → Reads IsJsonMap (parse_more_fields n tokens)
  parse_more_fields-IsJsonMap zero tokens = tt
  parse_more_fields-IsJsonMap (suc n) (rbrace ∷ rest) = tt
  parse_more_fields-IsJsonMap (suc n) (comma ∷ str k ∷ colon ∷ tokens) =
      fields_step k (parse n tokens) (parse_more_fields n) (parse-IsJson n tokens)
        (parse_more_fields-IsJsonMap n)
  parse_more_fields-IsJsonMap (suc n) _ = tt

-- Whatever the text, what `unmarshal` returns is a JSON value.
pub unmarshal-IsJson : (tokens : Bytes) (v : Value) → unmarshal tokens ≡ some v → IsJson v
unfolding unmarshal
unmarshal-IsJson tokens v h = go (parse (2 * length tokens) tokens) (parse-IsJson _ tokens) h
  where
    go : (r : Option (Value × Bytes)) → Reads IsJson r → whole r ≡ some v → IsJson v
    go none p h = cc
    go (some (w, [])) p h = subst IsJson (some-injective _ _ h) p
    go (some (w, t ∷ ts)) p h = cc

pub unmarshal_map-IsJsonMap :
    (tokens : Bytes) (fs : Fields) → unmarshal_map tokens ≡ some fs → IsJsonMap fs
unfolding unmarshal_map
unmarshal_map-IsJsonMap tokens fs h = go (unmarshal tokens) (unmarshal-IsJson tokens) h
  where
    go :
        (r : Option Value)
        → ((v : Value) → r ≡ some v → IsJson v)
        → map_of r ≡ some fs
        → IsJsonMap fs
    go none p h = cc
    go (some (object gs)) p h = subst IsJsonMap (some-injective _ _ h) (p (object gs) refl)
    go (some null) p h = subst IsJsonMap (some-injective _ _ h) tt
    go (some _) p h = cc
