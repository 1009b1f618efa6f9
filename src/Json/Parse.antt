-- ===== src/Json/Parse.antt =====
-- json.Unmarshal into an `interface{}` or a map: recursive descent. The fuel bounds the depth of the
-- calls; `unmarshal` gives twice the number of tokens, and each two calls consume a token.
use thing_directory.Common.{
  ℕ, zero, suc, ◌*◌, String, Option, none, some, [], ◌∷◌, is_some, if◌then◌else◌, length,
}
use thing_directory.Json.{
  Value, null, boolean, number, text, array, object, Items, nil, cons, Fields, end, get, put,
  lbrace, rbrace, lbrack, rbrack, comma, colon, word_null, word_bool, num, str, Bytes,
}

infixl 10 ◌>>=◌
abbrev pub ◌>>=◌ :
    {A B : Type 0} → Option (A × Bytes) → (A → Bytes → Option (B × Bytes)) → Option (B × Bytes)
none >>= f = none
some (a, rest) >>= f = f a rest

-- The value of a name that is repeated is the last one.
unfoldable pub absorb : String → Value → Fields → Fields
absorb k v fs = if is_some (get k fs) then fs else put k v fs

unfoldable mutual
  pub parse : ℕ → Bytes → Option (Value × Bytes)
  parse (suc n) (word_null ∷ rest) = some (null, rest)
  parse (suc n) (word_bool b ∷ rest) = some (boolean b, rest)
  parse (suc n) (num x ∷ rest) = some (number x, rest)
  parse (suc n) (str s ∷ rest) = some (text s, rest)
  parse (suc n) (lbrack ∷ rest) = parse_items n rest >>= λ vs more. some (array vs, more)
  parse (suc n) (lbrace ∷ rest) = parse_fields n rest >>= λ fs more. some (object fs, more)
  parse _ _ = none

  pub parse_items : ℕ → Bytes → Option (Items × Bytes)
  parse_items zero tokens = none
  parse_items (suc n) (rbrack ∷ rest) = some (nil, rest)
  parse_items (suc n) tokens =
      parse n tokens >>= λ v rest. parse_more_items n rest >>= λ vs more. some (cons v vs, more)

  pub parse_more_items : ℕ → Bytes → Option (Items × Bytes)
  parse_more_items (suc n) (rbrack ∷ rest) = some (nil, rest)
  parse_more_items (suc n) (comma ∷ tokens) =
      parse n tokens >>= λ v rest. parse_more_items n rest >>= λ vs more. some (cons v vs, more)
  parse_more_items _ _ = none

  pub parse_fields : ℕ → Bytes → Option (Fields × Bytes)
  parse_fields (suc n) (rbrace ∷ rest) = some (end, rest)
  parse_fields (suc n) (str k ∷ colon ∷ tokens) = parse n tokens >>= λ v rest.
      parse_more_fields n rest >>= λ fs more. some (absorb k v fs, more)
  parse_fields _ _ = none

  pub parse_more_fields : ℕ → Bytes → Option (Fields × Bytes)
  parse_more_fields (suc n) (rbrace ∷ rest) = some (end, rest)
  parse_more_fields (suc n) (comma ∷ str k ∷ colon ∷ tokens) = parse n tokens >>= λ v rest.
      parse_more_fields n rest >>= λ fs more. some (absorb k v fs, more)
  parse_more_fields _ _ = none

abbrev pub whole : Option (Value × Bytes) → Option Value
whole (some (v, [])) = some v
whole _ = none

unfoldable pub unmarshal : Bytes → Option Value
unfolding parse
unmarshal tokens = whole (parse (2 * length tokens) tokens)

-- Into a map[string]interface{}: null leaves it nil, which every read takes for an empty map.
abbrev pub map_of : Option Value → Option Fields
map_of (some (object fs)) = some fs
map_of (some null) = some end
map_of _ = none

unfoldable pub unmarshal_map : Bytes → Option Fields
unfolding unmarshal
unmarshal_map tokens = map_of (unmarshal tokens)
