-- ===== src/Json.antt =====
-- Go's values of type `interface{}` as this program meets them, and JSON text. A decoded value is
-- null, a bool, a float64, a string, a slice or a map; the catalog also stores the struct
-- wot.ThingRegistration in a Thing Description. A map is held in the order of its keys, in which
-- encoding/json prints it. Text is a list of tokens: how a string or a number is spelled, and white
-- space, are left out.
pub mod Print
pub mod Parse
pub mod Plain
pub mod RoundTrip
pub mod Maps
pub mod Decoded
pub mod Texts
use thing_directory.Common.{String, Bool, Option, none, some, List, [], ◌∷◌, ◌==◌}
use thing_directory.Common.Order.{text_order}
use thing_directory.Common.SortedMap
use thing_directory.Time.{Float64}
use thing_directory.Wot.{ThingRegistration}

mutual
  pub data Value : Type 0 where
    null : Value
    boolean : Bool → Value
    number : Float64 → Value
    text : String → Value
    array : Items → Value
    object : Fields → Value
    registration : ThingRegistration → Value

  pub data Items : Type 0 where
    nil : Items
    cons : Value → Items → Items

  pub data Fields : Type 0 where
    end : Fields
    field : String → Value → Fields → Fields

-- catalog.ThingDescription: map[string]interface{}
abbrev pub ThingDescription : Type 0
ThingDescription = Fields

abbrev pub items : Items → List Value
items nil = []
items (cons v vs) = v ∷ items vs

abbrev pub of_items : List Value → Items
of_items [] = nil
of_items (v ∷ vs) = cons v (of_items vs)

abbrev pub fields : Fields → List (String × Value)
fields end = []
fields (field k v fs) = (k, v) ∷ fields fs

abbrev pub of_fields : List (String × Value) → Fields
of_fields [] = end
of_fields ((k, v) ∷ fs) = field k v (of_fields fs)

-- m[k], and m[k] = v
abbrev pub get : String → Fields → Option Value
get k fs = SortedMap.lookup k (fields fs)

abbrev pub put : String → Value → Fields → Fields
put k v fs = of_fields (SortedMap.insert k v (fields fs))

-- v.(string)
abbrev pub as_text : Option Value → Option String
as_text (some (text s)) = some s
as_text _ = none

pub data Token : Type 0 where
  lbrace rbrace lbrack rbrack comma colon word_null : Token
  word_bool : Bool → Token
  num : Float64 → Token
  str : String → Token

-- []byte
abbrev pub Bytes : Type 0
Bytes = List Token
