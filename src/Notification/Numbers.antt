-- ===== src/Notification/Numbers.antt =====
-- How notification/ldb_eventqueue.go writes an event's number: as a key of eight bytes, the most
-- significant first, and as an id in hexadecimal (strconv.FormatUint and ParseUint of base 16).
pub mod Laws
use Prim.Native.Char.{Char, code}
use thing_directory.Common.{
  ℕ, zero, suc, ◌+◌, ◌-◌, ◌*◌, ◌/◌, ◌%◌, ◌^◌, ◌<◌, ◌≤◌, ◌≡◌, refl, ap, ◌∙◌, Bool, true, false, ◌&&◌,
  String, Option, none, some, List, [], ◌∷◌, arith, ltb, leb, eqb, if◌then◌else◌, inl, inr,
  Bool-cases,
}
use thing_directory.Common.Order.{less_bytes}

abbrev pub uint64_mod : ℕ
uint64_mod = 2 ^ 64

-- The last n bytes of a number, in front of those given.
big_endian : ℕ → ℕ → List ℕ → List ℕ
big_endian zero x bytes = bytes
big_endian (suc n) x bytes = big_endian n (x / 256) (x % 256 ∷ bytes)

unfoldable pub uint64_to_byte : ℕ → List ℕ
unfolding big_endian
uint64_to_byte x = big_endian 8 x []

from_bytes : ℕ → List ℕ → ℕ
from_bytes acc [] = acc
from_bytes acc (b ∷ bs) = from_bytes (acc * 256 + b) bs

unfoldable pub byte_to_uint64 : List ℕ → ℕ
unfolding from_bytes
byte_to_uint64 bytes = from_bytes 0 bytes

unfoldable pub digit : ℕ → Char
digit d =
    if ltb d 8
    then (if ltb d 4
        then (if eqb d 0 then "0" else if eqb d 1 then "1" else if eqb d 2 then "2" else "3")
        else (if eqb d 4 then "4" else if eqb d 5 then "5" else if eqb d 6 then "6" else "7"))
    else (if ltb d 12
        then (if eqb d 8 then "8" else if eqb d 9 then "9" else if eqb d 10 then "a" else "b")
        else (if eqb d 12 then "c" else if eqb d 13 then "d" else if eqb d 14 then "e" else "f"))

digit_value : ℕ → Option ℕ
digit_value c =
    if leb b'0' c && leb c b'9'
    then some (c - b'0')
    else if leb b'a' c && leb c b'f'
    then some (c - b'a' + 10)
    else if leb b'A' c && leb c b'F'
    then some (c - b'A' + 10)
    else none

unfoldable pub to_hex : ℕ → ℕ → String → String
to_hex zero x text = text
to_hex (suc n) x text =
    let more = to_hex n (x / 16) (String.◌∷◌ (digit (x % 16)) text) in
    if ltb x 16 then String.◌∷◌ (digit x) text else more

-- A uint64 has sixteen hexadecimal digits at most.
unfoldable pub format_uint : ℕ → String
format_uint x = to_hex 16 x ""

from_hex : ℕ → String → Option ℕ
from_hex acc String.[] = some acc
from_hex acc (String.◌∷◌ c text) = elim (digit_value (code c)) [
  | none ↦ none
  | some d ↦
      let next = acc * 16 + d in
      let rest = from_hex next text in if ltb next uint64_mod then rest else none
]

unfoldable pub parse_uint : String → Option ℕ
unfolding from_hex digit_value
parse_uint String.[] = none
parse_uint (String.◌∷◌ c text) = from_hex 0 (String.◌∷◌ c text)

hex_test : format_uint 48879 ≡ "beef"
unfolding format_uint to_hex digit
hex_test = refl

parse_test : parse_uint "BeeF" ≡ some 48879
unfolding parse_uint
parse_test = refl
