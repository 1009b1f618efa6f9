-- ===== src/Notification/Numbers/Laws.antt =====
-- Keys and ids are read back as the numbers that they were written from, and the order of the keys, in
-- which LevelDB visits them, is that of the numbers.
use Prim.Native.Nat.{compare, Ordering}
use Prim.Native.Char.{Char, code}
use native.Mathlib.Nat.{pow-suc}
use thing_directory.Common.{
  ℕ, zero, suc, ◌+◌, ◌*◌, ◌/◌, ◌%◌, ◌^◌, ◌<◌, ◌≡◌, refl, ap, ◌∙◌, Bool, true, false, String, Option,
  none, some, List, [], ◌∷◌, ◌&&◌, arith, ltb, lt→ltb, eqb, eqb_iff, inl, inr, Bool-cases,
}
use thing_directory.Common.Order.{less_bytes}
use thing_directory.Notification.Numbers.{
  uint64_mod, big_endian, uint64_to_byte, from_bytes, byte_to_uint64, digit, digit_value, to_hex,
  format_uint, from_hex, parse_uint,
}

from_bytes-big_endian :
    (n x : ℕ) (bytes : List ℕ)
    → x < 256 ^ n
    → from_bytes 0 (big_endian n x bytes) ≡ from_bytes x bytes
unfolding from_bytes big_endian
from_bytes-big_endian zero x bytes h = ap (λ (t : ℕ). from_bytes t bytes) (omega arith)
from_bytes-big_endian (suc n) x bytes h =
    from_bytes-big_endian n (x / 256) (x % 256 ∷ bytes) (omega (arith, pow-suc 256 n))
    ∙ ap (λ (t : ℕ). from_bytes t bytes) (omega arith)

-- A number below 2 ^ 64 is read back from its key of eight bytes.
pub byte_to_uint64-uint64_to_byte : (x : ℕ) → x < uint64_mod → byte_to_uint64 (uint64_to_byte x) ≡ x
unfolding byte_to_uint64 uint64_to_byte
byte_to_uint64-uint64_to_byte x h = from_bytes-big_endian 8 x [] (omega arith)

less_bytes-big_endian :
    (n x y : ℕ) (xs ys : List ℕ)
    → x < 256 ^ n
    → y < 256 ^ n
    → less_bytes (big_endian n x xs) (big_endian n y ys) ≡ elim (compare x y) [
      | Ordering.lt ↦ true
      | Ordering.eq ↦ less_bytes xs ys
      | Ordering.gt ↦ false
    ]
unfolding big_endian
less_bytes-big_endian zero x y xs ys h k = ground arith
less_bytes-big_endian (suc n) x y xs ys h k =
    less_bytes-big_endian n (x / 256) (y / 256) (x % 256 ∷ xs) (y % 256 ∷ ys)
      (omega (arith, pow-suc 256 n)) (omega (arith, pow-suc 256 n))
    ∙ ground arith

-- The byte order of the keys of two events is the order of their numbers, for numbers below 2 ^ 64.
pub less_bytes-uint64_to_byte :
    (x y : ℕ)
    → x < uint64_mod
    → y < uint64_mod
    → less_bytes (uint64_to_byte x) (uint64_to_byte y) ≡ ltb x y
unfolding uint64_to_byte
less_bytes-uint64_to_byte x y h k =
    less_bytes-big_endian 8 x y [] [] (omega arith) (omega arith) ∙ ground arith

-- Every digit is read as its value.
is_read : ℕ → Bool
unfolding digit digit_value
is_read d = elim (digit_value (code (digit d))) [ none ↦ false | some e ↦ eqb e d ]

-- Whether a test passes at every digit under the bound.
passes : (ℕ → Bool) → ℕ → Bool
passes good zero = true
passes good (suc top) = passes good top && good top

passes-at : (good : ℕ → Bool) (top d : ℕ) → d < top → passes good top ≡ true → good d ≡ true
unfolding passes
passes-at good zero d below h = absurd (omega arith)
passes-at good (suc top) d below h = ground (arith, passes-at good top d)

digits_table : passes is_read 16 ≡ true
unfolding passes is_read
digits_table = refl

digit_value-digit : (d : ℕ) → d < 16 → digit_value (code (digit d)) ≡ some d
digit_value-digit d h =
    of_is_read (digit_value (code (digit d)))
      (unfold is_read in passes-at is_read 16 d h digits_table)
  where
    of_is_read : (r : Option ℕ) → (elim r [ none ↦ false | some e ↦ eqb e d ]) ≡ true → r ≡ some d
    of_is_read none e = cc
    of_is_read (some v) e = ap some ((eqb_iff v d).0 e)

-- One more digit in front of a text.
from_hex-digit :
    (acc d : ℕ) (text : String)
    → d < 16
    → acc * 16 + d < uint64_mod
    → from_hex acc (String.◌∷◌ (digit d) text) ≡ from_hex (acc * 16 + d) text
unfolding from_hex
from_hex-digit acc d text h k =
    rw (digit_value-digit d h, from_hex) (rw (lt→ltb (acc * 16 + d) uint64_mod k) refl)

from_hex-to_hex :
    (n x : ℕ) (text : String)
    → x < 16 ^ n
    → x < uint64_mod
    → from_hex 0 (to_hex n x text) ≡ from_hex x text
unfolding to_hex
from_hex-to_hex zero x text h k = ap (λ (t : ℕ). from_hex t text) (omega arith)
from_hex-to_hex (suc n) x text h k = elim (Bool-cases (ltb x 16)) [
  | inl small ↦ rw small (
      from_hex-digit 0 x text (ground arith) (omega arith)
      ∙ ap (λ (t : ℕ). from_hex t text) (omega arith))
  | inr large ↦ rw large (
      from_hex-to_hex n (x / 16) (String.◌∷◌ (digit (x % 16)) text) (omega (arith, pow-suc 16 n))
        (omega arith)
      ∙ (from_hex-digit (x / 16) (x % 16) text (omega arith) (omega arith)
          ∙ ap (λ (t : ℕ). from_hex t text) (omega arith)))
]

parse_uint-to_hex :
    (n x : ℕ) (c : Char) (text : String)
    → parse_uint (to_hex n x (String.◌∷◌ c text)) ≡ from_hex 0 (to_hex n x (String.◌∷◌ c text))
unfolding parse_uint to_hex
parse_uint-to_hex zero x c text = refl
parse_uint-to_hex (suc n) x c text =
    ground (arith, parse_uint-to_hex n (x / 16) (digit (x % 16)) (String.◌∷◌ c text))

parse_uint-to_hex_nil :
    (n x : ℕ) → parse_uint (to_hex (suc n) x "") ≡ from_hex 0 (to_hex (suc n) x "")
unfolding parse_uint to_hex
parse_uint-to_hex_nil n x = ground (arith, parse_uint-to_hex n (x / 16) (digit (x % 16)) "")

-- A number below 2 ^ 64 is read back from its hexadecimal id.
pub parse_uint-format_uint : (x : ℕ) → x < uint64_mod → parse_uint (format_uint x) ≡ some x
unfolding format_uint
parse_uint-format_uint x h =
    parse_uint-to_hex_nil 15 x ∙ (from_hex-to_hex 16 x "" (omega arith) h ∙ unfold from_hex in refl)
