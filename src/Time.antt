-- ===== src/Time.antt =====
-- Go's `time.Time`, `time.Duration` and `float64`, as catalog/controller.go and wot/discovery.go use
-- them. A time is an instant, in nanoseconds since the beginning of the year 0; a duration is the
-- bit pattern of an int64; a float64 is its 64 bits (IEEE 754), and is finite, as JSON has no other.
use thing_directory.Common.{
  ℕ, zero, suc, ◌+◌, ◌-◌, ◌*◌, ◌/◌, ◌%◌, ◌^◌, ◌<◌, ◌≡◌, refl, Bool, ◌&&◌, ◌||◌, String, Option,
  some, arith, ltb, leb, eqb, if◌then◌else◌,
}

abbrev pub Time : Type 0
Time = ℕ

abbrev pub Duration : Type 0
Duration = ℕ

-- The first instant that `Time.MarshalJSON` refuses: the beginning of the year 10000.
abbrev pub year_10000 : Time
year_10000 = 3652425 * 86400 * 10 ^ 9

-- Text of times (`time.RFC3339`): `format` is `Time.MarshalJSON` in UTC, `parse` is `time.Parse`.
pub record Rfc3339 : Type 0 where
  pub format : Time → String
  pub parse : String → Option Time
  pub parse-format : (t : Time) → t < year_10000 → parse (format t) ≡ some t

pub record Float64 : Type 0 where
  pub bits : ℕ

exponent : Float64 → ℕ
exponent x = (x.bits / 2 ^ 52) % 2 ^ 11

mantissa : Float64 → ℕ
unfolding exponent
mantissa x =
    let fraction = x.bits % 2 ^ 52 in if eqb (exponent x) 0 then fraction else fraction + 2 ^ 52

-- The power of two by which a product is too long for 53 bits, tried from below.
excess : ℕ → ℕ → ℕ → ℕ
excess zero s p = s
excess (suc f) s p = let more = excess f (s + 1) p in if ltb p (2 ^ (53 + s)) then s else more

-- Rounding to the nearest, ties to even, of p / 2 ^ s.
round_even : ℕ → ℕ → ℕ
round_even p s =
    let q = p / 2 ^ s in
    let r = p % 2 ^ s in
    if ltb (2 ^ s) (2 * r) || (eqb (2 * r) (2 ^ s) && eqb (q % 2) 1) then q + 1 else q

-- q * 2 ^ e / 2 ^ 1075, cut to an integer.
scaled : ℕ → ℕ → ℕ
scaled q e = if leb 1075 e then q * 2 ^ (e - 1075) else q / 2 ^ (1075 - e)

-- What `int64(x)` gives for a float64 of this sign and integer part, on amd64: what does not fit is
-- the least int64.
to_int64 : Bool → ℕ → Duration
to_int64 negative n =
    if leb (2 ^ 63) n then 2 ^ 63 else if negative then (2 ^ 64 - n) % 2 ^ 64 else n

-- The integer part of x * 1e9, by magnitude.
nanoseconds : Float64 → ℕ
unfolding exponent mantissa excess round_even scaled
nanoseconds x =
    let p = mantissa x * 10 ^ 9 in
    let s = excess 31 0 p in
    let e = if eqb (exponent x) 0 then 1 else exponent x in scaled (round_even p s) (e + s)

-- time.Duration(ttl * 1e9)
unfoldable pub seconds : Float64 → Duration
unfolding nanoseconds to_int64
seconds x = to_int64 (leb (2 ^ 63) x.bits) (nanoseconds x)

-- now.Add(d): a pattern from 2 ^ 63 on stands for a negative number.
unfoldable pub add_duration : Time → Duration → Time
add_duration t d = if ltb d (2 ^ 63) then t + d else (t + d) - 2 ^ 64

to_int64-lt : (negative : Bool) (n : ℕ) → to_int64 negative n < 2 ^ 64
unfolding to_int64
to_int64-lt negative n = ground arith

-- The duration computed from a TTL is below 2 ^ 64, whatever float64 the client sends.
pub seconds-lt : (x : Float64) → seconds x < 2 ^ 64
unfolding seconds
seconds-lt x = to_int64-lt (leb (2 ^ 63) x.bits) (nanoseconds x)

ten_seconds : seconds (record { bits = 0x4024000000000000 }) ≡ 10 * 10 ^ 9
unfolding seconds
ten_seconds = refl

half_second : seconds (record { bits = 0x3fe0000000000000 }) ≡ 5 * 10 ^ 8
unfolding seconds
half_second = refl

minus_one : seconds (record { bits = 0xbff0000000000000 }) ≡ 2 ^ 64 - 10 ^ 9
unfolding seconds
minus_one = refl

-- 1e10 seconds do not fit.
too_long : seconds (record { bits = 0x4202a05f20000000 }) ≡ 2 ^ 63
unfolding seconds
too_long = refl
