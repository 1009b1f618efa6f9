-- ===== src/Common/Order.antt =====
-- The order of keys: an interface, the lexicographic order of byte strings, and that of texts,
-- which Go compares byte by byte. UTF-8 keeps the order of code points.
use Prim.Native.Nat.{ℕ, compare, Ordering}
use Prim.Native.Char.{code}
use Prim.Native.String.{String}
use mathlib.Core.Path.{◌≡◌, refl, ap₂}
use mathlib.Core.Logic.{◌↔◌}
use mathlib.Core.Bool.{Bool, true, false}
use mathlib.Core.List.{List, [], ◌∷◌}
use native.Mathlib.Omega.{arith}
use thing_directory.Common.Tests.{eqb, ltb, eqb_iff}
use text.Mathlib.Text.{◌==◌}
use text.Mathlib.TextEquality.{eq_iff, Char-path}

pub record KeyOrder (K : Type 0) : Type 0 where
  pub same : K → K → Bool
  pub less : K → K → Bool
  pub same_iff : (a b : K) → (same a b ≡ true) ↔ (a ≡ b)
  pub less_irrefl : (a : K) → less a a ≡ false
  pub less_trans : (a b c : K) → less a b ≡ true → less b c ≡ true → less a c ≡ true
  pub less_total : (a b : K) → less a b ≡ false → less b a ≡ false → a ≡ b

abbrev pub less_bytes : List ℕ → List ℕ → Bool
less_bytes [] [] = false
less_bytes [] (y ∷ ys) = true
less_bytes (x ∷ xs) [] = false
less_bytes (x ∷ xs) (y ∷ ys) = elim (compare x y) [
  | Ordering.lt ↦ true
  | Ordering.eq ↦ less_bytes xs ys
  | Ordering.gt ↦ false
]

pub less_bytes_irrefl : (xs : List ℕ) → less_bytes xs xs ≡ false
less_bytes_irrefl [] = refl
less_bytes_irrefl (x ∷ xs) = ground (arith, less_bytes_irrefl xs)

pub less_bytes_trans :
    (xs ys zs : List ℕ)
    → less_bytes xs ys ≡ true
    → less_bytes ys zs ≡ true
    → less_bytes xs zs ≡ true
less_bytes_trans [] [] zs h k = cc
less_bytes_trans [] (y ∷ ys) [] h k = cc
less_bytes_trans [] (y ∷ ys) (z ∷ zs) h k = refl
less_bytes_trans (x ∷ xs) [] zs h k = cc
less_bytes_trans (x ∷ xs) (y ∷ ys) [] h k = cc
less_bytes_trans (x ∷ xs) (y ∷ ys) (z ∷ zs) h k = ground (arith, less_bytes_trans xs ys zs)

pub less_bytes_total :
    (xs ys : List ℕ) → less_bytes xs ys ≡ false → less_bytes ys xs ≡ false → xs ≡ ys
less_bytes_total [] [] h k = refl
less_bytes_total [] (y ∷ ys) h k = cc
less_bytes_total (x ∷ xs) [] h k = cc
less_bytes_total (x ∷ xs) (y ∷ ys) h k = ground (arith, less_bytes_total xs ys)

abbrev pub same_bytes : List ℕ → List ℕ → Bool
same_bytes [] [] = true
same_bytes [] (y ∷ ys) = false
same_bytes (x ∷ xs) [] = false
same_bytes (x ∷ xs) (y ∷ ys) = elim (compare x y) [ Ordering.eq ↦ same_bytes xs ys | _ ↦ false ]

same_bytes-to : (xs ys : List ℕ) → same_bytes xs ys ≡ true → xs ≡ ys
same_bytes-to [] [] h = refl
same_bytes-to [] (y ∷ ys) h = cc
same_bytes-to (x ∷ xs) [] h = cc
same_bytes-to (x ∷ xs) (y ∷ ys) h = ground (arith, same_bytes-to xs ys)

same_bytes_refl : (xs ys : List ℕ) → xs ≡ ys → same_bytes xs ys ≡ true
same_bytes_refl [] [] h = refl
same_bytes_refl [] (y ∷ ys) h = cc
same_bytes_refl (x ∷ xs) [] h = cc
same_bytes_refl (x ∷ xs) (y ∷ ys) h = ground (arith, same_bytes_refl xs ys)

pub same_bytes_iff : (xs ys : List ℕ) → (same_bytes xs ys ≡ true) ↔ (xs ≡ ys)
same_bytes_iff xs ys = (same_bytes-to xs ys, same_bytes_refl xs ys)

instance abbrev pub bytes_order : KeyOrder (List ℕ)
bytes_order = record {
  same = same_bytes;
  less = less_bytes;
  same_iff = same_bytes_iff;
  less_irrefl = less_bytes_irrefl;
  less_trans = less_bytes_trans;
  less_total = less_bytes_total;
}

pub ltb_irrefl : (a : ℕ) → ltb a a ≡ false
ltb_irrefl a = ground arith

pub ltb_trans : (a b c : ℕ) → ltb a b ≡ true → ltb b c ≡ true → ltb a c ≡ true
ltb_trans a b c h k = ground arith

pub ltb_total : (a b : ℕ) → ltb a b ≡ false → ltb b a ≡ false → a ≡ b
ltb_total a b h k = ground arith

instance abbrev pub nat_order : KeyOrder ℕ
nat_order = record {
  same = eqb;
  less = ltb;
  same_iff = eqb_iff;
  less_irrefl = ltb_irrefl;
  less_trans = ltb_trans;
  less_total = ltb_total;
}

-- A text as its code points, by which texts are compared.
abbrev pub codes : String → List ℕ
codes String.[] = []
codes (String.◌∷◌ c s) = code c ∷ codes s

pub codes-injective : (s t : String) → codes s ≡ codes t → s ≡ t
codes-injective String.[] String.[] h = refl
codes-injective String.[] (String.◌∷◌ c t) h = cc
codes-injective (String.◌∷◌ c s) String.[] h = cc
codes-injective (String.◌∷◌ c s) (String.◌∷◌ d t) h =
    ap₂ String.◌∷◌ (Char-path c d (ground arith)) (codes-injective s t (ground arith))

instance abbrev pub text_order : KeyOrder String
text_order = record {
  same = ◌==◌;
  less = λ s t. less_bytes (codes s) (codes t);
  same_iff = eq_iff;
  less_irrefl = λ s. less_bytes_irrefl (codes s);
  less_trans = λ s t u. less_bytes_trans (codes s) (codes t) (codes u);
  less_total = λ s t h k. codes-injective s t (less_bytes_total (codes s) (codes t) h k);
}
