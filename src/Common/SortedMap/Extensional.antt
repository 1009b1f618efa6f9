-- ===== src/Common/SortedMap/Extensional.antt =====
-- Two sorted maps that hold the same value under each key are one.
use mathlib.Core.Path.{◌≡◌, refl, sym, ap₂, ◌∙◌}
use mathlib.Core.Logic.{inl, inr}
use mathlib.Core.Bool.{false}
use mathlib.Core.Option.{some}
use mathlib.Core.List.{List, [], ◌∷◌}
use native.Mathlib.Omega.{arith}
use thing_directory.Common.Tests.{Bool-cases}
use thing_directory.Common.Order.{KeyOrder}
use thing_directory.Common.SortedMap.{lookup, Above, IsSorted, same_refl, lookup-Above, Above-trans}

some-injective : {V : Type 0} (a b : V) → some a ≡ some b → a ≡ b
some-injective a b h = cc

module _ {K V : Type 0} ⦃o : KeyOrder K⦄ where
  -- The first key of one is not below that of the other.
  not_below :
      (k j : K) (v w : V) (m n : List (K × V))
      → Above j n
      → ((i : K) → lookup i ((k, v) ∷ m) ≡ lookup i ((j, w) ∷ n))
      → o.less k j ≡ false
  unfolding lookup
  not_below k j v w m n above same = elim (Bool-cases (o.less k j)) [
    | inl less ↦ absurd (
        ground (
          arith,
          same k,
          same_refl k,
          lookup-Above k ((j, w) ∷ n) (less, Above-trans k j n less above),
        ))
    | inr not_less ↦ not_less
  ]

  pub lookup_ext :
      (m n : List (K × V)) → IsSorted m → IsSorted n → ((k : K) → lookup k m ≡ lookup k n) → m ≡ n
  unfolding lookup
  lookup_ext [] [] s t h = refl
  lookup_ext [] ((j, w) ∷ n) s t h = absurd (ground (arith, h j, same_refl j))
  lookup_ext ((k, v) ∷ m) [] s t h = absurd (ground (arith, h k, same_refl k))
  lookup_ext ((k, v) ∷ m) ((j, w) ∷ n) (a, s) (b, t) h =
      let keys =
        o.less_total k j (not_below k j v w m n b h) (not_below j k w v n m a (λ i. sym (h i))) in
      let values : v ≡ w = some-injective v w (ground (arith, h k, same_refl k, keys)) in
      ap₂ ◌∷◌ (λ i. (keys i, values i))
        (lookup_ext m n s t λ i. elim (Bool-cases (o.same k i)) [
          | inl here ↦
              let at = (o.same_iff k i).0 here in
              rw (← at) (lookup-Above k m a ∙ sym (rw keys (lookup-Above j n b)))
          | inr there ↦ ground (arith, h i, there, keys)
        ])
