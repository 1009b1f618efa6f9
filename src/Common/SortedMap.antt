-- ===== src/Common/SortedMap.antt =====
-- A map as a list of entries in the order of its keys: Go's maps as they are printed, and the
-- contents of a LevelDB database as its iterators visit them.
pub mod Extensional
use mathlib.Core.Path.{◌≡◌, refl, ap, subst₂}
use mathlib.Core.Logic.{inl, inr}
use mathlib.Core.Bool.{true, false}
use mathlib.Core.Option.{Option, none, some}
use mathlib.Core.List.{List, [], ◌∷◌}
use Prim.Native.Nat.{suc}
use native.Mathlib.Omega.{arith}
use thing_directory.Common.Tests.{if◌then◌else◌, Bool-cases}
use thing_directory.Common.Lists.{length, All}
use thing_directory.Common.Order.{KeyOrder}

module _ {K : Type 0} ⦃o : KeyOrder K⦄ where
  pub same_refl : (k : K) → o.same k k ≡ true
  same_refl k = (o.same_iff k k).1 refl

  pub not_same_of_less : (k j : K) → o.less k j ≡ true → o.same k j ≡ false
  not_same_of_less k j h = elim (Bool-cases (o.same k j)) [
    | inl e ↦ cc (h, ap (o.less k) ((o.same_iff k j).0 e), o.less_irrefl k)
    | inr e ↦ e
  ]

  pub same_comm : (k j : K) → o.same k j ≡ o.same j k
  same_comm k j = ground (arith, o.same_iff k j, o.same_iff j k)

  less_other : (k j : K) → o.same j k ≡ false → o.less k j ≡ false → o.less j k ≡ true
  less_other k j h n = elim (Bool-cases (o.less j k)) [
    | inl e ↦ e
    | inr e ↦ cc (h, (o.same_iff j k).1 (o.less_total j k e n))
  ]

module _ {K V : Type 0} ⦃o : KeyOrder K⦄ where
  unfoldable pub lookup : K → List (K × V) → Option V
  lookup k [] = none
  lookup k ((j, v) ∷ m) = if o.same j k then some v else lookup k m

  unfoldable pub insert : K → V → List (K × V) → List (K × V)
  insert k v [] = (k, v) ∷ []
  insert k v ((j, w) ∷ m) =
      if o.same j k
      then (k, v) ∷ m
      else if o.less k j
      then (k, v) ∷ (j, w) ∷ m
      else (j, w) ∷ insert k v m

  unfoldable pub erase : K → List (K × V) → List (K × V)
  erase k [] = []
  erase k ((j, v) ∷ m) = let rest = erase k m in if o.same j k then rest else (j, v) ∷ rest

  -- Every key is above `k`.
  abbrev pub Above : K → List (K × V) → Type 0
  Above k [] = Unit
  Above k ((j, v) ∷ m) = (o.less k j ≡ true) × Above k m

  abbrev pub IsSorted : List (K × V) → Type 0
  IsSorted [] = Unit
  IsSorted ((k, v) ∷ m) = Above k m × IsSorted m

  pub lookup-insert :
      (k j : K) (v : V) (m : List (K × V))
      → lookup j (insert k v m) ≡ (if o.same k j then some v else lookup j m)
  unfolding lookup insert
  lookup-insert k j v [] = refl
  lookup-insert k j v ((i, w) ∷ m) =
      ground (arith, o.same_iff k j, o.same_iff i k, o.same_iff i j, lookup-insert k j v m)

  pub lookup-erase :
      (k j : K) (m : List (K × V))
      → lookup j (erase k m) ≡ (if o.same k j then none else lookup j m)
  unfolding lookup erase
  lookup-erase k j [] = ground arith
  lookup-erase k j ((i, w) ∷ m) =
      ground (arith, o.same_iff k j, o.same_iff i k, o.same_iff i j, lookup-erase k j m)

  pub Above-trans : (k j : K) (m : List (K × V)) → o.less k j ≡ true → Above j m → Above k m
  Above-trans k j [] h a = tt
  Above-trans k j ((i, w) ∷ m) h (b, a) = (o.less_trans k j i h b, Above-trans k j m h a)

  pub lookup-Above : (k : K) (m : List (K × V)) → Above k m → lookup k m ≡ none
  unfolding lookup
  lookup-Above k [] a = refl
  lookup-Above k ((j, v) ∷ m) (b, a) =
      ground (arith, not_same_of_less k j b, same_comm k j, lookup-Above k m a)

  -- A new least key goes to the front.
  pub insert-Above : (k : K) (v : V) (m : List (K × V)) → Above k m → insert k v m ≡ (k, v) ∷ m
  unfolding insert
  insert-Above k v [] a = refl
  insert-Above k v ((j, w) ∷ m) (b, a) = ground (arith, not_same_of_less k j b, same_comm k j)

  pub Above-insert :
      (i k : K) (v : V) (m : List (K × V)) → o.less i k ≡ true → Above i m → Above i (insert k v m)
  unfolding insert
  Above-insert i k v [] h a = (h, tt)
  Above-insert i k v ((j, w) ∷ m) h a = ground (arith, Above-insert i k v m)

  pub insert-IsSorted : (k : K) (v : V) (m : List (K × V)) → IsSorted m → IsSorted (insert k v m)
  unfolding insert
  insert-IsSorted k v [] s = (tt, tt)
  insert-IsSorted k v ((j, w) ∷ m) (a, s) = elim (Bool-cases (o.same j k)) [
    | inl e ↦ rw e ((rw ((o.same_iff j k).0 e) at a), s)
    | inr e ↦ elim (Bool-cases (o.less k j)) [
      | inl l ↦ rw (e, l) ((l, Above-trans k j m l a), (a, s))
      | inr n ↦ rw (e, n) (Above-insert j k v m (less_other k j e n) a, insert-IsSorted k v m s)
    ]
  ]

  Above-erase : (i k : K) (m : List (K × V)) → Above i m → Above i (erase k m)
  unfolding erase
  Above-erase i k [] a = tt
  Above-erase i k ((j, w) ∷ m) a = ground (arith, Above-erase i k m)

  pub erase-IsSorted : (k : K) (m : List (K × V)) → IsSorted m → IsSorted (erase k m)
  unfolding erase
  erase-IsSorted k [] s = tt
  erase-IsSorted k ((j, w) ∷ m) (a, s) = ground (arith, erase-IsSorted k m s, Above-erase j k m a)

  pub length-insert :
      (k : K) (v : V) (m : List (K × V))
      → lookup k m ≡ none
      → length (insert k v m) ≡ suc (length m)
  unfolding insert lookup
  length-insert k v [] h = refl
  length-insert k v ((j, w) ∷ m) h = ground (arith, length-insert k v m)

module _ {K V : Type 0} ⦃o : KeyOrder K⦄ (P : K × V → Type 0) where
  pub All-insert : (k : K) (v : V) (m : List (K × V)) → P (k, v) → All P m → All P (insert k v m)
  unfolding insert
  All-insert k v [] p h = (p, tt)
  All-insert k v ((j, w) ∷ m) p h = ground (arith, All-insert k v m p)

  pub All-erase : (k : K) (m : List (K × V)) → All P m → All P (erase k m)
  unfolding erase
  All-erase k [] h = tt
  All-erase k ((j, w) ∷ m) h = ground (arith, All-erase k m)

  pub All-lookup : (k : K) (m : List (K × V)) (v : V) → All P m → lookup k m ≡ some v → P (k, v)
  unfolding lookup
  All-lookup k [] v h e = cc
  All-lookup k ((j, w) ∷ m) v (p, h) e = elim (Bool-cases (o.same j k)) [
    | inl same ↦
        let same_value : w ≡ v = ground arith in
        subst₂ (λ a b. P (a, b)) ((o.same_iff j k).0 same) same_value p
    | inr other ↦ All-lookup k m v h (rw (other, lookup) at e)
  ]
