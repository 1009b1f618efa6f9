-- ===== src/LevelDb/Batch.antt =====
-- What a batch of deletions leaves, and what a range of the entries holds.
use thing_directory.Common.{
  ◌≡◌, refl, ◌∙◌, inl, inr, none, List, [], ◌∷◌, map, arith, Bool, not, true, false, ◌++◌, All,
  keep_if, is_some, if◌then◌else◌, Bool-cases,
}
use thing_directory.Common.Order.{KeyOrder}
use thing_directory.Common.SortedMap
use thing_directory.Common.SortedMap.{
  lookup-erase, lookup-Above, lookup-insert, insert-IsSorted, erase-IsSorted, not_same_of_less,
}
use thing_directory.Common.SortedMap.Extensional.{lookup_ext}
use thing_directory.Json.{Bytes}
use thing_directory.LevelDb.{BatchOp, Range, in_range, within, apply}

module _ {K : Type 0} ⦃o : KeyOrder K⦄ where
  pub lookup-within :
      (r : Range K) (k : K) (m : List (K × Bytes))
      → SortedMap.lookup k (within r m) ≡ (if in_range r k then SortedMap.lookup k m else none)
  unfolding SortedMap.lookup
  lookup-within r k [] = ground arith
  lookup-within r k ((j, v) ∷ m) = elim (Bool-cases (o.same j k)) [
    | inl same ↦ rw ((o.same_iff j k).0 same) (ground (arith, o.same_iff k k, lookup-within r k m))
    | inr other ↦ ground (arith, other, lookup-within r k m)
  ]

  abbrev pub deletions : List (K × Bytes) → List (BatchOp K)
  deletions es = map (λ e. BatchOp.delete e.0) es

  pub lookup-deletions :
      (k : K) (es m : List (K × Bytes))
      → SortedMap.lookup k (apply (deletions es) m)
        ≡ (if is_some (SortedMap.lookup k es) then none else SortedMap.lookup k m)
  unfolding SortedMap.lookup
  lookup-deletions k [] m = refl
  lookup-deletions k ((j, v) ∷ es) m =
      lookup-deletions k es (SortedMap.erase j m) ∙ ground (arith, lookup-erase j k m)

  lookup-keep_if :
      (p : K → Bool) (k : K) (m : List (K × Bytes))
      → SortedMap.lookup k (keep_if (λ e. p e.0) m) ≡ (if p k then SortedMap.lookup k m else none)
  unfolding SortedMap.lookup
  lookup-keep_if p k [] = ground arith
  lookup-keep_if p k ((j, v) ∷ m) = elim (Bool-cases (o.same j k)) [
    | inl same ↦ rw ((o.same_iff j k).0 same) (ground (arith, o.same_iff k k, lookup-keep_if p k m))
    | inr other ↦ ground (arith, other, lookup-keep_if p k m)
  ]

  Above-keep_if :
      (p : K → Bool) (k : K) (m : List (K × Bytes))
      → SortedMap.Above k m
      → SortedMap.Above k (keep_if (λ e. p e.0) m)
  Above-keep_if p k [] a = tt
  Above-keep_if p k ((j, v) ∷ m) (b, a) = ground (arith, Above-keep_if p k m)

  keep_if-IsSorted :
      (p : K → Bool) (m : List (K × Bytes))
      → SortedMap.IsSorted m
      → SortedMap.IsSorted (keep_if (λ e. p e.0) m)
  keep_if-IsSorted p [] s = tt
  keep_if-IsSorted p ((j, v) ∷ m) (a, s) =
      ground (arith, keep_if-IsSorted p m s, Above-keep_if p j m a)

  deletions-IsSorted :
      (es m : List (K × Bytes)) → SortedMap.IsSorted m → SortedMap.IsSorted (apply (deletions es) m)
  deletions-IsSorted [] m s = s
  deletions-IsSorted (e ∷ es) m s =
      deletions-IsSorted es (SortedMap.erase e.0 m) (erase-IsSorted e.0 m s)

  -- An entry out of a range is written, and those that were in the range are deleted.
  pub deletions-within :
      (r : Range K) (k : K) (bytes : Bytes) (m : List (K × Bytes))
      → SortedMap.IsSorted m
      → in_range r k ≡ false
      → apply (deletions (within r m)) (SortedMap.insert k bytes m)
        ≡ keep_if (λ e. not (in_range r e.0)) (SortedMap.insert k bytes m)
  deletions-within r k bytes m s out =
      let sorted = insert-IsSorted k bytes m s in
      lookup_ext _ _ (deletions-IsSorted (within r m) _ sorted)
        (keep_if-IsSorted (λ j. not (in_range r j)) _ sorted)
        λ j.
          rw
            (
              lookup-deletions j (within r m) (SortedMap.insert k bytes m),
              lookup-within r j m,
              lookup-keep_if (λ i. not (in_range r i)) j (SortedMap.insert k bytes m),
              lookup-insert k j bytes m,
            )
            (ground (arith, out, o.same_iff k j))

  -- A key above all others comes last.
  pub insert-last :
      (k : K) (bytes : Bytes) (m : List (K × Bytes))
      → All (λ e. o.less e.0 k ≡ true) m
      → SortedMap.insert k bytes m ≡ m ++ (k, bytes) ∷ []
  unfolding SortedMap.insert
  insert-last k bytes [] h = refl
  insert-last k bytes ((j, v) ∷ m) (b, h) =
      ground (arith, not_same_of_less j k b, less_asym j k b, insert-last k bytes m h)
    where
      less_asym : (j k : K) → o.less j k ≡ true → o.less k j ≡ false
      less_asym j k h = elim (Bool-cases (o.less k j)) [
        | inl back ↦ cc (o.less_trans j k j h back, o.less_irrefl j)
        | inr fine ↦ fine
      ]
