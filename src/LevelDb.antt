-- ===== src/LevelDb.antt =====
-- The key-value store github.com/syndtr/goleveldb/leveldb, which the directory calls and does not
-- contain: an interface. A call can fail. The laws are those of its documentation: a call that
-- succeeds reads, or writes, an ordered map, and an iterator visits the keys of its range in order.
pub mod Memory
pub mod Faultless
pub mod Batch
use thing_directory.Common.{
  Bool, true, false, ◌≡◌, ◌&&◌, String, Option, none, some, List, [], ◌∷◌, is_some, keep_if, not,
}
use thing_directory.Common.Order.{KeyOrder}
use thing_directory.Common.SortedMap
use thing_directory.Common.SortedMap.{IsSorted}
use thing_directory.Errors.{Io, done}
use thing_directory.Json.{Bytes}

-- util.Range: from `start` on, and before `limit`.
pub record Range (K : Type 0) : Type 0 where
  pub start : Option K
  pub limit : Option K

abbrev pub everything : {K : Type 0} → Range K
everything = record { start = none; limit = none }

pub data BatchOp (K : Type 0) : Type 0 where
  put : K → Bytes → BatchOp K
  delete : K → BatchOp K

module _ {K : Type 0} ⦃o : KeyOrder K⦄ where
  abbrev pub in_range : Range K → K → Bool
  in_range r k =
      elim r.start [ none ↦ true | some a ↦ not (o.less k a) ]
      && elim r.limit [ none ↦ true | some b ↦ o.less k b ]

  abbrev pub within : Range K → List (K × Bytes) → List (K × Bytes)
  within r = keep_if (λ e. in_range r e.0)

  abbrev pub apply : List (BatchOp K) → List (K × Bytes) → List (K × Bytes)
  apply [] m = m
  apply (put k b ∷ ops) m = apply ops (SortedMap.insert k b m)
  apply (delete k ∷ ops) m = apply ops (SortedMap.erase k m)

pub record LevelDb (K : Type 0) ⦃o : KeyOrder K⦄ : Type 1 where
  pub Db : Type 0
  -- what is stored, which only the laws read
  pub contents : Db → List (K × Bytes)
  pub has : Db → K → Io Bool
  -- `none` is ErrNotFound
  pub get : Db → K → Io (Option Bytes)
  pub put : Db → K → Bytes → Io Db
  pub delete : Db → K → Io Db
  pub write : Db → List (BatchOp K) → Io Db
  -- the entries that an iterator visits, and its error, which ends it
  pub scan : Db → Range K → List (K × Bytes) × Option String
  pub contents-IsSorted : (d : Db) → IsSorted (contents d)
  pub has_law :
      (d : Db) (k : K) (b : Bool) → has d k ≡ done b → b ≡ is_some (SortedMap.lookup k (contents d))
  pub get_law :
      (d : Db) (k : K) (r : Option Bytes) → get d k ≡ done r → r ≡ SortedMap.lookup k (contents d)
  pub put_law :
      (d e : Db) (k : K) (b : Bytes)
      → put d k b ≡ done e
      → contents e ≡ SortedMap.insert k b (contents d)
  pub delete_law :
      (d e : Db) (k : K) → delete d k ≡ done e → contents e ≡ SortedMap.erase k (contents d)
  pub write_law :
      (d e : Db) (ops : List (BatchOp K))
      → write d ops ≡ done e
      → contents e ≡ apply ops (contents d)
  pub scan_law : (d : Db) (r : Range K) → (scan d r).1 ≡ none → (scan d r).0 ≡ within r (contents d)

-- No call fails.
pub record IsFaultless {K : Type 0} ⦃o : KeyOrder K⦄ (L : LevelDb K) : Type 0 where
  pub has : (d : L.Db) (k : K) → (b : Bool) × (L.has d k ≡ done b)
  pub get : (d : L.Db) (k : K) → (r : Option Bytes) × (L.get d k ≡ done r)
  pub put : (d : L.Db) (k : K) (b : Bytes) → (e : L.Db) × (L.put d k b ≡ done e)
  pub delete : (d : L.Db) (k : K) → (e : L.Db) × (L.delete d k ≡ done e)
  pub write : (d : L.Db) (ops : List (BatchOp K)) → (e : L.Db) × (L.write d ops ≡ done e)
  pub scan : (d : L.Db) (r : Range K) → (L.scan d r).1 ≡ none
