-- ===== src/LevelDb/Memory.antt =====
-- A store in memory that never fails: it shows that the laws can be met, and runs the tests.
use thing_directory.Common.{◌≡◌, refl, ap, sym, none, List, [], ◌∷◌, is_some}
use thing_directory.Common.Order.{KeyOrder}
use thing_directory.Common.SortedMap
use thing_directory.Common.SortedMap.{IsSorted, insert-IsSorted, erase-IsSorted}
use thing_directory.Errors.{done}
use thing_directory.Json.{Bytes}
use thing_directory.LevelDb.{LevelDb, IsFaultless, BatchOp, apply, within}

pub done-injective {ℓ} : {A : Type ℓ} (a b : A) → done a ≡ done b → a ≡ b
done-injective a b h = cc

module _ {K : Type 0} ⦃o : KeyOrder K⦄ where
  pub apply-IsSorted :
      (ops : List (BatchOp K)) (m : List (K × Bytes)) → IsSorted m → IsSorted (apply ops m)
  apply-IsSorted [] m s = s
  apply-IsSorted (BatchOp.put k b ∷ ops) m s =
      apply-IsSorted ops (SortedMap.insert k b m) (insert-IsSorted k b m s)
  apply-IsSorted (BatchOp.delete k ∷ ops) m s =
      apply-IsSorted ops (SortedMap.erase k m) (erase-IsSorted k m s)

pub record Memory (K : Type 0) ⦃o : KeyOrder K⦄ : Type 0 where
  pub entries : List (K × Bytes)
  pub sorted : IsSorted entries

module _ {K : Type 0} ⦃o : KeyOrder K⦄ where
  abbrev pub insert : Memory K → K → Bytes → Memory K
  insert m k b = record {
    entries = SortedMap.insert k b m.entries;
    sorted = insert-IsSorted k b m.entries m.sorted;
  }

  abbrev pub erase : Memory K → K → Memory K
  erase m k = record {
    entries = SortedMap.erase k m.entries;
    sorted = erase-IsSorted k m.entries m.sorted;
  }

  abbrev pub apply_all : Memory K → List (BatchOp K) → Memory K
  apply_all m ops = record {
    entries = apply ops m.entries;
    sorted = apply-IsSorted ops m.entries m.sorted;
  }

  abbrev pub empty : Memory K
  empty = record { entries = []; sorted = tt }

  pub memory_done {ℓ} :
      {B : Type ℓ} (f : Memory K → B) {d e : Memory K} → done d ≡ done e → f e ≡ f d
  memory_done f h = sym (ap f (done-injective _ _ h))

abbrev pub memory : (K : Type 0) ⦃o : KeyOrder K⦄ → LevelDb K
memory K = record {
  Db = Memory K;
  contents = λ m. m.entries;
  has = λ m k. done (is_some (SortedMap.lookup k m.entries));
  get = λ m k. done (SortedMap.lookup k m.entries);
  put = λ m k b. done (insert m k b);
  delete = λ m k. done (erase m k);
  write = λ m ops. done (apply_all m ops);
  scan = λ m r. (within r m.entries, none);
  contents-IsSorted = λ m. m.sorted;
  has_law = λ m k b h. sym (done-injective _ _ h);
  get_law = λ m k r h. sym (done-injective _ _ h);
  put_law = λ m e k b h. memory_done (λ d. d.entries) h;
  delete_law = λ m e k h. memory_done (λ d. d.entries) h;
  write_law = λ m e ops h. memory_done (λ d. d.entries) h;
  scan_law = λ m r h. refl;
}

pub memory-IsFaultless : (K : Type 0) ⦃o : KeyOrder K⦄ → IsFaultless (memory K)
memory-IsFaultless K = record {
  has = λ m k. (is_some (SortedMap.lookup k m.entries), refl);
  get = λ m k. (SortedMap.lookup k m.entries, refl);
  put = λ m k b. (insert m k b, refl);
  delete = λ m k. (erase m k, refl);
  write = λ m ops. (apply_all m ops, refl);
  scan = λ m r. refl;
}
