-- ===== src/Catalog/Storage/Interface/Agreement.antt =====
-- Two storages that keep the promise of the interface, and hold the same, cannot be told apart.
use thing_directory.Common.{◌≡◌, refl, ap, ◌∙◌, sym, String, Option, List, [], ◌∷◌, All}
use thing_directory.Errors.{Result}
use thing_directory.Json.{ThingDescription}
use thing_directory.Json.RoundTrip.{IsMap}
use thing_directory.Libraries.{Libraries}
use thing_directory.Catalog.Storage.Interface.{StorageMethods, IsStorage}

pub data StorageCall : Type 0 where
  adding updating : String → ThingDescription → StorageCall
  deleting getting : String → StorageCall

pub data Reply : Type 0 where
  done : Result (Unit {0}) → Reply
  found : Result ThingDescription → Reply

abbrev pub IsStorageCall : StorageCall → Type 0
IsStorageCall (adding id td) = IsMap td
IsStorageCall (updating id td) = IsMap td
IsStorageCall (deleting id) = Unit
IsStorageCall (getting id) = Unit

module _ (S : StorageMethods) where
  abbrev pub ask : StorageCall → S.Store → Reply × S.Store
  ask (adding id td) s = (done (S.add id td s).0, (S.add id td s).1)
  ask (updating id td) s = (done (S.update id td s).0, (S.update id td s).1)
  ask (deleting id) s = (done (S.delete id s).0, (S.delete id s).1)
  ask (getting id) s = (found (S.get id s).0, (S.get id s).1)

  abbrev pub replies : List StorageCall → S.Store → List Reply
  replies [] s = []
  replies (call ∷ calls) s = (ask call s).0 ∷ replies calls (ask call s).1

module _ (lib : Libraries) (S T : StorageMethods)
    (holds : S.Store → String → Option ThingDescription) (IsFit : S.Store → Type 0)
    (holds' : T.Store → String → Option ThingDescription) (IsFit' : T.Store → Type 0)
    (m : IsStorage lib S holds IsFit) (n : IsStorage lib T holds' IsFit') where
  -- Both are fit, and hold the same.
  pub record Agree (s : S.Store) (t : T.Store) : Type 0 where
    pub fit : IsFit s
    pub fit' : IsFit' t
    pub same : (j : String) → holds s j ≡ holds' t j

  ask-Agree :
      (call : StorageCall) (s : S.Store) (t : T.Store)
      → IsStorageCall call
      → Agree s t
      → ((ask S call s).0 ≡ (ask T call t).0) × Agree (ask S call s).1 (ask T call t).1
  ask-Agree (adding id td) s t h a =
      let answers : (S.add id td s).0 ≡ (T.add id td t).0 =
        m.add_answer s id td a.fit ∙ rw (a.same id) (sym (n.add_answer t id td a.fit')) in
      (
        ap done answers,
        record {
          fit = (m.added s id id td h a.fit).0;
          fit' = (n.added t id id td h a.fit').0;
          same = λ j.
              (m.added s id j td h a.fit).1
              ∙ rw (answers, a.same j) (sym (n.added t id j td h a.fit').1);
        },
      )
  ask-Agree (updating id td) s t h a =
      let answers : (S.update id td s).0 ≡ (T.update id td t).0 =
        m.update_answer s id td a.fit ∙ rw (a.same id) (sym (n.update_answer t id td a.fit')) in
      (
        ap done answers,
        record {
          fit = (m.updated s id id td h a.fit).0;
          fit' = (n.updated t id id td h a.fit').0;
          same = λ j.
              (m.updated s id j td h a.fit).1
              ∙ rw (answers, a.same j) (sym (n.updated t id j td h a.fit').1);
        },
      )
  ask-Agree (deleting id) s t h a = (
    ap done (m.delete_answer s id a.fit ∙ rw (a.same id) (sym (n.delete_answer t id a.fit'))),
    record {
      fit = (m.deleted s id id a.fit).0;
      fit' = (n.deleted t id id a.fit').0;
      same = λ j. (m.deleted s id j a.fit).1 ∙ rw (a.same j) (sym (n.deleted t id j a.fit').1);
    },
  )
  ask-Agree (getting id) s t h a = rw (m.got s id a.fit, n.got t id a.fit', a.same id) (refl, a)

  -- Two storages that keep the promise of the interface, are fit and hold the same Thing
  -- Descriptions give the same replies, errors included, to any sequence of `add`, `update`,
  -- `delete` and `get`, if the Thing Descriptions are JSON objects.
  pub replies-eq :
      (calls : List StorageCall) (s : S.Store) (t : T.Store)
      → All IsStorageCall calls
      → Agree s t
      → replies S calls s ≡ replies T calls t
  replies-eq [] s t h a = refl
  replies-eq (call ∷ calls) s t (h, hs) a =
      let (same, b) = ask-Agree call s t h a in
      λ i. same i ∷ replies-eq calls (ask S call s).1 (ask T call t).1 hs b i
