-- ===== src/Notification/Controller/Receiving.antt =====
-- What a subscriber is to receive of the events, said apart from the code of notification/controller.go,
-- and that what the code makes of them is this.
use thing_directory.Common.{
  ℕ, ◌≡◌, refl, sym, ap, ◌⊎◌, inl, inr, any, true, false, Option, none, some, List, [], ◌∷◌, map,
  eqb, arith, keep_if, Bool-cases, ◌==◌, eq_iff,
}
use mathlib.Core.Path.{subst}
use thing_directory.Common.Order.{bytes_order, nat_order}
use thing_directory.Wot.{EventType}
use thing_directory.Json.{Value, null, ThingDescription, end, field, get}
use thing_directory.Notification.Queue.{Event}
use thing_directory.Notification.Controller.{Subscriber, Delivery, thing_id, is_wanted, message}

-- The messages of a channel.
abbrev pub received : ℕ → List Delivery → List Event
received client ms = map (λ m. m.1) (keep_if (λ m. eqb m.0 client) ms)

-- What a subscriber gets of some events.
abbrev pub wanted : Subscriber → List Event → List Event
wanted s es = map (message s) (keep_if (is_wanted s) es)

abbrev pub for_client : Option Subscriber → List Event → List Event
for_client none es = []
for_client (some s) es = wanted s es

-- What a subscriber is to receive of some events, said apart from the code.
abbrev pub Asks : EventType → List EventType → Type 0
Asks t [] = ⊥
Asks t (u ∷ us) = (u ≡ t) ⊎ Asks t us

-- The id of a Thing Description, which is null if there is none.
abbrev pub HasId : ThingDescription → Value → Type 0
HasId td v = (get "id" td ≡ some v) ⊎ ((get "id" td ≡ none) × (v ≡ null))

pub data Receives (s : Subscriber) : List Event → List Event → Type 0 where
  nothing_due : Receives s [] []
  skips :
      {e : Event} {es ms : List Event}
      → (Asks e.type s.event_types → ⊥)
      → Receives s es ms
      → Receives s (e ∷ es) ms
  tells_whole :
      {e m : Event} {es ms : List Event}
      → Asks e.type s.event_types
      → s.diff ≡ true
      → m ≡ e
      → Receives s es ms
      → Receives s (e ∷ es) (m ∷ ms)
  tells_id :
      {e m : Event} {es ms : List Event} {v : Value}
      → Asks e.type s.event_types
      → s.diff ≡ false
      → m.id ≡ e.id
      → m.type ≡ e.type
      → m.content ≡ field "id" v end
      → HasId e.content v
      → Receives s es ms
      → Receives s (e ∷ es) (m ∷ ms)

abbrev pub IsServed : Option Subscriber → List Event → List Event → Type 0
IsServed none es ms = ms ≡ []
IsServed (some s) es ms = Receives s es ms

any-Asks : (t : EventType) (us : List EventType) → any (λ u. u == t) us ≡ true → Asks t us
any-Asks t [] h = cc
any-Asks t (u ∷ us) h = elim (Bool-cases (u == t)) [
  | inl same ↦ inl ((eq_iff u t).0 same)
  | inr other ↦ inr (any-Asks t us (ground (arith, h, other)))
]

any-not_Asks : (t : EventType) (us : List EventType) → any (λ u. u == t) us ≡ false → Asks t us → ⊥
any-not_Asks t [] h a = a
any-not_Asks t (u ∷ us) h (inl same) = ground (arith, h, same, eq_iff u t)
any-not_Asks t (u ∷ us) h (inr more) =
    any-not_Asks t us (ground (arith, h, Bool-cases (u == t))) more

thing_id-HasId : (td : ThingDescription) → HasId td (thing_id td)
thing_id-HasId td = go (get "id" td)
  where
    go :
        (o : Option Value)
        → (o ≡ some (elim o [ none ↦ null | some v ↦ v ]))
          ⊎ ((o ≡ none) × (elim o [ none ↦ null | some v ↦ v ] ≡ null))
    go none = inr (refl, refl)
    go (some v) = inl refl

module _ (s : Subscriber) (e : Event) where
  message-diff : s.diff ≡ true → message s e ≡ e
  message-diff d = ground (arith, d)

  message-brief :
      s.diff ≡ false → message s e ≡ record e { content = field "id" (thing_id e.content) end }
  message-brief d = ground (arith, d)

  wanted-asked :
      (es : List Event) → is_wanted s e ≡ true → wanted s (e ∷ es) ≡ message s e ∷ wanted s es
  wanted-asked es h = ground (arith, h)

  wanted-unasked : (es : List Event) → is_wanted s e ≡ false → wanted s (e ∷ es) ≡ wanted s es
  wanted-unasked es h = ground (arith, h)

  tells :
      (es ms : List Event)
      → Asks e.type s.event_types
      → Receives s es ms
      → Receives s (e ∷ es) (message s e ∷ ms)
  tells es ms asks rest = elim (Bool-cases s.diff) [
    | inl diff ↦ tells_whole asks diff (message-diff diff) rest
    | inr brief ↦
        let m = message-brief brief in
        tells_id asks brief (ap (λ n. n.id) m) (ap (λ n. n.type) m) (ap (λ n. n.content) m)
          (thing_id-HasId e.content) rest
  ]

pub wanted-Receives : (s : Subscriber) (es : List Event) → Receives s es (wanted s es)
wanted-Receives s [] = nothing_due
wanted-Receives s (e ∷ es) =
    let rest = wanted-Receives s es in
    elim (Bool-cases (is_wanted s e)) [
      | inr other ↦
          subst (Receives s (e ∷ es)) (sym (wanted-unasked s e es other))
            (skips (any-not_Asks e.type s.event_types other) rest)
      | inl wish ↦
          subst (Receives s (e ∷ es)) (sym (wanted-asked s e es wish))
            (tells s e es (wanted s es) (any-Asks e.type s.event_types wish) rest)
    ]

pub for_client-IsServed :
    (o : Option Subscriber) (es : List Event) → IsServed o es (for_client o es)
for_client-IsServed none es = refl
for_client-IsServed (some s) es = wanted-Receives s es
