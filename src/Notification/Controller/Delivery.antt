-- ===== src/Notification/Controller/Delivery.antt =====
-- What each client receives: the new events that it wants, and, when it subscribes, those that it has
-- missed.
use thing_directory.Common.{
  ℕ, ◌+◌, ◌<◌, ◌≡◌, refl, sym, ap, ◌∙◌, inl, inr, Bool, false, some, List, [], ◌∷◌, ◌++◌, eqb,
  eqb_iff, arith, All, if◌then◌else◌, Bool-cases, ◌==◌, eq_iff,
}
use mathlib.Core.Path.{subst}
use mathlib.Core.List.{append-nil}
use thing_directory.Common.Order.{bytes_order, nat_order}
use thing_directory.Common.SortedMap
use thing_directory.Common.SortedMap.{IsSorted, Above, lookup-Above}
use thing_directory.Errors.{ok}
use thing_directory.LevelDb.{LevelDb, IsFaultless}
use thing_directory.Libraries.{Libraries}
use thing_directory.Notification.Numbers.{uint64_mod, format_uint, parse_uint}
use thing_directory.Notification.Numbers.Laws.{parse_uint-format_uint}
use thing_directory.Notification.Queue.{Event, get_all_after}
use thing_directory.Notification.Queue.History.{Refines, after, get_all_after-history}
use thing_directory.Notification.Controller.Receiving.{
  received, wanted, for_client, IsServed, Receives, wanted-Receives, for_client-IsServed,
}
use thing_directory.Notification.Controller.{
  Subscriber, Controller, Delivery, is_wanted, message, send_to_subscriber, send_missed, broadcast,
  handle, subscribing, notifying,
}

received-append :
    (client : ℕ) (ms ns : List Delivery)
    → received client (ms ++ ns) ≡ received client ms ++ received client ns
received-append client [] ns = refl
received-append client ((c, e) ∷ ms) ns = ground (arith, received-append client ms ns)

-- Each client is registered under its own channel, which is open.
abbrev pub AreOpen : (ℕ → Bool) → List (ℕ × Subscriber) → Type 0
AreOpen closed = All (λ a. (a.1.client ≡ a.0) × (closed a.0 ≡ false))

module _ (closed : ℕ → Bool) (s : Subscriber) (opened : closed s.client ≡ false) where
  send-received :
      (e : Event)
      → (ms : List Delivery) × (send_to_subscriber closed s e ≡ ok ms)
        × ((client : ℕ)
            → received client ms ≡ (if eqb s.client client then wanted s (e ∷ []) else []))
  unfolding send_to_subscriber
  send-received e = elim (Bool-cases (is_wanted s e)) [
    | inl asked ↦
        ((s.client, message s e) ∷ [], rw (asked, opened) refl, λ client. ground (arith, asked))
    | inr unasked ↦ ([], rw unasked refl, λ client. ground (arith, unasked))
  ]

  pub send_missed-received :
      (es : List Event)
      → (ms : List Delivery) × (send_missed closed s es ≡ ok ms)
        × ((client : ℕ) → received client ms ≡ (if eqb s.client client then wanted s es else []))
  unfolding send_missed
  send_missed-received [] = ([], refl, λ client. ground arith)
  send_missed-received (e ∷ es) =
      let (first, sends_first, gets_first) = send-received e in
      let (ms, sends, gets) = send_missed-received es in
      (
        first ++ ms,
        rw (sends_first, sends) refl,
        λ client.
            received-append client first ms
            ∙ ground (arith, gets_first client, gets client, Bool-cases (is_wanted s e)),
      )

module _ (closed : ℕ → Bool) (e : Event) where
  broadcast-received :
      (active : List (ℕ × Subscriber))
      → AreOpen closed active
      → IsSorted active
      → (ms : List Delivery) × (broadcast closed active e ≡ ok ms)
        × ((client : ℕ) → received client ms ≡ for_client (SortedMap.lookup client active) (e ∷ []))
  unfolding broadcast SortedMap.lookup
  broadcast-received [] o s = ([], refl, λ client. refl)
  broadcast-received ((c, s) ∷ active) ((named, opened), o) (above, sorted) =
      let (ms, sends, gets) = broadcast-received active o sorted in
      let (first, sends_first, gets_first) = send-received closed s (rw named opened) e in
      (
        first ++ ms,
        rw (sends_first, sends) refl,
        λ client. received-append client first ms ∙ both client (gets_first client) (gets client),
      )
    where
      both :
          {first ms : List Event} (client : ℕ)
          → first ≡ (if eqb s.client client then wanted s (e ∷ []) else [])
          → ms ≡ for_client (SortedMap.lookup client active) (e ∷ [])
          → first ++ ms
            ≡ for_client (if eqb c client then some s else SortedMap.lookup client active) (e ∷ [])
      both client f g = elim (Bool-cases (eqb c client)) [
        | inl here ↦
            let gone = lookup-Above c active above in
            let same = (eqb_iff c client).0 here in
            ground (arith, f, g, here, gone, same, named, append-nil (wanted s (e ∷ [])))
        | inr there ↦ ground (arith, f, g, there, named)
      ]

format_uint-ne-nil : (m : ℕ) → m < uint64_mod → (format_uint m == "") ≡ false
unfolding parse_uint
format_uint-ne-nil m h = elim (Bool-cases (format_uint m == "")) [
  | inl empty ↦
      absurd
        (cc (sym (ap parse_uint ((eq_iff (format_uint m) "").0 empty)), parse_uint-format_uint m h))
  | inr named ↦ named
]

module _ (lib : Libraries) (L : LevelDb (List ℕ)) (c : Controller L)
    (o : AreOpen c.closed c.active_clients) (sorted : IsSorted c.active_clients) where
  -- What is sent, by the functions of the code.
  pub notifying-sends :
      (e : Event)
      → (ms : List Delivery) × (handle lib L (notifying e) c
          ≡ (ok tt, record c { sent = c.sent ++ ms }))
        × ((client : ℕ)
            → received client ms ≡ for_client (SortedMap.lookup client c.active_clients) (e ∷ []))
  unfolding handle
  notifying-sends e =
      let (ms, sends, gets) = broadcast-received c.closed e c.active_clients o sorted in
      (ms, rw sends refl, gets)

  -- If each active client is registered under its own open channel, and the clients are in order,
  -- then an event that the loop takes is sent, without a panic, just once to each active client
  -- whose event types hold its type, whole if the client has asked for `diff` and else with the
  -- number, the type and the Thing Description's id alone, and to no other channel; nothing else
  -- changes.
  pub handle-notifying :
      (e : Event)
      → (ms : List Delivery) × (handle lib L (notifying e) c
          ≡ (ok tt, record c { sent = c.sent ++ ms }))
        × ((client : ℕ)
            → IsServed (SortedMap.lookup client c.active_clients) (e ∷ []) (received client ms))
  handle-notifying e =
      let (ms, sends, gets) = notifying-sends e in
      (
        ms,
        sends,
        λ client.
            let active = SortedMap.lookup client c.active_clients in
            subst (IsServed active (e ∷ [])) (sym (gets client))
              (for_client-IsServed active (e ∷ [])),
      )

  -- If each active client is registered under its own open channel, the clients are in order, the
  -- store does not fail, and the queue holds a history of numbered events, then a subscriber with
  -- an open channel and the number of an event as its last event id is registered, and is sent just
  -- the events of the history after that number whose type is among its event types, in their
  -- order, whole if it has asked for `diff` and else with the number, the type and the Thing
  -- Description's id alone; nothing is sent to another channel. The number is below 2 ^ 64 - 1.
  pub handle-subscribing :
      (s : Subscriber) (h : List (ℕ × Event)) (m : ℕ)
      → IsFaultless L
      → Refines h (L.contents c.queue.db)
      → m + 1 < uint64_mod
      → s.last_event_id ≡ format_uint m
      → c.closed s.client ≡ false
      → (ms : List Delivery) × (handle lib L (subscribing s) c ≡ (
        ok tt,
        record c {
          active_clients = SortedMap.insert s.client s c.active_clients;
          sent = c.sent ++ ms;
        },
      ))
        × Receives s (after m h) (received s.client ms)
        × ((client : ℕ) → eqb s.client client ≡ false → received client ms ≡ [])
  unfolding handle
  handle-subscribing s h m sure r k named opened =
      let (ms, sends, gets) = send_missed-received c.closed s opened (after m h) in
      let resumes : (s.last_event_id == "") ≡ false =
        rw named (format_uint-ne-nil m (omega arith)) in
      let past : get_all_after lib L s.last_event_id c.queue ≡ ok (after m h) =
        rw named (get_all_after-history lib L sure c.queue h m r k) in
      let own : received s.client ms ≡ wanted s (after m h) =
        ground (arith, gets s.client, eqb_iff s.client s.client) in
      (
        ms,
        rw (resumes, past, sends) refl,
        subst (Receives s (after m h)) (sym own) (wanted-Receives s (after m h)),
        λ client other. ground (arith, gets client, other),
      )
