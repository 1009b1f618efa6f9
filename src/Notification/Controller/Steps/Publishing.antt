-- ===== src/Notification/Controller/Steps/Publishing.antt =====
-- A run of the goroutines in which an event is published: it reaches the clients that want it, and the
-- history.
use thing_directory.Common.{
  ℕ, ◌+◌, ◌%◌, ◌<◌, ◌≤◌, ◌≡◌, refl, ap, none, some, List, [], ◌∷◌, ◌++◌, arith, All,
}
use mathlib.Core.Path.{subst}
use thing_directory.Common.Order.{bytes_order, nat_order}
use thing_directory.Common.SortedMap
use thing_directory.Json.{Bytes}
use thing_directory.Json.Print.{marshal}
use thing_directory.Json.RoundTrip.{IsMap}
use thing_directory.LevelDb.{LevelDb, IsFaultless}
use thing_directory.Libraries.{Libraries}
use thing_directory.Notification.Numbers.{uint64_mod, format_uint}
use thing_directory.Notification.Queue.{Event, event_value, LevelDbEventQueue, get_new_id}
use thing_directory.Notification.Queue.History.{Refines}
use thing_directory.Notification.Queue.Invariant.{plain_event}
use thing_directory.Notification.Queue.Appending.{recent, add_rotate-history}
use thing_directory.Notification.Controller.{Controller, Delivery}
use thing_directory.Notification.Controller.Receiving.{received, IsServed}
use thing_directory.Notification.Controller.Delivery.{handle-notifying}
use thing_directory.Notification.Controller.Steps.{
  Pc, idle, increasing, drawing, numbered, notified, update, System, Step, load, draw, read_number,
  notify, store, take, Reaches, stay, go_on,
}
use thing_directory.Notification.Controller.Steps.Soundness.{IsSound, sound-AreOpen}

update_same : {A : Type 0} (f : ℕ → A) (i : ℕ) (a : A) → update f i a i ≡ a
update_same f i a = ground arith

All-weaken : (m n : ℕ) (h : List (ℕ × Event)) → m < n → All (λ x. x.0 ≤ m) h → All (λ x. x.0 < n) h
All-weaken m n [] l a = tt
All-weaken m n (x ∷ h) l (b, a) = (omega arith, All-weaken m n h l a)

module _ (lib : Libraries) (L : LevelDb (List ℕ)) (sure : IsFaultless L) (s : System L)
    (sound : IsSound lib L s) (i : ℕ) (e : Event) (bytes : Bytes) (h : List (ℕ × Event)) where
  -- The number that is drawn, the event with it, and the queue that it was drawn from.
  abbrev next : ℕ
  next = (s.hub.queue.latest_id + 1) % uint64_mod

  abbrev numbered_event : Event
  numbered_event = record e { id = format_uint next }

  abbrev drawn : LevelDbEventQueue L
  drawn = record s.hub.queue { latest_id = next }

  abbrev increasing_now : ℕ → Pc
  increasing_now = update s.publishers i (increasing s.hub.queue.latest_id e)

  abbrev drawing_now : ℕ → Pc
  drawing_now = update increasing_now i (drawing e)

  abbrev with_number : ℕ → Pc
  with_number = update drawing_now i (numbered numbered_event)

  abbrev on_hand : System L
  on_hand = record s {
    hub = record s.hub { queue = drawn };
    notifier = some numbered_event;
    publishers = update with_number i (notified numbered_event);
  }

  hands_over :
      s.publishers i ≡ idle
      → s.notifier ≡ none
      → IsMap e.content
      → s.hub.queue.latest_id + 1 < uint64_mod
      → Reaches lib L s on_hand
  unfolding get_new_id
  hands_over at free m below =
      go_on
        (go_on
          (go_on (go_on stay (load i e at m below)) (
            draw i s.hub.queue.latest_id e
              (update_same s.publishers i (increasing s.hub.queue.latest_id e))))
          (read_number i e (update_same increasing_now i (drawing e))))
        (notify i numbered_event (update_same drawing_now i (numbered numbered_event)) free)

  -- From a sound state, over a store that does not fail and a queue that holds a history of
  -- numbered events, none above the latest number, a goroutine that is idle can publish an event,
  -- whose content is a JSON object and which is JSON once it has its id, while nothing is being
  -- handed over: there is a run after which it is idle again, each active client whose event types
  -- hold its type has been sent the event, with the number drawn, whole if it has asked for `diff`
  -- and else with the Thing Description's id alone, and nobody anything else, and the history has
  -- the event at its end, without the events that there is no room for. The numbers stay below 2 ^
  -- 64, and the capacity is not 0.
  pub publishes :
      s.publishers i ≡ idle
      → s.notifier ≡ none
      → IsMap e.content
      → s.hub.queue.latest_id + 1 < uint64_mod
      → (room : 1 ≤ s.hub.queue.capacity) (latest : next < uint64_mod)
      → Refines h (L.contents s.hub.queue.db)
      → All (λ x. x.0 ≤ s.hub.queue.latest_id) h
      → marshal lib.rfc (event_value numbered_event) ≡ some bytes
      → (t : System L) × Reaches lib L s t
        × (t.publishers i ≡ idle)
        × (t.notifier ≡ none)
        × ((ms : List Delivery) × (t.hub.sent ≡ s.hub.sent ++ ms)
            × ((client : ℕ)
                → IsServed
                    (SortedMap.lookup client s.hub.active_clients)
                    (numbered_event ∷ [])
                    (received client ms)))
        × Refines
            (recent lib L sure drawn latest room h
              ++ (next, plain_event lib.rfc numbered_event) ∷ [])
            (L.contents t.hub.queue.db)
  publishes at free m below room latest r a printed =
      let (ms, sends, gets) =
        handle-notifying lib L on_hand.hub (sound-AreOpen lib L s sound) sound.sorted
          numbered_event in
      let (p, stores, same, refines) =
        add_rotate-history lib L sure drawn latest room h numbered_event bytes r
          (All-weaken s.hub.queue.latest_id next h (omega arith) a) m printed refl in
      let sent : Controller L = record on_hand.hub { sent = s.hub.sent ++ ms } in
      let took : Step lib L on_hand (record on_hand { hub = sent; notifier = none }) =
        subst (λ c. Step lib L on_hand (record on_hand { hub = c; notifier = none }))
          (ap (λ x. x.1) sends) (take numbered_event refl) in
      (
        _,
        go_on (go_on (hands_over at free m below) took)
            (store i numbered_event p (update_same with_number i (notified numbered_event)) stores),
        update_same (update with_number i (notified numbered_event)) i idle,
        refl,
        (ms, refl, gets),
        refines,
      )
