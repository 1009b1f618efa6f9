-- ===== src/Notification/Controller/Steps/Safety.antt =====
-- Every state that can be reached meets the invariant, and no message makes the loop of `handler` panic.
use thing_directory.Common.{ℕ, ◌≡◌, refl, ap, true, some, List, ◌++◌, arith}
use thing_directory.Common.Order.{bytes_order, nat_order}
use thing_directory.Errors.{ok}
use thing_directory.LevelDb.{LevelDb}
use thing_directory.Libraries.{Libraries}
use thing_directory.Notification.Queue.{LevelDbEventQueue}
use thing_directory.Notification.Queue.Invariant.{
  IsQueue, IsBounded, IsQueue-IsBounded, add_rotate-IsBounded,
}
use thing_directory.Notification.Controller.{Message, handle, subscribing, unsubscribing, notifying}
use thing_directory.Notification.Controller.Delivery.{notifying-sends}
use thing_directory.Notification.Controller.Steps.{
  System, new_controller, Step, load, draw, read_number, notify, store, store_fails, take, join,
  leave, Reaches, stay, go_on,
}
use thing_directory.Notification.Controller.Steps.Soundness.{
  IsPending, IsSound, sound-AreOpen, joined, left,
}
use thing_directory.Notification.Controller.Steps.Preservation.{
  load-IsSound, draw-IsSound, read_number-IsSound, notify-IsSound, done-IsSound, take-IsSound,
  join-IsSound, leave-IsSound,
}

module _ (lib : Libraries) (L : LevelDb (List ℕ)) where
  pub new_controller-IsSound :
      (q : LevelDbEventQueue L) → IsQueue L q → IsSound lib L (new_controller q)
  new_controller-IsSound q h = record {
    top = q.latest_id;
    queue = IsQueue-IsBounded L q h;
    active = tt;
    sorted = tt;
    opened = λ c live. absurd (cc live);
    fresh = λ c above. refl;
    pending = λ e at. absurd (cc at);
    publishing = λ i. tt;
  }

  Step-IsSound : {s t : System L} → Step lib L s t → IsSound lib L s → IsSound lib L t
  Step-IsSound {s} (load i e at m below) h = load-IsSound lib L s h i e m below
  Step-IsSound {s} (draw i k e at) h = draw-IsSound lib L s h i k e at
  Step-IsSound {s} (read_number i e at) h = read_number-IsSound lib L s h i e at
  Step-IsSound {s} (notify i e at free) h = notify-IsSound lib L s h i e at
  Step-IsSound {s} (store i e q at r) h =
      let now : IsPending h.top e = rw at at (h.publishing i) in
      let (m, numbered_so) = now in
      done-IsSound lib L s h i q
        (add_rotate-IsBounded lib L h.top s.hub.queue q e h.queue m numbered_so r)
  Step-IsSound {s} (store_fails i e at fails) h = done-IsSound lib L s h i s.hub.queue h.queue
  Step-IsSound {s} (take e at) h =
      let (ms, sends, gets) = notifying-sends lib L s.hub (sound-AreOpen lib L s h) h.sorted e in
      rw (ap (λ x. x.1) sends) (take-IsSound lib L s h (s.hub.sent ++ ms))
  Step-IsSound {s} (join r new) h =
      let (ms, registers) = joined lib L r s.hub (rw new (h.fresh s.next_client (omega arith))) in
      rw (ap (λ x. x.1) registers) (join-IsSound lib L s h r (s.hub.sent ++ ms) new)
  Step-IsSound {s} (leave c live) h =
      rw (ap (λ x. x.1) (left lib L c s.hub (h.opened c live).0)) (leave-IsSound lib L s h c live)

  pub Reaches-IsSound : {s t : System L} → Reaches lib L s t → IsSound lib L s → IsSound lib L t
  Reaches-IsSound stay h = h
  Reaches-IsSound (go_on steps step) h = Step-IsSound step (Reaches-IsSound steps h)

  -- The messages that can come to the loop in a state.
  abbrev pub IsComing : System L → Message → Type 0
  IsComing s (subscribing r) = r.client ≡ s.next_client
  IsComing s (unsubscribing c) = s.connected c ≡ true
  IsComing s (notifying e) = s.notifier ≡ some e

  handle_sound :
      (s : System L) (m : Message)
      → IsSound lib L s
      → IsComing s m
      → (handle lib L m s.hub).0 ≡ ok tt
  handle_sound s (subscribing r) h new =
      ap (λ x. x.0) (joined lib L r s.hub (rw new (h.fresh s.next_client (omega arith)))).1
  handle_sound s (unsubscribing c) h live = ap (λ x. x.0) (left lib L c s.hub (h.opened c live).0)
  handle_sound s (notifying e) h at =
      let (ms, sends, gets) = notifying-sends lib L s.hub (sound-AreOpen lib L s h) h.sorted e in
      ap (λ x. x.0) sends

  -- From a new controller over a sound queue, and along any interleaving of the goroutines that
  -- publish, which may overwrite each other's increments of the latest number, of the loop of
  -- `handler`, and of SSE handlers that subscribe new channels and leave each at most once, the
  -- loop can take each message that can come next without a panic: it sends on no closed channel
  -- and closes none twice. The published contents are JSON objects, and no number above 2 ^ 64 - 1
  -- is drawn.
  pub handle-returns :
      (q : LevelDbEventQueue L) {s : System L} (m : Message)
      → IsQueue L q
      → Reaches lib L (new_controller q) s
      → IsComing s m
      → (handle lib L m s.hub).0 ≡ ok tt
  handle-returns q {s} m h steps coming =
      handle_sound s m (Reaches-IsSound steps (new_controller-IsSound q h)) coming

  -- Along any interleaving of the goroutines that publish JSON objects, which may overwrite each
  -- other's increments of the latest number, of the loop of `handler` and of the SSE handlers, in
  -- which each `addRotate` is one step and no number above 2 ^ 64 - 1 is drawn, and from a queue
  -- that is sound at first, each stored entry is an event whose id is its number in hexadecimal,
  -- and there is a number below 2 ^ 64 that the latest number and the number of each entry do not
  -- exceed.
  pub Reaches-IsBounded :
      (q : LevelDbEventQueue L) {s : System L}
      → IsQueue L q
      → Reaches lib L (new_controller q) s
      → (top : ℕ) × IsBounded L top s.hub.queue
  Reaches-IsBounded q h steps =
      let sound = Reaches-IsSound steps (new_controller-IsSound q h) in (sound.top, sound.queue)
