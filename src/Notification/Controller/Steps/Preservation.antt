-- ===== src/Notification/Controller/Steps/Preservation.antt =====
-- Each change that a step makes keeps the invariant of the goroutines around the controller.
use thing_directory.Common.{
  Bool-cases, inl, inr, ltb, ltb→lt, ℕ, ◌+◌, ◌<◌, ◌≤◌, ◌≡◌, refl, true, false, none, some, List,
  arith,
}
use mathlib.Core.Path.{subst}
use thing_directory.Common.Order.{bytes_order, nat_order}
use thing_directory.Common.SortedMap
use thing_directory.Common.SortedMap.{
  IsSorted, All-insert, All-erase, insert-IsSorted, erase-IsSorted,
}
use thing_directory.Json.RoundTrip.{IsMap}
use thing_directory.LevelDb.{LevelDb}
use thing_directory.Libraries.{Libraries}
use thing_directory.Notification.Numbers.{uint64_mod, format_uint}
use thing_directory.Notification.Queue.{Event, LevelDbEventQueue, get_new_id}
use thing_directory.Notification.Queue.Invariant.{IsBounded, All-weaken}
use thing_directory.Notification.Controller.{Subscriber, Delivery, close_channel}
use thing_directory.Notification.Controller.Steps.{
  idle, increasing, drawing, numbered, notified, update, System, with_queue,
}
use thing_directory.Notification.Controller.Steps.Soundness.{
  IsPending, IsPublishing, IsActive, update-all, join-IsActive, leave-IsActive, some-injective,
  IsPending-weaken, IsPublishing-weaken, IsSound,
}

module _ (lib : Libraries) (L : LevelDb (List ℕ)) where
  module _ (s : System L) (h : IsSound lib L s) where
    pub load-IsSound :
        (i : ℕ) (e : Event)
        → IsMap e.content
        → s.hub.queue.latest_id + 1 < uint64_mod
        → IsSound lib L
            (record s { publishers = update s.publishers i (increasing s.hub.queue.latest_id e) })
    load-IsSound i e m below = record {
      top = h.top;
      queue = h.queue;
      active = h.active;
      sorted = h.sorted;
      opened = h.opened;
      fresh = h.fresh;
      pending = h.pending;
      publishing = update-all (IsPublishing h.top) s.publishers i _ (m, below) h.publishing;
    }

    -- With any number that is at least those that have been drawn, the new one included.
    drawn-IsSound :
        (i k top : ℕ) (e : Event)
        → IsMap e.content
        → k + 1 ≤ top
        → h.top ≤ top
        → top < uint64_mod
        → k + 1 < uint64_mod
        → IsSound lib L (record s {
          hub = with_queue lib L s (get_new_id lib L (record s.hub.queue { latest_id = k })).1;
          publishers = update s.publishers i (drawing e);
        })
    unfolding get_new_id
    drawn-IsSound i k top e m own more bounded below = record {
      top = top;
      queue = record {
        latest = omega arith;
        bounded = bounded;
        each = All-weaken lib L h.top top (L.contents s.hub.queue.db) more h.queue.each;
      };
      active = h.active;
      sorted = h.sorted;
      opened = h.opened;
      fresh = h.fresh;
      pending = λ f at. IsPending-weaken h.top top f more (h.pending f at);
      publishing =
          update-all (IsPublishing top) s.publishers i (drawing e) m
            (λ j. IsPublishing-weaken h.top top (s.publishers j) more (h.publishing j));
    }

    pub draw-IsSound :
        (i k : ℕ) (e : Event)
        → s.publishers i ≡ increasing k e
        → IsSound lib L (record s {
          hub = with_queue lib L s (get_new_id lib L (record s.hub.queue { latest_id = k })).1;
          publishers = update s.publishers i (drawing e);
        })
    draw-IsSound i k e at =
        let now : IsPublishing h.top (increasing k e) = rw at at (h.publishing i) in
        let (m, below) = now in
        elim (Bool-cases (ltb k h.top)) [
          | inl old ↦
              drawn-IsSound i k h.top e m (ground (arith, ltb→lt k h.top old)) (omega arith)
                h.queue.bounded below
          | inr new ↦ drawn-IsSound i k (k + 1) e m (omega arith) (ground (arith, new)) below below
        ]

    pub read_number-IsSound :
        (i : ℕ) (e : Event)
        → s.publishers i ≡ drawing e
        → IsSound lib L (record s {
          publishers =
              update s.publishers i
                (numbered (record e { id = format_uint s.hub.queue.latest_id }));
        })
    read_number-IsSound i e at = record {
      top = h.top;
      queue = h.queue;
      active = h.active;
      sorted = h.sorted;
      opened = h.opened;
      fresh = h.fresh;
      pending = h.pending;
      publishing =
          update-all (IsPublishing h.top) s.publishers i _
            (rw at at (h.publishing i), (s.hub.queue.latest_id, h.queue.latest, refl)) h.publishing;
    }

    pub notify-IsSound :
        (i : ℕ) (e : Event)
        → s.publishers i ≡ numbered e
        → IsSound lib L
            (record s { notifier = some e; publishers = update s.publishers i (notified e) })
    notify-IsSound i e at =
        let now : IsPending h.top e = rw at at (h.publishing i) in
        record {
          top = h.top;
          queue = h.queue;
          active = h.active;
          sorted = h.sorted;
          opened = h.opened;
          fresh = h.fresh;
          pending = λ f same. subst (IsPending h.top) (some-injective e f same) now;
          publishing = update-all (IsPublishing h.top) s.publishers i (notified e) now h.publishing;
        }

    -- Behind `addRotate`, which has or has not written.
    pub done-IsSound :
        (i : ℕ) (q : LevelDbEventQueue L)
        → IsBounded L h.top q
        → IsSound lib L
            (record s { hub = with_queue lib L s q; publishers = update s.publishers i idle })
    done-IsSound i q sound = record {
      top = h.top;
      queue = sound;
      active = h.active;
      sorted = h.sorted;
      opened = h.opened;
      fresh = h.fresh;
      pending = h.pending;
      publishing = update-all (IsPublishing h.top) s.publishers i idle tt h.publishing;
    }

    -- Behind a round of `handler` that has sent some messages.
    pub take-IsSound :
        (ms : List Delivery)
        → IsSound lib L (record s { hub = record s.hub { sent = ms }; notifier = none })
    take-IsSound ms = record {
      top = h.top;
      queue = h.queue;
      active = h.active;
      sorted = h.sorted;
      opened = h.opened;
      fresh = h.fresh;
      pending = λ f at. absurd (cc);
      publishing = h.publishing;
    }

    pub join-IsSound :
        (r : Subscriber) (ms : List Delivery)
        → r.client ≡ s.next_client
        → IsSound lib L (record s {
          hub = record s.hub {
            active_clients = SortedMap.insert r.client r s.hub.active_clients;
            sent = ms;
          };
          connected = update s.connected r.client true;
          next_client = s.next_client + 1;
        })
    join-IsSound r ms new = record {
      top = h.top;
      queue = h.queue;
      active =
          All-insert (IsActive (update s.connected r.client true)) r.client r s.hub.active_clients
            (refl, ground arith) (join-IsActive s.connected r.client s.hub.active_clients h.active);
      sorted = insert-IsSorted r.client r s.hub.active_clients h.sorted;
      opened = λ c live. ground (arith, new, h.fresh s.next_client, h.opened c);
      fresh = λ c above. h.fresh c (omega arith);
      pending = h.pending;
      publishing = h.publishing;
    }

    pub leave-IsSound :
        (client : ℕ)
        → s.connected client ≡ true
        → IsSound lib L (record s {
          hub = record s.hub {
            active_clients = SortedMap.erase client s.hub.active_clients;
            closed = close_channel client s.hub.closed;
          };
          connected = update s.connected client false;
        })
    leave-IsSound client live = record {
      top = h.top;
      queue = h.queue;
      active = leave-IsActive s.connected client s.hub.active_clients h.active;
      sorted = erase-IsSorted client s.hub.active_clients h.sorted;
      opened = λ c still. ground (arith, h.opened c);
      fresh = λ c above. ground (arith, h.fresh c, h.opened client live);
      pending = h.pending;
      publishing = h.publishing;
    }
