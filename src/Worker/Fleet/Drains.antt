-- ===== src/Worker/Fleet/Drains.antt =====
-- How the fleet consumer comes to the end of its queue, once bodies are to be had and rows can be written.
use ankusa.Prelude.{
  Run, stop, go, Run-append, Run-keeps, ℕ, suc, ◌+◌, ◌<◌, ◌≡◌, ◌⊎◌, inl, inr, refl, ap, ◌∙◌, subst,
  arith, List, [], ◌∷◌, Bytes, All, length, times, ok,
}
use ankusa.Http.{Gateway}
use ankusa.Worker.Rabbit.{rejected, settlement_of}
use ankusa.Worker.Fleet.{World, Entry, read}
use ankusa.Worker.Fleet.Room.{HasRoom, HasRoom-same, fewer, upsert-HasRoom}
use ankusa.Worker.Fleet.System.{
  prefetch, Fleet, at, StepAt, deliver, store, acknowledge, reject, Reach, later,
}
use ankusa.Worker.Fleet.Safety.{IsConserved, Reach-IsSafe}

module _ (w : World) where
  -- The message's row is to be had, or it is refused for good.
  abbrev pub IsReady : Gateway Bytes → Bytes → Type 0
  IsReady g m =
      ((e : Entry) × (read (at w g) m ≡ ok e)) ⊎ (settlement_of (read (at w g) m) ≡ rejected)

  module _ (g : Gateway Bytes) where
    -- Messages are done with, and the queue is as it was.
    record IsPast (f h : Fleet) (flight : List Bytes) (n : ℕ) : Type 0 where
      run : Run (StepAt w g) f h
      left : h.flight ≡ flight
      settled : h.stored ≡ []
      queued : h.queue ≡ f.queue
      same : h.published ≡ f.published
      room : HasRoom n h.table

    acknowledge_all :
        (ms : List Bytes) (f : Fleet) (n : ℕ)
        → f.stored ≡ ms
        → HasRoom n f.table
        → (h : Fleet) × IsPast f h f.flight n
    acknowledge_all [] f n e room = (
      f,
      record { run = stop; left = refl; settled = e; queued = refl; same = refl; room = room },
    )
    acknowledge_all (m ∷ ms) f n e room =
        let next : Fleet = record f { stored = ms; acked = m ∷ f.acked } in
        let (h, past) = acknowledge_all ms next n refl room in
        (
          h,
          record {
            run = go (acknowledge m [] ms e, tt) past.run;
            left = past.left;
            settled = past.settled;
            queued = past.queued;
            same = past.same;
            room = past.room;
          },
        )

    finish_one :
        (f : Fleet) (m : Bytes) (ms : List Bytes) (n : ℕ)
        → f.flight ≡ m ∷ ms
        → f.stored ≡ []
        → HasRoom (suc n) f.table
        → IsReady g m
        → (h : Fleet) × IsPast f h ms n
    finish_one f m ms n e none_stored room (inl (entry, got)) =
        let (t, taken, rows) = upsert-HasRoom n entry f.table room in
        (
          _,
          record {
            run =
                go (store m [] ms g entry t e got taken, refl)
                  (go (acknowledge m [] f.stored refl, tt) stop);
            left = refl;
            settled = none_stored;
            queued = refl;
            same = refl;
            room = record { new = omega (arith, room.new); rows = rows };
          },
        )
    finish_one f m ms n e none_stored room (inr refused) = (
      _,
      record {
        run = go (reject m [] ms g e refused, refl) stop;
        left = refl;
        settled = none_stored;
        queued = refl;
        same = refl;
        room = record { new = omega (arith, room.new); rows = fewer n f.table room.rows };
      },
    )

    finish_all :
        (ms : List Bytes) (f : Fleet) (n : ℕ)
        → f.flight ≡ ms
        → f.stored ≡ []
        → HasRoom (length ms + n) f.table
        → All (IsReady g) ms
        → (h : Fleet) × IsPast f h [] n
    finish_all [] f n e none_stored room ready = (
      f,
      record {
        run = stop;
        left = e;
        settled = none_stored;
        queued = refl;
        same = refl;
        room = HasRoom-same (0 + n) n f.table (omega arith) room;
      },
    )
    finish_all (m ∷ ms) f n e none_stored room (first, ready) =
        let (k, one) =
          finish_one f m ms (length ms + n) e none_stored
            (HasRoom-same (suc (length ms) + n) (suc (length ms + n)) f.table (omega arith) room)
            first in
        let (h, past) = finish_all ms k n one.left one.settled one.room ready in
        (
          h,
          record {
            run = Run-append (StepAt w g) f k h one.run past.run;
            left = past.left;
            settled = past.settled;
            queued = past.queued ∙ one.queued;
            same = past.same ∙ one.same;
            room = past.room;
          },
        )

    -- The queue, from a state where nothing else is under way.
    empty_queue :
        (ms : List Bytes) (f : Fleet) (n : ℕ)
        → f.queue ≡ ms
        → f.flight ≡ []
        → f.stored ≡ []
        → HasRoom (length ms + n) f.table
        → All (IsReady g) ms
        → (h : Fleet) × Run (StepAt w g) f h
          × (h.queue ≡ [])
          × (h.flight ≡ [])
          × (h.stored ≡ [])
          × (h.published ≡ f.published)
    empty_queue [] f n e idle none_stored room ready = (f, stop, e, idle, none_stored, refl)
    empty_queue (m ∷ ms) f n e idle none_stored room (first, ready) =
        let next : Fleet = record f { queue = ms; flight = m ∷ f.flight } in
        let free : length f.flight + length f.stored < prefetch =
          omega (arith, ap length idle, ap length none_stored) in
        let (k, one) =
          finish_one next m [] (length ms + n) (ap (λ x. m ∷ x) idle) none_stored
            (HasRoom-same (suc (length ms) + n) (suc (length ms + n)) f.table (omega arith) room)
            first in
        let (h, run, queue, flight, stored, same) =
          empty_queue ms k n one.queued one.left one.settled one.room ready in
        (
          h,
          go (deliver m ms e free, tt) (Run-append (StepAt w g) next k h one.run run),
          queue,
          flight,
          stored,
          same ∙ one.same,
        )

    -- From every reachable state, and for a gateway that answers each request in one way: if the body of
    -- each message that is in the queue or in flight is to be had from it, with values for the row that
    -- the database can store and no NULL where none may be, or the message is refused for good, and each
    -- row can count that many more deliveries, there are steps, with this gateway wherever a body is
    -- fetched, after which every message that was published is acknowledged or rejected, as often as it
    -- was published; in them nothing is published or put back, and the consumer is not killed.
    pub fleet_drains :
        (f : Fleet)
        → Reach w f
        → HasRoom (length f.flight + length f.queue) f.table
        → All (IsReady g) f.flight
        → All (IsReady g) f.queue
        → (h : Fleet) × Run (StepAt w g) f h
          × (h.published ≡ f.published)
          × ((m : Bytes) → times m h.published ≡ times m h.acked + times m h.dead)
    fleet_drains f reached room flying queued =
        let (a, acked) = acknowledge_all f.stored f (length f.flight + length f.queue) refl room in
        let (b, done) =
          finish_all f.flight a (length f.queue) acked.left acked.settled acked.room flying in
        let (h, run, queue, flight, stored, same) =
          empty_queue f.queue b 0 (done.queued ∙ acked.queued) done.left done.settled
            (subst (λ n. HasRoom n b.table) (omega arith) done.room) queued in
        let whole : Run (StepAt w g) f h =
          Run-append (StepAt w g) f a h acked.run (Run-append (StepAt w g) a b h done.run run) in
        let conserved : IsConserved h =
          (Reach-IsSafe w h
            (Run-keeps (StepAt w g) (Reach w) (λ a b s r. later r s.0) f h whole reached)).0 in
        (
          h,
          whole,
          same ∙ (done.same ∙ acked.same),
          λ m.
              omega
                (arith, conserved m, ap (times m) queue, ap (times m) flight, ap (times m) stored),
        )
