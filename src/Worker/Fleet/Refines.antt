-- ===== src/Worker/Fleet/Refines.antt =====
-- The consumer of examples/fleet-e2e, its queue and its table, as a broker.
use ankusa.Prelude.{
  Run, Run-keeps, Run-append, ◌+◌, ◌≤◌, refl, ap, arith, [], ◌∷◌, ◌++◌, Bytes, All, length, times,
  times-append, times_middle,
}
use ankusa.Http.{Gateway}
use ankusa.Worker.Fleet.{World}
use ankusa.Worker.Fleet.System.{
  Fleet, start, Step, StepAt, publish, deliver, store, store_unanswered, acknowledge, reject,
  requeue, restart, Reach, here, later,
}
use ankusa.Worker.Fleet.Safety.{Reach-IsSafe}
use ankusa.Worker.Fleet.Room.{HasRoom}
use ankusa.Worker.Fleet.Drains.{IsReady, fleet_drains}
use ankusa.Worker.Broker.Client.{balanced, settled_grows}
use ankusa.Worker.Broker.{Bag, Change, arrives, settles, stays, Broker}

-- A message that is queued, in flight or written and not acknowledged is pending; one that is
-- acknowledged or rejected is settled.
abbrev pub bag_of : Fleet → Bag
bag_of f = record {
  published = λ x. times x f.published;
  pending = λ x. times x f.queue + times x f.flight + times x f.stored;
  settled = λ x. times x f.acked + times x f.dead;
}

module _ (w : World) where
  -- Each step of the consumer is, for the bag of the messages, the arrival of one message in the queue,
  -- the settlement of one that was pending, or nothing: a delivery, a row that is written, a message that
  -- is put back and a consumer that is killed leave the bag as it is.
  pub fleet_refines : (f g : Fleet) → Step w f g → Change (bag_of f) (bag_of g)
  fleet_refines f g (publish m) =
      arrives m (λ x. omega arith) (λ x. omega (arith, times-append x f.queue (m ∷ []))) (λ x. refl)
  fleet_refines f g (deliver m rest e few) =
      stays (λ x. refl) (λ x. omega (arith, ap (times x) e)) (λ x. refl)
  fleet_refines f g (store m xs ys gateway e t from got up) =
      stays (λ x. refl) (λ x. omega (arith, ap (times x) from, times_middle x m xs ys)) (λ x. refl)
  fleet_refines f g (store_unanswered m xs ys gateway e t from got up) =
      stays (λ x. refl)
        (λ x.
          omega (arith, ap (times x) from, times_middle x m xs ys, times-append x f.queue (m ∷ [])))
        (λ x. refl)
  fleet_refines f g (acknowledge m xs ys from) =
      settles m (λ x. refl) (λ x. omega (arith, ap (times x) from, times_middle x m xs ys))
        (λ x. omega arith)
  fleet_refines f g (reject m xs ys gateway from refused) =
      settles m (λ x. refl) (λ x. omega (arith, ap (times x) from, times_middle x m xs ys))
        (λ x. omega arith)
  fleet_refines f g (requeue m xs ys gateway from again) =
      stays (λ x. refl)
        (λ x.
          omega (arith, ap (times x) from, times_middle x m xs ys, times-append x f.queue (m ∷ [])))
        (λ x. refl)
  fleet_refines f g restart =
      stays (λ x. refl)
        (λ x.
          omega (
            arith,
            times-append x (f.flight ++ f.stored) f.queue,
            times-append x f.flight f.stored,
          ))
        (λ x. refl)

  pub Run-Reach : (f g : Fleet) → Run (Step w) f g → Reach w f → Reach w g
  Run-Reach = Run-keeps (Step w) (Reach w) (λ a b s r. later r s)

  -- The bodies are to be had, and the rows can count.
  abbrev pub IsAtHand : Gateway Bytes → Fleet → Type 0
  IsAtHand g f =
      HasRoom (length f.flight + length f.queue) f.table
      × All (IsReady w g) f.flight
      × All (IsReady w g) f.queue

  abbrev pub fleet : Gateway Bytes → Broker
  fleet g = record {
    State = Fleet;
    Step = Step w;
    start = start;
    Serving = StepAt w g;
    serves = λ f h s. s.0;
    bag = bag_of;
    IsServed = IsAtHand g;
    empty = λ x. (refl, refl, refl);
    refines = fleet_refines;
    drains = λ f run (room, flying, queued).
        let reached : Reach w f = Run-Reach start f run here in
        let (h, on, same, all) = fleet_drains w g f reached room flying queued in
        let (conserved, within, kept, refused) =
          Reach-IsSafe w h
            (Run-keeps (StepAt w g) (Reach w) (λ a b s r. later r s.0) f h on reached) in
        (h, on, λ x. omega (arith, conserved x, all x), λ x. ap (times x) same);
  }

  -- Between any two states that the consumer comes to one after the other, what was acknowledged or
  -- rejected stays so, as often as it was; and no message is so more often than it was published.
  pub fleet_settled_grows :
      (g : Gateway Bytes) (e f : Fleet)
      → Run (Step w) start e
      → Run (Step w) e f
      → (x : Bytes)
      → (times x e.acked + times x e.dead ≤ times x f.acked + times x f.dead)
        × (times x f.acked + times x f.dead ≤ times x f.published)
  fleet_settled_grows g e f before run x = (
    settled_grows (fleet g) e f run x,
    omega (arith, balanced (fleet g) f (Run-append (Step w) start e f before run) x),
  )
