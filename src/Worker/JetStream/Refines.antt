-- ===== src/Worker/JetStream/Refines.antt =====
-- The replicas of examples/jetstream-k8s and their stream, as a broker.
use ankusa.Prelude.{
  Run-keeps, Run-append, List, [], All, Run, ◌+◌, ◌≡◌, refl, ap, arith, Bytes, Text, times,
  times_middle,
}
use ankusa.Runtime.{Runtime}
use ankusa.Worker.JetStream.{Delivery, World}
use ankusa.Worker.JetStream.Cluster.{
  Cluster, start, Step, StepAt, turn, publish, acknowledge, terminate, leave, restart, Reach, here,
  later,
}
use ankusa.Worker.JetStream.Invariant.{IsReported, IsCopied}
use ankusa.Worker.JetStream.Safety.{cluster_safe}
use ankusa.Worker.JetStream.Drains.{IsCalm, IsSettling, handle-IsSettling, cluster_drains}
use ankusa.Worker.Broker.{Bag, Change, arrives, settles, stays, Broker}
use ankusa.Worker.Broker.Client.{all_settled, served_run}

-- A message that is acknowledged or terminated is settled.
abbrev pub bag_of : Cluster → Bag
bag_of c = record {
  published = λ x. times x c.stored;
  pending = λ x. times x c.stream;
  settled = λ x. times x c.done + times x c.dead;
}

-- Each step of the replicas is, for the bag of the messages, the arrival of one message in the stream,
-- the settlement of one that was there, or nothing.
pub cluster_refines : (rt : Runtime) (c d : Cluster) → Step rt c d → Change (bag_of c) (bag_of d)
cluster_refines rt c d (publish m) = arrives m (λ x. omega arith) (λ x. omega arith) (λ x. refl)
cluster_refines rt c d (acknowledge i w m xs ys reached before same from log) =
    settles m.content (λ x. refl)
      (λ x. omega (arith, ap (times x) from, times_middle x m.content xs ys)) (λ x. omega arith)
cluster_refines rt c d (terminate i w m xs ys reached f before same from log) =
    settles m.content (λ x. refl)
      (λ x. omega (arith, ap (times x) from, times_middle x m.content xs ys)) (λ x. omega arith)
cluster_refines rt c d (leave i w m reached same stored) = stays (λ x. refl) (λ x. refl) (λ x. refl)
cluster_refines rt c d (restart i) = stays (λ x. refl) (λ x. refl) (λ x. refl)

-- It is served when NATS answers and the gateway is not busy.
abbrev pub jetstream : World → Broker
jetstream w = record {
  State = Cluster;
  Step = Step w.rt;
  start = start;
  Serving = StepAt w;
  serves = λ c d s. s.0;
  bag = bag_of;
  IsServed = λ c. IsCalm w;
  empty = λ x. (refl, refl, refl);
  refines = cluster_refines w.rt;
  drains = λ c reached calm.
      let (d, run, none_left, same) = cluster_drains w calm c in
      (d, run, λ x. ap (times x) none_left, λ x. ap (times x) same);
}

-- From every state that the replicas come to, whatever happened on the way, and for all answers of
-- NATS and the gateway such that NATS takes each request and the gateway never answers that it is to be
-- asked again: a replica's turn at any delivery, with these answers and any memory, ends with an
-- acknowledgement or a termination; and there are steps of replicas that all get these answers, with
-- nothing published and no replica started, after which each message is acknowledged or terminated, as
-- often as it was published before. Then the panel's ledger has the key of each acknowledged message,
-- and the dead-letter stream a copy of each terminated one.
pub cluster_settles :
    (w : World) (c : Cluster)
    → Run (Step w.rt) start c
    → IsCalm w
    → ((m : Delivery) (seen : List Text) → IsSettling (turn w m seen).log)
      × ((d : Cluster) × Run (StepAt w) c d
          × ((x : Bytes) → times x d.stored ≡ times x c.stored)
          × ((x : Bytes) → times x d.done + times x d.dead ≡ times x c.stored)
          × All (IsReported w.rt d.ledger) d.done
          × All (IsCopied d.copies) d.dead)
cluster_settles w c before calm =
    let (d, run, same, settled) = all_settled (jetstream w) c before calm in
    let reached : Reach w.rt d =
      Run-keeps (Step w.rt) (Reach w.rt) (λ a b s r. later r s) start d
        (Run-append (Step w.rt) start c d before (served_run (jetstream w) c d run)) here in
    let (conserved, reported, processed, copied, doomed) = cluster_safe w.rt d reached in
    (
      λ m seen. handle-IsSettling w calm m (record { seen = seen; log = [] }),
      (d, run, same, settled, reported, copied),
    )
