-- ===== src/Worker/JetStream/Safety/Tests.antt =====
-- A message that one replica acknowledges; another had it too, and its acknowledgement was lost.
use ankusa.Prelude.{
  Text, List, Bytes, ◌+◌, ◌≤◌, times, go, stop, Run, none, true, false, ◌≡◌, refl, arith, [], ◌∷◌,
  All, text_eq,
}
use ankusa.Http.{answered}
use ankusa.Fixtures.{runtime}
use ankusa.Message.Keys.{idempotency_key, base_key, computed_key, replay_suffix}
use ankusa.Message.Decode.Tests.{decoder}
use ankusa.Worker.JetStream.{Delivery, World, acked, announced, remember, resolve_body, handle}
use ankusa.Worker.JetStream.Cluster.{
  StepAt, Cluster, start, turn, after_turn, publish, acknowledge, leave, Reach, here, later,
}
use ankusa.Worker.JetStream.Effects.{IsProcessed, IsDoomed}
use ankusa.Worker.JetStream.Invariant.{IsConserved, IsReported, IsCopied}
use ankusa.Worker.JetStream.Safety.{cluster_safe}
use ankusa.Worker.JetStream.Drains.{IsCalm, IsSettling}
use ankusa.Worker.JetStream.Refines.{cluster_settles}
use ankusa.Worker.JetStream.Tests.{nats, delivery, told}

abbrev stored : Cluster
stored = record start { stored = [] ∷ []; stream = [] ∷ [] }

abbrev left : Cluster
left = after_turn false 1 (turn nats delivery []) stored

abbrev acknowledged : Cluster
acknowledged = record (after_turn false 0 (turn nats delivery []) left) {
  stream = [];
  done = [] ∷ [];
}

turn-log : (turn nats delivery []).log ≡ acked ∷ announced (told false) true ∷ []
unfolding handle decoder idempotency_key base_key computed_key replay_suffix remember resolve_body
turn-log = refl

one_stored : 1 ≤ times [] stored.stored
unfolding text_eq
one_stored = omega arith

acknowledged-Reach : Reach runtime acknowledged
unfolding text_eq
acknowledged-Reach =
    later (later (later here (publish [])) (leave 1 nats delivery false refl one_stored)) (
      acknowledge 0 nats delivery [] [] false (announced (told false) true ∷ []) refl refl turn-log)

cluster_safe_example :
    IsConserved acknowledged
    × All (IsReported runtime acknowledged.ledger) acknowledged.done
    × All (IsProcessed runtime acknowledged.stored) acknowledged.ledger
    × All (IsCopied acknowledged.copies) acknowledged.dead
    × All (IsDoomed runtime acknowledged.stored) acknowledged.copies
cluster_safe_example = cluster_safe runtime acknowledged acknowledged-Reach

-- A gateway that has no claim.
abbrev forgetful : World
forgetful = record nats {
  gateway = λ r. answered (record { content = none; error = none; status = 404 });
}

forgetful-IsCalm : IsCalm forgetful
forgetful-IsCalm = record {
  announces = λ log. refl;
  copies = λ log. refl;
  serves = λ r t. absurd (ground arith);
}

cluster_settles_example :
    ((m : Delivery) (seen : List Text) → IsSettling (turn forgetful m seen).log)
    × ((d : Cluster) × Run (StepAt forgetful) left d
        × ((x : Bytes) → times x d.stored ≡ times x left.stored)
        × ((x : Bytes) → times x d.done + times x d.dead ≡ times x left.stored)
        × All (IsReported runtime d.ledger) d.done
        × All (IsCopied d.copies) d.dead)
cluster_settles_example =
    cluster_settles forgetful left
      (go (publish []) (go (leave 1 nats delivery false refl one_stored) stop)) forgetful-IsCalm
