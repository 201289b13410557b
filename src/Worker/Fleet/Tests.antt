-- ===== src/Worker/Fleet/Tests.antt =====
-- One message, written and acknowledged.
use ankusa.Prelude.{
  not, any, ◌++◌, Run, inl, times, true, leb, none, ℕ, ◌+◌, ◌≤◌, ◌≡◌, refl, arith, Bool, Option,
  some, none, [], ◌∷◌, Bytes, All, codes, length, text_eq, ok, eqb,
}
use ankusa.Json.{Json, str, obj, Props, end, prop, get}
use ankusa.Http.{failed}
use ankusa.Fixtures.{runtime, digest}
use ankusa.Worker.Rabbit.{decode}
use ankusa.Worker.Rabbit
use ankusa.Worker.Rabbit.Tests.{reader}
use ankusa.Worker.Fleet.{World, Entry, read, new_row, upsert, bump}
use ankusa.Worker.Amqp.{consuming, start}
use ankusa.Worker.Fleet.Main.{run_consumer}
use ankusa.Worker.Fleet.Connect.{connect_from, connected, connect}
use ankusa.Worker.Fleet.Table.{Represents}
use ankusa.Worker.Fleet.System.{
  StepAt, prefetch, Fleet, publish, deliver, store, acknowledge, Reach, here, later,
}
use ankusa.Worker.Fleet.System
use ankusa.Worker.Fleet.Drains.{fleet_drains}
use ankusa.Worker.Fleet.Safety.{IsConserved, IsKept, IsRefused, Reach-IsSafe, Reach-Represents}

abbrev raw_keyed : Props
raw_keyed =
    prop "id" (str (codes "01a0"))
      (prop "source_id" (str (codes "demo")) (prop "body_base64" (str (codes "aGk=")) end))

abbrev text_param : Json → Option Bytes
text_param (str t) = some t
text_param _ = none

abbrev world : World
world = record {
  reader = record reader { rt = record runtime { parse_json = λ t. some (obj raw_keyed) } };
  param = text_param;
  can_hold = λ e. not (any (eqb 0) (e.key ++ e.ankusa_id));
}

abbrev entry : Entry
entry = record {
  key = codes "01a0";
  ankusa_id = codes "01a0";
  source_id = codes "demo";
  tenant_id = none;
  body = codes "hi";
  body_sha256 = digest;
  via = codes "inline";
}

read_raw_keyed : read world [] ≡ ok entry
unfolding read decode get Rabbit.resolve_body
read_raw_keyed = refl

-- A second delivery of the hook is counted, and its id is not added again.
upsert_twice :
    upsert entry ((codes "01a0", new_row entry) ∷ [])
    ≡ some ((codes "01a0", record (new_row entry) { deliveries = 2 }) ∷ [])
unfolding upsert bump text_eq
upsert_twice = refl

abbrev settled : Fleet
settled = record {
  published = [] ∷ [];
  queue = [];
  flight = [];
  stored = [];
  acked = [] ∷ [];
  dead = [];
  table = (codes "01a0", new_row entry) ∷ [];
  log = entry ∷ [];
}

Reach-settled : Reach world settled
unfolding upsert
Reach-settled =
    later
      (later (later (later here (publish [])) (deliver [] [] refl (omega arith))) (
        store [] [] [] (λ r. failed) entry ((codes "01a0", new_row entry) ∷ []) refl read_raw_keyed
          refl))
      (acknowledge [] [] [] refl)

Reach-IsSafe_example :
    IsConserved settled
    × (length settled.flight + length settled.stored ≤ prefetch)
    × All (IsKept world settled.table) settled.acked
    × All (IsRefused world) settled.dead
Reach-IsSafe_example = Reach-IsSafe world settled Reach-settled

Reach-Represents_example : Represents settled.table settled.log
Reach-Represents_example = Reach-Represents world settled Reach-settled

abbrev third_time : ℕ → Bool
third_time n = eqb n 3

connect_third : connect third_time ≡ some (connected 3)
unfolding connect
connect_third = refl

-- RabbitMQ is there at the third attempt.
run_late : run_consumer (λ n. leb 3 n) (λ done a. true) (λ name. none) ≡ some consuming
unfolding connect connect_from start
run_late = refl

abbrev queued : Fleet
queued = record System.start { published = [] ∷ []; queue = [] ∷ [] }

queued-Reach : Reach world queued
queued-Reach = later here (publish [])

fleet_drains_example :
    (h : Fleet) × Run (StepAt world (λ r. failed)) queued h
    × (h.published ≡ queued.published)
    × ((m : Bytes) → times m h.published ≡ times m h.acked + times m h.dead)
fleet_drains_example =
    fleet_drains world (λ r. failed) queued queued-Reach (record { new = omega arith; rows = tt })
      tt (inl (entry, read_raw_keyed), tt)
