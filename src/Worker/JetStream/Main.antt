-- ===== src/Worker/JetStream/Main.antt =====
-- `main` of examples/jetstream-k8s/consumer/src/worker.ts: the connection, the streams and the consumer
-- that every replica makes sure of, the deliveries one after the other, and the shutdown.
use ankusa.Prelude.{
  ℕ, ◌*◌, Bool, true, false, ◌&&◌, Option, none, some, List, [], ◌∷◌, Text, codes, text_eq,
  if◌then◌else◌,
}
use ankusa.Json.{ℤ, pos, negsuc, Number, whole}
use ankusa.Worker.JetStream.{Delivery, Consumer, World, handle}

-- The constants that are read from the environment.
pub record Environment : Type 0 where
  pub stream : Text
  pub consumer : Text
  pub subject_filter : Text
  pub stream_replicas : Number
  pub stream_max_bytes : Number
  pub dlq_stream : Text
  pub dlq_subject : Text

-- The type of a status that the connection reports.
abbrev pub is_connected : Bool → (type : Text) → Bool
is_connected connected type =
    if text_eq type (codes "disconnect")
    then false
    else if text_eq type (codes "reconnect")
    then true
    else connected

-- What the health server answers.
pub data HealthAnswer : Type 0 where
  health_ok : (connected : Bool) → HealthAnswer
  not_found : HealthAnswer

abbrev pub answer_health : Bool → (method url : Text) → HealthAnswer
answer_health connected method url =
    if text_eq method (codes "GET") && text_eq url (codes "/health")
    then health_ok connected
    else not_found

pub data Retention : Type 0 where
  workqueue : Retention

pub data Discard : Type 0 where
  discard_new : Discard

-- A field that is `none` is not in the object.
pub record StreamConfig : Type 0 where
  pub name : Text
  pub subjects : List Text
  pub num_replicas : Number
  pub max_bytes : Number
  pub retention : Option Retention
  pub discard : Option Discard
  pub max_age : Option ℕ

pub record ConsumerConfig : Type 0 where
  pub ack_wait : ℕ
  pub max_deliver : ℤ
  pub max_ack_pending : ℕ

-- The requests to the manager; a new consumer acknowledges each message explicitly.
pub data ManagerCall : Type 0 where
  add_stream : StreamConfig → ManagerCall
  update_stream : (name : Text) → StreamConfig → ManagerCall
  add_consumer :
      (stream : Text) → ConsumerConfig → (durable_name filter_subject : Text) → ManagerCall
  update_consumer : (stream name : Text) → ConsumerConfig → ManagerCall

abbrev pub nanos_per_ms : ℕ
nanos_per_ms = 1000000

abbrev pub stream_config : Environment → StreamConfig
stream_config env = record {
  name = env.stream;
  subjects = env.subject_filter ∷ [];
  num_replicas = env.stream_replicas;
  max_bytes = env.stream_max_bytes;
  retention = some workqueue;
  discard = some discard_new;
  max_age = none;
}

abbrev pub dlq_config : Environment → StreamConfig
dlq_config env = record {
  name = env.dlq_stream;
  subjects = env.dlq_subject ∷ [];
  num_replicas = env.stream_replicas;
  max_bytes = whole (pos (64 * 1024 * 1024));
  retention = none;
  discard = none;
  max_age = some (24 * 60 * 60 * 1000 * nanos_per_ms);
}

abbrev pub consumer_config : ConsumerConfig
consumer_config = record {
  ack_wait = 30000 * nanos_per_ms;
  max_deliver = negsuc 0;
  max_ack_pending = 200;
}

-- `add`, and `update` where that is refused; `takes` tells what the manager takes after the calls before,
-- the last first. A second refusal is only printed.
abbrev pub ensure :
    (takes : List ManagerCall → ManagerCall → Bool)
    → ManagerCall
    → ManagerCall
    → List ManagerCall
    → List ManagerCall
ensure takes add update calls = if takes calls add then add ∷ calls else update ∷ add ∷ calls

abbrev pub ensure_consumer :
    Environment
    → (takes : List ManagerCall → ManagerCall → Bool) → List ManagerCall
    → List ManagerCall
ensure_consumer env takes =
    ensure takes (add_consumer env.stream consumer_config env.consumer env.subject_filter)
      (update_consumer env.stream env.consumer consumer_config)

unfoldable pub set_up :
    Environment → (takes : List ManagerCall → ManagerCall → Bool) → List ManagerCall
set_up env takes = ensure_consumer env takes (
    ensure takes (add_stream (dlq_config env)) (update_stream env.dlq_stream (dlq_config env)) (
      ensure takes (add_stream (stream_config env)) (update_stream env.stream (stream_config env))
        []))

-- A replica that was just started.
abbrev pub no_memory : Consumer
no_memory = record { seen = []; log = [] }

-- `for await (const m of messages) await handle(m)`
unfoldable pub consume : World → List Delivery → Consumer → Consumer
consume w [] s = s
consume w (m ∷ ms) s = consume w ms (handle w m s)

pub data Action : Type 0 where
  close_messages : Action
  drain : Action
  close_health : Action
  exit : Action

-- Whether the replica is stopping, and what was done for it.
pub record Shutdown : Type 0 where
  pub stopping : Bool
  pub actions : List Action

-- What a signal does, with its actions in their order.
abbrev pub shutdown : Shutdown → Shutdown
shutdown s =
    if s.stopping
    then s
    else record { stopping = true; actions = close_messages ∷ drain ∷ close_health ∷ exit ∷ [] }
