-- ===== src/Worker/JetStream/Start.antt =====
-- How a consumer of examples/jetstream-k8s starts: its environment, and what `main` does until the
-- deliveries come.
use ankusa.Prelude.{
  ℕ, Bool, true, false, Option, none, some, List, [], ◌∷◌, Text, codes, text_eq, any,
}
use ankusa.Json.{ℤ, negsuc, Number}
use ankusa.Starting.{Env, setting, ask_all}
use ankusa.Worker.JetStream.Main.{Environment, ManagerCall, is_connected, set_up}

pub record Settings : Type 0 where
  pub nats_url : Text
  pub claim_check_url : Text
  pub consumed_subject : Text
  pub work_ms : Number
  pub health_port : Number
  pub pod_name : Text
  pub environment : Environment

-- `POD_NAME`
abbrev pub pod_name_of : Option Text → (hostname : Text) → Text
pod_name_of none hostname = hostname
pod_name_of (some name) hostname = name

-- The constants; `number_of` is `Number(text)`.
abbrev pub settings : (number_of : Text → Number) → (hostname : Text) → Env → Settings
settings number_of hostname env = record {
  nats_url = setting env "NATS_URL" "nats://localhost:4222";
  claim_check_url = setting env "CLAIM_CHECK_URL" "http://localhost:4001";
  consumed_subject = setting env "CONSUMED_SUBJECT" "demo.consumed";
  work_ms = number_of (setting env "WORK_MS" "25");
  health_port = number_of (setting env "HEALTH_PORT" "8080");
  pod_name = pod_name_of (env "POD_NAME") hostname;
  environment = record {
    stream = setting env "STREAM" "ANKUSA";
    consumer = setting env "CONSUMER" "worker";
    subject_filter = setting env "SUBJECT_FILTER" "ankusa.>";
    stream_replicas = number_of (setting env "STREAM_REPLICAS" "3");
    stream_max_bytes = number_of (setting env "STREAM_MAX_BYTES" "671088640");
    dlq_stream = setting env "DLQ_STREAM" "ANKUSA_DLQ";
    dlq_subject = setting env "DLQ_SUBJECT" "dlq.ankusa";
  };
}

-- The calls of `main` that end it if they fail; the connection is tried for as long as it takes.
pub data Call : Type 0 where
  listen_health : (port : Number) → Call
  connect : (servers : Text) → (max_reconnect_attempts : ℤ) → (name : Text) → Call
  open_manager : Call
  -- the streams and the consumer: see `set_up`
  manage : List ManagerCall → Call
  get_consumer : (stream consumer : Text) → Call
  consume_messages : (max_messages : ℕ) → Call

abbrev pub calls : Settings → (takes : List ManagerCall → ManagerCall → Bool) → List Call
calls s takes =
    listen_health s.health_port
    ∷ connect s.nats_url (negsuc 0) s.pod_name
    ∷ open_manager
    ∷ manage (set_up s.environment takes)
    ∷ get_consumer s.environment.stream s.environment.consumer
    ∷ consume_messages 50
    ∷ []

-- How the start ends: the replica waits for deliveries, or exits with 1.
pub data Started : Type 0 where
  consuming : Started
  exited : Started

abbrev pub started : List Call × Bool → Started
started (done, true) = consuming
started (done, false) = exited

abbrev pub start_replica :
    Settings
    → (takes : List ManagerCall → ManagerCall → Bool) → (succeeds : List Call → Call → Bool)
    → Started
start_replica s takes succeeds = started (ask_all succeeds (calls s takes) [])

-- What the health server tells of the connection, after the statuses that were reported since it was
-- made, the first first.
abbrev pub connected_after : Bool → (types : List Text) → Bool
connected_after connected [] = connected
connected_after connected (type ∷ types) = connected_after (is_connected connected type) types

-- The statuses that are printed.
abbrev pub is_printed : (type : Text) → Bool
is_printed type =
    any (text_eq type) (codes "disconnect" ∷ codes "reconnect" ∷ codes "ldm" ∷ codes "error" ∷ [])
