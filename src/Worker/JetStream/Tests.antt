-- ===== src/Worker/JetStream/Tests.antt =====
-- An inline message that is delivered twice.
use ankusa.Prelude.{
  text_eq, Text, none, Bool, if◌then◌else◌, ◌≡◌, ◌↔◌, ◌⊎◌, ok, ◌≤◌, refl, arith, true, false, [],
  ◌∷◌, codes, length,
}
use ankusa.Json.{pos, whole}
use ankusa.Http.{failed}
use ankusa.Runtime.{text}
use ankusa.Fixtures.{runtime, inline_message}
use ankusa.Message.Decode.Tests.{decoder, decode_inline_message}
use ankusa.Message.Keys.{idempotency_key, base_key, computed_key, replay_suffix}
use ankusa.Worker.JetStream.{
  Announcement, inline, Delivery, acked, announced, Consumer, has_key, World, dedupe_cap, remember,
  resolve_body, handle,
}
use ankusa.Worker.JetStream.Main.{
  Environment, ManagerCall, update_stream, update_consumer, set_up, no_memory, consume, shutdown,
  Shutdown,
}
use ankusa.Worker.JetStream.Window.{window, new_keys, consume-window}
use ankusa.Worker.JetStream.Once.{settlements, processed, consume_once}
use ankusa.Worker.JetStream.Intact.{IsOwn, IsClaimed, resolve_body_iff}
use ankusa.Worker.JetStream.Start.{
  Settings, settings, Call, get_consumer, consuming, exited, start_replica, connected_after,
}
use ankusa.Worker.JetStream.Laws.{IsSettled, handle-IsSettled}

abbrev pub nats : World
nats = record {
  rt = runtime;
  pod_name = codes "worker-0";
  now = λ log. pos 9;
  gateway = λ r. failed;
  takes_announcement = λ log. true;
  takes_dead_letter = λ log. true;
}

abbrev pub delivery : Delivery
delivery = record { content = []; seq = 3; delivery_count = 1 }

abbrev idle : Consumer
idle = record { seen = []; log = [] }

abbrev pub told : Bool → Announcement
told duplicate = record {
  hook_id = codes "01a0";
  idempotency_key = codes "01a0";
  dedupe_key = none;
  source_id = codes "demo";
  size = 2;
  via = inline;
  consumer = codes "worker-0";
  received_at = pos 7;
  consumed_at = pos 9;
  latency_ms = pos 2;
  duplicate = duplicate;
}

handle-twice : handle nats delivery (handle nats delivery idle) ≡ (record {
  seen = codes "01a0" ∷ [];
  log = acked ∷ announced (told true) true ∷ acked ∷ announced (told false) true ∷ [];
})
unfolding handle decoder idempotency_key base_key computed_key replay_suffix remember resolve_body
handle-twice = refl

handle-IsSettled_example : IsSettled nats delivery idle (handle nats delivery idle)
handle-IsSettled_example = handle-IsSettled nats delivery idle

consume-window_example :
    ((consume nats (delivery ∷ delivery ∷ []) no_memory).seen
      ≡ window (new_keys (consume nats (delivery ∷ delivery ∷ []) no_memory).log))
    × (length (consume nats (delivery ∷ delivery ∷ []) no_memory).seen ≤ dedupe_cap)
consume-window_example = consume-window nats (delivery ∷ delivery ∷ [])

consume_once_example :
    (settlements (consume nats (delivery ∷ delivery ∷ []) no_memory).log ≡ 2)
    × ((key : Text)
        → processed key (consume nats (delivery ∷ delivery ∷ []) no_memory).log
          ≡ (if has_key key (consume nats (delivery ∷ delivery ∷ []) no_memory).seen then 1 else 0))
consume_once_example = consume_once nats (delivery ∷ delivery ∷ []) (omega arith)

-- Streams and a consumer that are there, with another configuration.
abbrev is_update : ManagerCall → Bool
is_update (update_stream name config) = true
is_update (update_consumer stream name config) = true
is_update _ = false

abbrev environment : Environment
environment = record {
  stream = codes "ANKUSA";
  consumer = codes "worker";
  subject_filter = codes "ankusa.>";
  stream_replicas = whole (pos 3);
  stream_max_bytes = whole (pos 671088640);
  dlq_stream = codes "ANKUSA_DLQ";
  dlq_subject = codes "dlq.ankusa";
}

set_up_drifted : length (set_up environment (λ calls call. is_update call)) ≡ 6
unfolding set_up
set_up_drifted = refl

shutdown_once : (s : Shutdown) → shutdown (shutdown s) ≡ shutdown s
shutdown_once s = ground arith

resolve_body_iff_example :
    (resolve_body nats inline_message ≡ ok (codes "hi"))
    ↔ (IsOwn nats inline_message (codes "hi") ⊎ IsClaimed nats inline_message (codes "hi"))
resolve_body_iff_example =
    resolve_body_iff nats inline_message (codes "hi") (text []) decode_inline_message

-- A replica without a variable, whose consumer is not there.
abbrev unset : Settings
unset = settings (λ t. whole (pos 1)) (codes "pod") (λ name. none)

abbrev is_other : Call → Bool
is_other (get_consumer stream consumer) = false
is_other _ = true

start_replica_granted : start_replica unset (λ done c. true) (λ done c. true) ≡ consuming
start_replica_granted = refl

start_replica_refused : start_replica unset (λ done c. true) (λ done c. is_other c) ≡ exited
start_replica_refused = refl

connected_after_reconnect :
    connected_after true (codes "disconnect" ∷ codes "ldm" ∷ codes "reconnect" ∷ []) ≡ true
unfolding text_eq
connected_after_reconnect = refl
