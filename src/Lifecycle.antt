-- ===== src/Lifecycle.antt =====
-- lifecycle/index.ts: the decoder of lifecycle events.
pub mod Laws
mod Tests
use ankusa.Prelude.{
  ℕ, suc, String, Option, none, some, [], ◌∷◌, Text, codes, text_eq, if◌then◌else◌, Result, ok, err,
  ◌>>=◌, ◌>>◌, require,
}
use ankusa.Json.{pos, whole, Json, null, number, str, obj, Props, get}
use ankusa.Runtime.{Runtime, Input, input_text}
use ankusa.Message.Errors.{
  InvalidMessageError, invalid_json, not_an_object, unsupported_version, invalid, invalid_at,
}
use ankusa.Webhook.Signature.{is_digits}

-- `specversion` is `"1.0"` in every event, and is left out.
pub record LifecycleEvent : Type 0 where
  pub id : Text
  pub source : Text
  pub type_name : Text
  pub subject : Text
  pub time : Text
  pub datacontenttype : Option Text
  pub body : Option Props
  pub revision : Option ℕ
  pub actor : Option Text
  pub instance_name : Option Text
  pub sequence : Option Text
  pub replayid : Option Text
  pub traceparent : Option Text
  pub tracestate : Option Text

abbrev pub required_text : String → Option Json → Result InvalidMessageError Text
required_text key (some (str (c ∷ s))) = ok (c ∷ s)
required_text key _ = err (invalid_at key)

-- `requiredString(raw, key)`
unfoldable pub required_string : Props → String → Result InvalidMessageError Text
required_string raw key = required_text key (get key raw)

abbrev pub optional_text : String → Option Json → Result InvalidMessageError (Option Text)
optional_text key none = ok none
optional_text key (some null) = ok none
optional_text key (some (str s)) = ok (some s)
optional_text key (some _) = err (invalid_at key)

-- `optionalString(raw, key)`
unfoldable pub optional_string : Props → String → Result InvalidMessageError (Option Text)
optional_string raw key = optional_text key (get key raw)

-- `raw.specversion !== "1.0"`
unfoldable pub check_specversion : Option Json → Result InvalidMessageError (Unit {0})
check_specversion (some (str v)) = require (text_eq v (codes "1.0")) (invalid unsupported_version)
check_specversion _ = err (invalid unsupported_version)

unfoldable pub decode_data : Option Json → Result InvalidMessageError (Option Props)
decode_data none = ok none
decode_data (some null) = ok none
decode_data (some (obj ps)) = ok (some ps)
decode_data (some _) = err (invalid_at "data")

-- An integer that is at least 1.
unfoldable pub decode_revision : Option Json → Result InvalidMessageError (Option ℕ)
decode_revision none = ok none
decode_revision (some null) = ok none
decode_revision (some (number (whole (pos (suc n))))) = ok (some (suc n))
decode_revision (some _) = err (invalid_at "revision")

unfoldable pub decode_sequence : Option Json → Result InvalidMessageError (Option Text)
decode_sequence none = ok none
decode_sequence (some null) = ok none
decode_sequence (some (str s)) = if is_digits s then ok (some s) else err (invalid_at "sequence")
decode_sequence (some _) = err (invalid_at "sequence")

unfoldable pub decode_event : Props → Result InvalidMessageError LifecycleEvent
unfolding required_string optional_string check_specversion decode_data decode_revision
    decode_sequence
decode_event raw = do
  check_specversion (get "specversion" raw)
  id ← required_string raw "id"
  source ← required_string raw "source"
  type_name ← required_string raw "type"
  subject ← required_string raw "subject"
  time ← required_string raw "time"
  datacontenttype ← optional_string raw "datacontenttype"
  body ← decode_data (get "data" raw)
  revision ← decode_revision (get "revision" raw)
  actor ← optional_string raw "actor"
  instance_name ← optional_string raw "instance"
  sequence ← decode_sequence (get "sequence" raw)
  replayid ← optional_string raw "replayid"
  traceparent ← optional_string raw "traceparent"
  tracestate ← optional_string raw "tracestate"
  ok (record {
    id = id;
    source = source;
    type_name = type_name;
    subject = subject;
    time = time;
    datacontenttype = datacontenttype;
    body = body;
    revision = revision;
    actor = actor;
    instance_name = instance_name;
    sequence = sequence;
    replayid = replayid;
    traceparent = traceparent;
    tracestate = tracestate;
  })

unfoldable pub decode_parsed : Option Json → Result InvalidMessageError LifecycleEvent
unfolding decode_event
decode_parsed none = err (invalid invalid_json)
decode_parsed (some (obj raw)) = decode_event raw
decode_parsed (some _) = err (invalid not_an_object)

unfoldable pub decode_lifecycle : Runtime → Input → Result InvalidMessageError LifecycleEvent
unfolding decode_parsed
decode_lifecycle rt input = decode_parsed (rt.parse_json (input_text rt input))
