-- ===== src/Message/Decode.antt =====
-- `decodeMessage` of message/index.ts.
pub mod Sound
pub mod Tests
use ankusa.Prelude.{ℕ, String, Option, none, some, List, Text, Bytes, Result, ok, err, ◌>>=◌, ◌>>◌}
use ankusa.Json.{ℤ, Json, null, obj, Props, get}
use ankusa.Runtime.{Runtime, Input, input_text}
use ankusa.Message.Errors.{InvalidMessageError, invalid_json, not_an_object, invalid}
use ankusa.Message.Fields.{
  Verification, decode_version, decode_id, decode_source_id, decode_received_at, decode_size,
  nullable_keys, check_nullable, nullable_text, decode_headers, decode_sha256, decode_verification,
}
use ankusa.Message.Body.{decode_body, check_tenant}

-- `instance_name` is the field `instance`.
pub record Message : Type 0 where
  pub v : ℕ
  pub id : Text
  pub source_id : Text
  pub tenant_id : Option Text
  pub received_at : ℤ
  pub content_type : Option Text
  pub size : ℕ
  pub body_base64 : Option Text
  pub claim : Option Text
  pub sha256 : Option Text
  pub dedupe_key : Option Text
  pub replay_id : Option Text
  pub idempotency_key : Option Text
  pub headers : List (String × Text)
  pub verification : Option Verification
  pub traceparent : Option Text
  pub tracestate : Option Text
  pub instance_name : Option Text
  pub region : Option Text
  pub event_type : Option Text
  pub body : Option Bytes

-- `(raw[key] ?? null) as string | null`
abbrev pub nullable : String → Props → Option Text
nullable key raw = nullable_text (get key raw)

-- The checks on the parsed object, in their order.
unfoldable pub decode_object : Runtime → Props → Result InvalidMessageError Message
decode_object rt raw = do
  v ← decode_version (get "v" raw)
  id ← decode_id (get "id" raw)
  source_id ← decode_source_id (get "source_id" raw)
  received_at ← decode_received_at (get "received_at" raw)
  size ← decode_size (get "size" raw)
  check_nullable nullable_keys raw
  headers ← decode_headers (get "headers" raw)
  sha256 ← decode_sha256 (get "sha256" raw)
  verification ← decode_verification (get "verification" raw)
  form ← decode_body rt size sha256 (get "body_base64" raw) (get "claim" raw)
  check_tenant (nullable "tenant_id" raw) form.claim_ref
  ok (record {
    v = v;
    id = id;
    source_id = source_id;
    tenant_id = nullable "tenant_id" raw;
    received_at = received_at;
    content_type = nullable "content_type" raw;
    size = size;
    body_base64 = form.encoded_body;
    claim = form.claim;
    sha256 = sha256;
    dedupe_key = nullable "dedupe_key" raw;
    replay_id = nullable "replay_id" raw;
    idempotency_key = nullable "idempotency_key" raw;
    headers = headers;
    verification = verification;
    traceparent = nullable "traceparent" raw;
    tracestate = nullable "tracestate" raw;
    instance_name = nullable "instance" raw;
    region = nullable "region" raw;
    event_type = nullable "event_type" raw;
    body = form.body;
  })

unfoldable pub decode_parsed : Runtime → Option Json → Result InvalidMessageError Message
unfolding decode_object
decode_parsed rt none = err (invalid invalid_json)
decode_parsed rt (some (obj raw)) = decode_object rt raw
decode_parsed rt (some _) = err (invalid not_an_object)

unfoldable pub decode_message : Runtime → Input → Result InvalidMessageError Message
unfolding decode_parsed
decode_message rt input = decode_parsed rt (rt.parse_json (input_text rt input))
