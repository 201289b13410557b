-- ===== src/Message/Wire.antt =====
-- The JSON object that a decoded message serializes to: the enumerable properties of the object that
-- `decodeMessage` of message/index.ts builds, in its order. `body` is not among them.
mod Tests
pub mod RoundTrip
use ankusa.Prelude.{String, Option, none, some, List, [], ◌∷◌, Text}
use ankusa.Json.{Json, null, bool, number, str, obj, Props, end, prop, pos, whole}
use ankusa.Message.Fields.{Verification}
use ankusa.Message.Decode.{Message}

unfoldable pub text_json : Option Text → Json
text_json none = null
text_json (some t) = str t

unfoldable pub headers_json : List (String × Text) → Props
headers_json [] = end
headers_json ((name, value) ∷ hs) = prop name (str value) (headers_json hs)

unfoldable pub verification_json : Option Verification → Json
verification_json none = null
verification_json (some v) =
    obj (prop "status" (str v.status) (prop "flagged" (bool v.flagged) end))

unfoldable pub wire : Message → Props
wire m = prop "v" (number (whole (pos m.v))) (
    prop "id" (str m.id) (
      prop "source_id" (str m.source_id) (
        prop "tenant_id" (text_json m.tenant_id) (
          prop "received_at" (number (whole m.received_at)) (
            prop "content_type" (text_json m.content_type) (
              prop "size" (number (whole (pos m.size))) (
                prop "body_base64" (text_json m.body_base64) (
                  prop "claim" (text_json m.claim) (
                    prop "sha256" (text_json m.sha256) (
                      prop "dedupe_key" (text_json m.dedupe_key) (
                        prop "replay_id" (text_json m.replay_id) (
                          prop "idempotency_key" (text_json m.idempotency_key) (
                            prop "headers" (obj (headers_json m.headers)) (
                              prop "verification" (verification_json m.verification) (
                                prop "traceparent" (text_json m.traceparent) (
                                  prop "tracestate" (text_json m.tracestate) (
                                    prop "instance" (text_json m.instance_name) (
                                      prop "region" (text_json m.region) (
                                        prop "event_type" (text_json m.event_type)
                                          end)))))))))))))))))))
