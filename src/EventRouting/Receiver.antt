-- ===== src/EventRouting/Receiver.antt =====
-- examples/event-routing/receiver/src/receiver.ts: what it answers a request.
pub mod Laws
use ankusa.Prelude.{
  ℕ, String, Bool, true, false, not, ◌&&◌, ◌||◌, ◌≡◌, ◌≢◌, ◌↔◌, refl, ap, arith, Option, none, some,
  List, [], ◌∷◌, ◌++◌, Text, Bytes, codes, text_eq, ◌==◌, if◌then◌else◌, Result, ok, err, ◌>>=◌,
}
use ankusa.Runtime.{Runtime, bytes}
use ankusa.Webhook.Headers.{
  HeaderValue, undefined, single, several, object, HookHeaders, HookIdError, parse_headers,
}
use ankusa.Webhook.Signature.{
  InvalidSignatureError, Secrets, secret, rotation, VerifySignatureOptions, VerifiedSignature,
  verify_signature,
}
use ankusa.Webhook.Receive.{
  ReceiveDeliveryOptions, ReceivedDelivery, ReceiveError, invalid_signature, invalid_hook_id, judge,
  receive_delivery,
}

-- The secret, without which the receiver ends.
abbrev pub required_secret : Option Text → Option Text
required_secret none = none
required_secret (some []) = none
required_secret (some (c ∷ s)) = some (c ∷ s)

-- What the receiver runs on; `utf8_text` is `toString("utf8")`.
pub record World : Type 0 where
  pub rt : Runtime
  pub clock : ℕ
  pub utf8_text : Bytes → Text

pub record Request : Type 0 where
  pub method : Option Text
  pub url : Option Text
  pub headers : List (String × HeaderValue)
  pub chunks : List Bytes

-- A line that is printed, by what it tells.
pub data Line : Type 0 where
  received_line : ReceivedDelivery → (event_type : HeaderValue) → (body : Text) → Line
  refused_line : InvalidSignatureError → Line

pub record Reply : Type 0 where
  pub status : ℕ
  pub printed : List Line

-- `Buffer.concat(chunks)`
abbrev pub concat : List Bytes → Bytes
concat [] = []
concat (c ∷ cs) = c ++ concat cs

abbrev pub is_text : Text → Option Text → Bool
is_text t none = false
is_text t (some s) = text_eq s t

abbrev pub is_addressed : Request → Bool
is_addressed r = is_text (codes "POST") r.method && is_text (codes "/invoices") r.url

-- `req.headers["x-ankusa-event-type"] ?? "null"`
unfoldable pub event_type_of : List (String × HeaderValue) → HeaderValue
event_type_of [] = single (codes "null")
event_type_of ((name, undefined) ∷ hs) = event_type_of hs
event_type_of ((name, value) ∷ hs) =
    if name == "x-ankusa-event-type" then value else event_type_of hs

abbrev pub options_of : Text → Request → ReceiveDeliveryOptions
options_of s r = record {
  headers = object r.headers;
  body = bytes (concat r.chunks);
  secrets = some (secret s);
  allow_unsigned = none;
  tolerance_seconds = none;
  now = none;
}

abbrev pub reply_to : World → Request → Result ReceiveError ReceivedDelivery → Reply
reply_to w r (ok d) = record {
  status = 204;
  printed = received_line d (event_type_of r.headers) (w.utf8_text (concat r.chunks)) ∷ [];
}
reply_to w r (err (invalid_signature e)) = record { status = 401; printed = refused_line e ∷ [] }
reply_to w r (err (invalid_hook_id e)) = record { status = 400; printed = [] }

unfoldable pub reply : World → Text → Request → Reply
reply w s r =
    if is_addressed r
    then reply_to w r (receive_delivery w.rt w.clock (options_of s r))
    else record { status = 404; printed = [] }
