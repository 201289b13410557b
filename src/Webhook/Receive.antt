-- ===== src/Webhook/Receive.antt =====
-- webhook/receive.ts: the decision on one delivery.
mod Tests
pub mod Laws
use ankusa.Prelude.{
  ℕ, Bool, true, false, Option, none, some, List, [], ◌∷◌, Text, Result, ok, err, ◌>>=◌,
}
use ankusa.Runtime.{Runtime, Input}
use ankusa.Webhook.Headers.{HeaderSource, HookHeaders, HookIdError, parse_headers}
use ankusa.Webhook.Signature.{
  InvalidSignatureError, Secrets, secret, rotation, secret_list, bad_secret, verify_signature,
  VerifiedSignature,
}

pub record ReceiveDeliveryOptions : Type 0 where
  pub headers : HeaderSource
  pub body : Input
  pub secrets : Option Secrets
  pub allow_unsigned : Option Bool
  pub tolerance_seconds : Option ℕ
  pub now : Option ℕ

-- `HookHeaders & { verified: boolean }`
pub record ReceivedDelivery : Type 0 where
  pub hook : HookHeaders
  pub verified : Bool

-- The errors that `receiveDelivery` throws.
pub data ReceiveError : Type 0 where
  invalid_signature : InvalidSignatureError → ReceiveError
  invalid_hook_id : HookIdError → ReceiveError

abbrev pub signature_result {ℓ} :
    {A : Type ℓ} → Result InvalidSignatureError A → Result ReceiveError A
signature_result (ok a) = ok a
signature_result (err e) = err (invalid_signature e)

abbrev pub header_result {ℓ} : {A : Type ℓ} → Result HookIdError A → Result ReceiveError A
header_result (ok a) = ok a
header_result (err e) = err (invalid_hook_id e)

abbrev pub configured : Option Secrets → List Text
configured none = []
configured (some s) = secret_list s

-- `options.allowUnsigned === true`
abbrev pub is_allowed : Option Bool → Bool
is_allowed (some true) = true
is_allowed _ = false

unfoldable pub judge : Runtime → ℕ → ReceiveDeliveryOptions → List Text → Result ReceiveError Bool
judge rt clock options (s ∷ ss) = do
  _ ← signature_result (
      verify_signature rt clock (record {
        headers = options.headers;
        body = options.body;
        secrets = rotation (s ∷ ss);
        tolerance_seconds = options.tolerance_seconds;
        now = options.now;
      }))
  ok true
judge rt clock options [] = elim (is_allowed options.allow_unsigned) [
  | true ↦ ok false
  | false ↦ err (invalid_signature bad_secret)
]

-- The signature is judged first.
unfoldable pub receive_delivery :
    Runtime → ℕ → ReceiveDeliveryOptions → Result ReceiveError ReceivedDelivery
unfolding judge
receive_delivery rt clock options = do
  verified ← judge rt clock options (configured options.secrets)
  hook ← header_result (parse_headers rt options.headers)
  ok (record { hook = hook; verified = verified })
