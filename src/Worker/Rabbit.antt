-- ===== src/Worker/Rabbit.antt =====
-- examples/rabbitmq-consumer/worker/src/worker.ts: how one delivery of the queue is settled.
pub mod Fetch
pub mod Laws
pub mod Tests
use ankusa.Prelude.{
  ℕ, zero, suc, List, [], ◌∷◌, Bool, true, false, Option, none, some, ◌++◌, Text, Bytes, codes,
  if◌then◌else◌, Result, ok, err, ◌>>=◌,
}
use ankusa.Json.{Json, null, obj, Props, end, get}
use ankusa.ClaimCheck.Errors.{invalid_claim_ref, retryable}
use ankusa.Worker.Raw.{
  Failure, claim_failure, unknown, Reader, is_truthy, redeem_value, parsed_ref, inline_bytes,
  or_empty_text, shown,
}

-- `chan.ack(msg)`, `chan.nack(msg, false, false)` and `chan.nack(msg, false, true)`
pub data Settlement : Type 0 where
  acked rejected requeued : Settlement

-- The result of `resolveBody`.
pub record Fetched : Type 0 where
  pub body : Bytes
  pub via : Text

-- Reading a member of `null` throws; a value that is no object has no members that are read here.
abbrev pub members : Option Json → Result Failure Props
members none = err unknown
members (some null) = err unknown
members (some (obj raw)) = ok raw
members (some _) = ok end

abbrev pub inline : Reader → Option Json → Result Failure Fetched
inline r body_base64 = do
  bytes ← inline_bytes r (or_empty_text body_base64)
  ok (record { body = bytes; via = codes "inline" })

-- A claim with no digest has nothing to verify the bytes against.
abbrev pub fetch_digest : Reader → Json → Json → (is_stated : Bool) → Result Failure Fetched
fetch_digest r claim sha256 false = err (claim_failure invalid_claim_ref)
fetch_digest r claim sha256 true = do
  parsed ← parsed_ref r claim
  bytes ← redeem_value r claim sha256
  ok (record { body = bytes; via = codes "claim:" ++ parsed.claim_id })

abbrev pub fetch_claim : Reader → Json → Option Json → Result Failure Fetched
fetch_claim r claim none = err (claim_failure invalid_claim_ref)
fetch_claim r claim (some sha256) = fetch_digest r claim sha256 (is_truthy (some sha256))

abbrev pub fetch_stated :
    Reader → Json → Option Json → Option Json → (is_claim : Bool) → Result Failure Fetched
fetch_stated r claim sha256 body_base64 true = fetch_claim r claim sha256
fetch_stated r claim sha256 body_base64 false = inline r body_base64

abbrev pub fetch : Reader → Option Json → Option Json → Option Json → Result Failure Fetched
fetch r none sha256 body_base64 = inline r body_base64
fetch r (some claim) sha256 body_base64 =
    fetch_stated r claim sha256 body_base64 (is_truthy (some claim))

unfoldable pub resolve_body : Reader → Props → Result Failure Fetched
resolve_body r raw = fetch r (get "claim" raw) (get "sha256" raw) (get "body_base64" raw)

-- `JSON.parse(msg.content.toString("utf8"))`
unfoldable pub decode : Reader → Bytes → Result Failure Props
decode r content = members (r.rt.parse_json (r.utf8_text content))

-- The `catch`: only a claim-check error that is not retryable is rejected without requeue.
abbrev pub settlement_of {ℓ} : {A : Type ℓ} → Result Failure A → Settlement
settlement_of (ok a) = acked
settlement_of (err (claim_failure e)) = if retryable e then requeued else rejected
settlement_of (err _) = requeued

-- `text.repeat(n)` of one character.
abbrev pub repeat : ℕ → ℕ → Text
repeat zero c = []
repeat (suc n) c = c ∷ repeat n c

-- The lines, of which the first is the character U+2500, 72 times.
abbrev pub lines_of :
    Reader → (routing_key : Text) → Fetched → (id source_id tenant_id size : Text) → List Text
lines_of r routing_key f id source_id tenant_id size =
    repeat 72 9472
    ∷ (codes "hook id="
        ++ (id ++ (codes " source=" ++ (source_id ++ (codes " tenant=" ++ tenant_id)))))
    ∷ (codes "routing_key="
        ++ (routing_key ++ (codes " size=" ++ (size ++ (codes " via=" ++ f.via)))))
    ∷ r.utf8_text f.body
    ∷ []

-- A hook is handled by printing it. A template throws where a value has no text; what was printed before
-- that is left out.
unfoldable pub handle_hook :
    Reader → Props → (routing_key : Text) → Fetched → Result Failure (List Text)
handle_hook r raw routing_key f = do
  id ← shown r (get "id" raw)
  source_id ← shown r (get "source_id" raw)
  tenant_id ← shown r (get "tenant_id" raw)
  size ← shown r (get "size" raw)
  ok (lines_of r routing_key f id source_id tenant_id size)

-- The `try` and its `catch`.
unfoldable pub settle : Reader → (routing_key : Text) → Bytes → Settlement
unfolding decode resolve_body handle_hook
settle r routing_key content =
    settlement_of
      (do raw ← decode r content; f ← resolve_body r raw; handle_hook r raw routing_key f)
