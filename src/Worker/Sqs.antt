-- ===== src/Worker/Sqs.antt =====
-- examples/kafka-sqs-consumer/worker/src/worker.ts: a batch of messages of an SQS FIFO queue.
pub mod Run
pub mod Log
pub mod Asking
pub mod Laws
pub mod Completes
pub mod Main
pub mod Start
pub mod Once
pub mod Turn
pub mod Order
pub mod Queue
pub mod Dealt
pub mod Fifo
pub mod Drains
pub mod Empties
mod Tests
use ankusa.Prelude.{
  ℕ, zero, suc, ◌*◌, ◌^◌, min, Bool, true, false, not, ◌&&◌, Option, none, some, List, [], ◌∷◌,
  Text, Bytes, codes, any, eqb, text_eq, if◌then◌else◌, Result, ok, err, ◌>>=◌, ◌>>◌, require,
}
use ankusa.Json.{
  same_value, pos, negsuc, Number, whole, other, Json, null, bool, number, str, obj, arr, Props,
  get,
}
use ankusa.Runtime.{Runtime}
use ankusa.Http.{Gateway}
use ankusa.ClaimCheck.Errors.{ClaimCheckError, invalid_claim_ref, retryable}
use ankusa.ClaimCheck.Ref.{parse_claim_ref}
use ankusa.ClaimCheck.Client.{redeem}
use ankusa.Worker.Raw.{
  Failure, permanent, claim_failure, unknown, Reader, is_truthy, redeem_value, parsed_ref,
  inline_bytes, shown, or_empty_text,
}

-- What SQS hands out: `Body`, and the attributes that the worker asks for.
pub record SqsMessage : Type 0 where
  pub body : Option Text
  pub group : Option Text
  pub receives : Option Text
  pub receipt : Option Text
  pub message_id : Option Text

-- The commands to SQS; a dead letter has the failure in place of its message.
pub data Command : Type 0 where
  delete_message : SqsMessage → Command
  send_message : SqsMessage → Failure → Command
  change_visibility : SqsMessage → (seconds : ℕ) → Command

-- A hook that was handled, or a command with whether SQS took it.
pub data Event : Type 0 where
  handled : SqsMessage → (id : Option Json) → Event
  asked : Command → (taken : Bool) → Event

-- The ids in `processed`, the groups in `blocked`, and what was done, the last first.
pub record Batch : Type 0 where
  pub processed : List (Option Json)
  pub blocked : List Text
  pub log : List Event

-- What the worker runs on. `sqs` tells whether SQS takes a command after what was done before.
pub record World : Type 0 where
  pub reader : Reader
  pub sqs : List Event → Command → Bool

abbrev pub is_one : Option Json → Bool
is_one (some (number (whole (pos n)))) = eqb n 1
is_one _ = false

-- `m.Body ?? ""`, and the same of a group.
abbrev pub text_or_empty : Option Text → Text
text_or_empty none = []
text_or_empty (some t) = t

-- The message of the `PermanentError` is a template, which throws where `v` has no text.
abbrev pub supported : Reader → Option Json → (is_first : Bool) → Result Failure (Unit {0})
supported r v true = ok tt
supported r v false = do text ← shown r v; err permanent

-- Reading `v` of `null` throws; of another value that is no object it is `undefined`.
unfoldable pub parse_value : Reader → Option Json → Result Failure Props
parse_value r none = err permanent
parse_value r (some null) = err unknown
parse_value r (some (obj raw)) = do
  supported r (get "v" raw) (is_one (get "v" raw))
  require (not (is_truthy (get "claim" raw) && not (is_truthy (get "sha256" raw)))) permanent
  ok raw
parse_value r (some _) = err permanent

unfoldable pub parse : World → SqsMessage → Result Failure Props
unfolding parse_value
parse w m = parse_value w.reader (w.reader.rt.parse_json (text_or_empty m.body))

abbrev pub body_of : Reader → Option Json → Option Json → Option Json → Result Failure Bytes
body_of r (some claim) (some sha256) body_base64 =
    if is_truthy (some claim) && is_truthy (some sha256)
    then (do _ ← parsed_ref r claim; redeem_value r claim sha256)
    else inline_bytes r (or_empty_text body_base64)
body_of r _ _ body_base64 = inline_bytes r (or_empty_text body_base64)

unfoldable pub resolve_body : World → Props → Result Failure Bytes
resolve_body w raw = body_of w.reader (get "claim" raw) (get "sha256" raw) (get "body_base64" raw)
