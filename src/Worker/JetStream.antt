-- ===== src/Worker/JetStream.antt =====
-- `handle` and what it calls, in examples/jetstream-k8s/consumer/src/worker.ts.
pub mod Laws
pub mod Main
pub mod Start
pub mod Once
pub mod Intact
pub mod Window
pub mod Cluster
pub mod Effects
pub mod Invariant
pub mod Safety
pub mod Drains
pub mod Refines
pub mod Tests
use ankusa.Prelude.{
  ℕ, ◌+◌, ◌-◌, leb, ◌*◌, min, Bool, true, false, not, ◌&&◌, Option, none, some, List, [], ◌∷◌, ◌++◌,
  Text, Bytes, any, text_eq, length, ltb, if◌then◌else◌, Result, ok, err,
}
use ankusa.Json.{ℤ, pos, negsuc}
use ankusa.Runtime.{Runtime, Input, bytes}
use ankusa.Http.{Gateway}
use ankusa.ClaimCheck.Errors.{ClaimCheckError, invalid_claim_ref, retryable}
use ankusa.ClaimCheck.Client.{redeem}
use ankusa.Message.Errors.{InvalidMessageError}
use ankusa.Message.Decode.{Message, decode_message}
use ankusa.Message.Keys.{message, idempotency_key}

-- What the consumer reads of a delivery.
pub record Delivery : Type 0 where
  pub content : Bytes
  pub seq : ℕ
  pub delivery_count : ℕ

-- What is thrown: by the decoder, by the claim-check client, or by a request that NATS does not answer.
pub data Failure : Type 0 where
  invalid_message : InvalidMessageError → Failure
  claim_failure : ClaimCheckError → Failure
  unanswered : Failure

pub data Via : Type 0 where
  inline : Via
  claim : Via

-- What the control panel is told of a hook.
pub record Announcement : Type 0 where
  pub hook_id : Text
  pub idempotency_key : Text
  pub dedupe_key : Option Text
  pub source_id : Text
  pub size : ℕ
  pub via : Via
  pub consumer : Text
  pub received_at : ℤ
  pub consumed_at : ℤ
  pub latency_ms : ℤ
  pub duplicate : Bool

-- What is published to the dead-letter stream: the message with its headers, of which the reason is the
-- failure in place of the first 200 characters of its text.
pub record DeadLetter : Type 0 where
  pub content : Bytes
  pub reason : Failure
  pub consumer : Text
  pub stream_seq : ℕ

pub data Event : Type 0 where
  announced : Announcement → (taken : Bool) → Event
  published : DeadLetter → (taken : Bool) → Event
  acked : Event
  termed : Failure → Event
  naked : (delay : ℕ) → Event

-- The keys in `seen`, the oldest first, and what was done, the last first.
pub record Consumer : Type 0 where
  pub seen : List Text
  pub log : List Event

-- `POD_NAME`, `Date.now()` after what was done before, and whether NATS answers then.
pub record World : Type 0 where
  pub rt : Runtime
  pub pod_name : Text
  pub now : List Event → ℤ
  pub gateway : Gateway Bytes
  pub takes_announcement : List Event → Bool
  pub takes_dead_letter : List Event → Bool

abbrev pub difference : ℕ → ℕ → ℤ
difference m n = if leb n m then pos (m - n) else negsuc (n - m - 1)

-- `-` of numbers without a fraction.
abbrev pub subtract : ℤ → ℤ → ℤ
subtract (pos m) (pos n) = difference m n
subtract (pos m) (negsuc n) = pos (m + n + 1)
subtract (negsuc m) (pos n) = negsuc (m + n)
subtract (negsuc m) (negsuc n) = difference n m

-- `msg.body !== null ? "inline" : "claim"`, which is also what `resolveBody` returns.
abbrev pub via_of : Message → Via
via_of msg = elim msg.body [ some body ↦ inline | none ↦ claim ]

-- What `announce` sends.
abbrev pub announcement :
    World → Message → (key : Text) → (duplicate : Bool) → List Event → Announcement
announcement w msg key duplicate log = record {
  hook_id = msg.id;
  idempotency_key = key;
  dedupe_key = msg.dedupe_key;
  source_id = msg.source_id;
  size = msg.size;
  via = via_of msg;
  consumer = w.pod_name;
  received_at = msg.received_at;
  consumed_at = w.now log;
  latency_ms = subtract (w.now log) msg.received_at;
  duplicate = duplicate;
}

-- What `deadLetter` sends.
abbrev pub dead_letter_of : World → Delivery → Failure → DeadLetter
dead_letter_of w m f = record {
  content = m.content;
  reason = f;
  consumer = w.pod_name;
  stream_seq = m.seq;
}

abbrev pub dedupe_cap : ℕ
dedupe_cap = 20000

abbrev pub has_key : Text → List Text → Bool
has_key key = any (text_eq key)

-- `seen.add(key)`, which appends a new key.
abbrev pub add_key : Text → List Text → List Text
add_key key seen = if has_key key seen then seen else seen ++ (key ∷ [])

-- The first key is deleted.
abbrev pub evict : List Text → List Text
evict [] = []
evict (key ∷ seen) = seen

abbrev pub trim : List Text → List Text
trim seen = if ltb dedupe_cap (length seen) then evict seen else seen

unfoldable pub remember : Text → List Text → List Text
remember key seen = trim (add_key key seen)

-- `if (!claim || !sha256) throw …`: an empty text counts as none.
abbrev pub claim_body : World → Option Text → Option Text → Result ClaimCheckError Bytes
claim_body w (some (c ∷ urn)) (some (d ∷ sha256)) = (redeem w.rt w.gateway (c ∷ urn) (d ∷ sha256)).0
claim_body w _ _ = err invalid_claim_ref

unfoldable pub resolve_body : World → Message → Result ClaimCheckError Bytes
resolve_body w msg = elim msg.body [
  | some body ↦ ok body
  | none ↦ claim_body w msg.claim msg.sha256
]

abbrev pub push : Event → Consumer → Consumer
push e s = record s { log = e ∷ s.log }

abbrev pub is_permanent : Failure → Bool
is_permanent (invalid_message e) = true
is_permanent (claim_failure e) = not (retryable e)
is_permanent unanswered = false

-- `m.nak(delay)`
unfoldable pub nak : Delivery → Consumer → Consumer
nak m s = push (naked (min 10000 (1000 * m.delivery_count))) s

-- `deadLetter`: published, then terminated; if it is not taken, the delivery comes back.
abbrev pub dead_letter : World → Delivery → Failure → Consumer → (taken : Bool) → Consumer
dead_letter w m f s true = push (termed f) (push (published (dead_letter_of w m f) true) s)
dead_letter w m f s false = nak m (push (published (dead_letter_of w m f) false) s)

abbrev pub failed_for : World → Delivery → Failure → Consumer → (is_permanent : Bool) → Consumer
failed_for w m f s true = dead_letter w m f s (w.takes_dead_letter s.log)
failed_for w m f s false = nak m s

unfoldable pub fail : World → Delivery → Failure → Consumer → Consumer
unfolding nak
fail w m f s = failed_for w m f s (is_permanent f)

-- What follows the announcement: only the key of a new hook is remembered.
abbrev pub after :
    World → Delivery → Message → Text → Consumer → (is_duplicate taken : Bool) → Consumer
after w m msg key s is_duplicate false =
    fail w m unanswered (push (announced (announcement w msg key is_duplicate s.log) false) s)
after w m msg key s true true =
    push acked (push (announced (announcement w msg key true s.log) true) s)
after w m msg key s false true =
    push acked (record (push (announced (announcement w msg key false s.log) true) s) {
      seen = remember key s.seen;
    })

abbrev pub handle_body :
    World → Delivery → Message → Text → Consumer → Result ClaimCheckError Bytes → Consumer
handle_body w m msg key s (err e) = fail w m (claim_failure e) s
handle_body w m msg key s (ok body) = after w m msg key s false (w.takes_announcement s.log)

abbrev pub handle_key : World → Delivery → Message → Text → Consumer → (is_seen : Bool) → Consumer
handle_key w m msg key s true = after w m msg key s true (w.takes_announcement s.log)
handle_key w m msg key s false = handle_body w m msg key s (resolve_body w msg)

abbrev pub handle_message :
    World → Delivery → Consumer → Result InvalidMessageError Message → Consumer
handle_message w m s (err e) = fail w m (invalid_message e) s
handle_message w m s (ok msg) =
    let key = idempotency_key (message msg) false in handle_key w m msg key s (has_key key s.seen)

unfoldable pub handle : World → Delivery → Consumer → Consumer
unfolding fail remember resolve_body
handle w m s = handle_message w m s (decode_message w.rt (bytes m.content))
