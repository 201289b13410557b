-- ===== src/Worker/Wired.antt =====
-- One message in its wire form (message/index.ts) as the workers of examples/jetstream-k8s,
-- examples/kafka-sqs-consumer, examples/rabbitmq-consumer and examples/fleet-e2e read it: the first with
-- the SDK's decoder, the others with `JSON.parse` and their own `resolveBody`.
pub mod SameHook
pub mod Batch
mod Tests
use ankusa.Prelude.{
  ◌≡◌, inl, inr, refl, sym, ap, ◌∙◌, subst, true, false, Bool, List, Option, none, some, [], ◌∷◌,
  Text, Bytes, Result, ok, err, ◌>>=◌, codes, ok-injective, ◌++◌,
}
use ankusa.Json.{pos, whole, Json, null, str, obj, get}
use ankusa.Base64.{to_base64}
use ankusa.Base64.Laws.{IsBytes}
use ankusa.Runtime.{Runtime, bytes}
use ankusa.ClaimCheck.Errors.{ClaimCheckError}
use ankusa.ClaimCheck.Ref.{ParsedClaimRef, parse_claim_ref}
use ankusa.ClaimCheck.Client.{redeem}
use ankusa.Message.Fields.{is_sha256}
use ankusa.Message.Body.Laws.{IsInline, IsClaim}
use ankusa.Message.Decode.{Message, decode_object, decode_message}
use ankusa.Message.Decode.Sound.{IsMessage, form_of}
use ankusa.Message.Wire.{wire, text_json}
use ankusa.Message.Wire.RoundTrip.{decode_object-wire}
use ankusa.Worker.Raw.{Failure, Reader, claim_result, inline_bytes}
use ankusa.Worker.Rabbit
use ankusa.Worker.Rabbit.{Fetched}
use ankusa.Worker.Rabbit.Laws.{IsShown, IsPrintable}
use ankusa.Worker.Sqs
use ankusa.Worker.JetStream
use ankusa.Worker.JetStream.{World, claim_body}
use ankusa.Worker.JetStream.Intact.{
  claimed-resolved, own-resolved, claim_body-redeem, no_empty_ref, no_empty_digest,
}

-- `Buffer.from` reads the base64 of bytes as the bytes.
abbrev pub ReadsBase64 : Reader → Type 0
ReadsBase64 r = (b : Bytes) → IsBytes b → r.buffer_from (str (to_base64 b)) ≡ some b

-- The consumer on the runtime and the gateway of a reader.
abbrev pub beside : Reader → World → World
beside r w = record w { rt = r.rt; gateway = r.gateway }

-- The bytes alone.
abbrev pub bytes_of : Result Failure Fetched → Result Failure Bytes
bytes_of (ok f) = ok f.body
bytes_of (err e) = err e

module _ (r : Reader) where
  text_json-IsShown : (o : Option Text) → IsShown r (some (text_json o))
  unfolding text_json
  text_json-IsShown none = (codes "null", refl)
  text_json-IsShown (some t) = (t, refl)

  -- The values of a wire form that are printed have each a text.
  pub wire-IsPrintable : (msg : Message) → IsPrintable r (wire msg)
  unfolding wire get text_json
  wire-IsPrintable msg = (
    (msg.id, refl),
    (msg.source_id, refl),
    text_json-IsShown msg.tenant_id,
    (r.number_text (whole (pos msg.size)), refl),
  )

  redeem_agrees :
      (claim_id : Text) (x : Result ClaimCheckError Bytes)
      → bytes_of (do b ← claim_result x; ok (record { body = b; via = codes "claim:" ++ claim_id }))
        ≡ claim_result x
  redeem_agrees claim_id (ok b) = refl
  redeem_agrees claim_id (err e) = refl

  -- A claim that parses, and is to be redeemed with a digest.
  fetch_claim_agrees :
      (urn digest : Text) (ref : ParsedClaimRef) (body_base64 : Option Json)
      → parse_claim_ref urn ≡ ok ref
      → is_sha256 digest ≡ true
      → bytes_of (Rabbit.fetch r (some (str urn)) (some (str digest)) body_base64)
        ≡ claim_result ((redeem r.rt r.gateway urn digest).0)
  fetch_claim_agrees [] digest ref body_base64 parses complete = absurd (no_empty_ref ref parses)
  fetch_claim_agrees (c ∷ urn) [] ref body_base64 parses complete =
      absurd (no_empty_digest complete)
  fetch_claim_agrees (c ∷ urn) (d ∷ digest) ref body_base64 parses complete =
      rw parses (redeem_agrees ref.claim_id ((redeem r.rt r.gateway (c ∷ urn) (d ∷ digest)).0))

  batch_claim_agrees :
      (urn digest : Text) (ref : ParsedClaimRef) (body_base64 : Option Json)
      → parse_claim_ref urn ≡ ok ref
      → is_sha256 digest ≡ true
      → Sqs.body_of r (some (str urn)) (some (str digest)) body_base64
        ≡ claim_result ((redeem r.rt r.gateway urn digest).0)
  batch_claim_agrees [] digest ref body_base64 parses complete = absurd (no_empty_ref ref parses)
  batch_claim_agrees (c ∷ urn) [] ref body_base64 parses complete =
      absurd (no_empty_digest complete)
  batch_claim_agrees (c ∷ urn) (d ∷ digest) ref body_base64 parses complete = rw parses refl

  read_bytes :
      (value : Json) (content : Bytes)
      → r.buffer_from value ≡ some content
      → inline_bytes r value ≡ ok content
  read_bytes value content h = rw (inline_bytes, h) refl

  inline_agrees :
      (value : Json) (content : Bytes)
      → inline_bytes r value ≡ ok content
      → bytes_of (do b ← inline_bytes r value; ok (record { body = b; via = codes "inline" }))
        ≡ ok content
  inline_agrees value content h = rw h refl

  -- What the members of a wire form hold, for each of its two shapes.
  fetch_inline :
      (claim sha256 body_base64 : Option Text) (content : Bytes)
      → claim ≡ none
      → body_base64 ≡ some (to_base64 content)
      → r.buffer_from (str (to_base64 content)) ≡ some content
      → (bytes_of (
            Rabbit.fetch r
              (some (text_json claim))
              (some (text_json sha256))
              (some (text_json body_base64)))
          ≡ ok content)
        × (Sqs.body_of r
              (some (text_json claim))
              (some (text_json sha256))
              (some (text_json body_base64))
            ≡ ok content)
  unfolding text_json
  fetch_inline claim sha256 body_base64 content e f h =
      let got : inline_bytes r (str (to_base64 content)) ≡ ok content =
        read_bytes (str (to_base64 content)) content h in
      rw (e, f) (inline_agrees (str (to_base64 content)) content got, got)

  fetch_claimed :
      (claim sha256 body_base64 : Option Text) (urn digest : Text) (ref : ParsedClaimRef)
      → claim ≡ some urn
      → sha256 ≡ some digest
      → parse_claim_ref urn ≡ ok ref
      → is_sha256 digest ≡ true
      → (bytes_of (
            Rabbit.fetch r
              (some (text_json claim))
              (some (text_json sha256))
              (some (text_json body_base64)))
          ≡ claim_result ((redeem r.rt r.gateway urn digest).0))
        × (Sqs.body_of r
              (some (text_json claim))
              (some (text_json sha256))
              (some (text_json body_base64))
            ≡ claim_result ((redeem r.rt r.gateway urn digest).0))
  unfolding text_json
  fetch_claimed claim sha256 body_base64 urn digest ref e f parses complete =
      rw (e, f)
        (
          fetch_claim_agrees urn digest ref (some (text_json body_base64)) parses complete,
          batch_claim_agrees urn digest ref (some (text_json body_base64)) parses complete,
        )

  module _ (w : World) (msg : Message) where
    rabbit_members :
        Rabbit.resolve_body r (wire msg)
        ≡ Rabbit.fetch r
            (some (text_json msg.claim))
            (some (text_json msg.sha256))
            (some (text_json msg.body_base64))
    unfolding Rabbit.resolve_body wire get
    rabbit_members = refl

    batch_members :
        (sqs : List Sqs.Event → Sqs.Command → Bool)
        → Sqs.resolve_body (record { reader = r; sqs = sqs }) (wire msg)
          ≡ Sqs.body_of r
              (some (text_json msg.claim))
              (some (text_json msg.sha256))
              (some (text_json msg.body_base64))
    unfolding Sqs.resolve_body wire get
    batch_members sqs = refl

    -- On the wire form of a message that is as `decodeMessage` leaves one, the `resolveBody` of the
    -- RabbitMQ and the fleet worker, and that of the SQS worker, have the bytes, or throw the claim-check
    -- error, that the JetStream consumer has or throws for the message itself, with the same gateway, if
    -- `Buffer.from` reads the base64 of bytes as these bytes.
    pub resolve_body_agrees :
        IsMessage r.rt msg
        → ReadsBase64 r
        → (sqs : List Sqs.Event → Sqs.Command → Bool)
        → (bytes_of (Rabbit.resolve_body r (wire msg))
            ≡ claim_result (JetStream.resolve_body (beside r w) msg))
          × (Sqs.resolve_body (record { reader = r; sqs = sqs }) (wire msg)
              ≡ claim_result (JetStream.resolve_body (beside r w) msg))
    resolve_body_agrees good reads sqs = elim good.form [
      | inl i ↦
          let (one, two) =
            fetch_inline msg.claim msg.sha256 msg.body_base64 i.content i.no_claim i.encoded
              (reads i.content i.in_bytes) in
          let own =
            ap claim_result (sym (own-resolved (beside r w) msg i.content i.content i.body)) in
          (ap bytes_of rabbit_members ∙ (one ∙ own), batch_members sqs ∙ (two ∙ own))
      | inr c ↦
          let k = c.claimed in
          let complete : is_sha256 k.digest ≡ true = good.digest k.digest k.digested in
          let (one, two) =
            fetch_claimed msg.claim msg.sha256 msg.body_base64 k.urn k.digest k.ref k.claim
              k.digested k.parses complete in
          let own = ap claim_result (
            sym (
              claimed-resolved (beside r w) msg [] k.urn k.digest k.no_body k.claim k.digested
              ∙ claim_body-redeem (beside r w) k.urn k.digest k.ref k.parses complete)) in
          (ap bytes_of rabbit_members ∙ (one ∙ own), batch_members sqs ∙ (two ∙ own))
    ]
