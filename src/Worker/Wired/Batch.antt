-- ===== src/Worker/Wired/Batch.antt =====
-- What the SQS worker makes of a message in its wire form, by the version of the message.
use ankusa.Prelude.{
  ◌≡◌, ◌⊎◌, Bool-cases, refl, ap, ◌∙◌, inl, inr, true, false, not, ◌&&◌, Bool, none, some, Option,
  List, [], ◌∷◌, Text, Bytes, ok, err, any, eqb, arith, if◌then◌else◌,
}
use ankusa.Json.{same_value, Json, str, obj, get}
use ankusa.ClaimCheck.Ref.{ParsedClaimRef, parse_claim_ref}
use ankusa.Message.Fields.{is_sha256}
use ankusa.Message.Decode.{Message}
use ankusa.Message.Decode.Sound.{IsMessage}
use ankusa.Message.Wire.{wire, text_json}
use ankusa.Worker.Raw.{permanent, is_truthy, claim_result}
use ankusa.Worker.JetStream
use ankusa.Worker.JetStream.Intact.{no_empty_ref, no_empty_digest}
use ankusa.Worker.Sqs.{
  SqsMessage, Command, delete_message, send_message, handled, asked, Event, Batch, World,
  text_or_empty, parse, parse_value, resolve_body,
}
use ankusa.Worker.Sqs.Run.{
  handled_body, answered, remove_sent, group_of, contains, ask, remove, dead_letter, handle,
  attempt, attempt_parsed, attempt_id, attempt_body, recover, turn, process_one,
}
use ankusa.Worker.Wired.{ReadsBase64, wire-IsPrintable, beside, resolve_body_agrees}

-- The test for a claim without a digest is never met.
digest_stated :
    (claim sha256 : Option Text) (urn digest : Text) (ref : ParsedClaimRef)
    → claim ≡ some urn
    → sha256 ≡ some digest
    → parse_claim_ref urn ≡ ok ref
    → is_sha256 digest ≡ true
    → (is_truthy (some (text_json claim)) && not (is_truthy (some (text_json sha256)))) ≡ false
unfolding text_json
digest_stated claim sha256 [] digest ref e f parses whole = absurd (no_empty_ref ref parses)
digest_stated claim sha256 (c ∷ urn) [] ref e f parses whole = absurd (no_empty_digest whole)
digest_stated claim sha256 (c ∷ urn) (d ∷ digest) ref e f parses whole = rw (e, f) refl

no_claim_stated :
    (claim sha256 : Option Text)
    → claim ≡ none
    → (is_truthy (some (text_json claim)) && not (is_truthy (some (text_json sha256)))) ≡ false
unfolding text_json
no_claim_stated claim sha256 e = rw e refl

module _ (w : World) (msg : Message) where
  stated :
      IsMessage w.reader.rt msg
      → (is_truthy (some (text_json msg.claim)) && not (is_truthy (some (text_json msg.sha256))))
        ≡ false
  stated good = elim good.form [
    | inl i ↦ no_claim_stated msg.claim msg.sha256 i.no_claim
    | inr c ↦
        let k = c.claimed in
        digest_stated msg.claim msg.sha256 k.urn k.digest k.ref k.claim k.digested k.parses
          (good.digest k.digest k.digested)
  ]

  parse_value-wire :
      (is_first : Bool)
      → IsMessage w.reader.rt msg
      → eqb msg.v 1 ≡ is_first
      → parse_value w.reader (some (obj (wire msg)))
        ≡ (if is_first then ok (wire msg) else err permanent)
  unfolding parse_value wire get
  parse_value-wire true good e = rw (e, stated good) refl
  parse_value-wire false good e = rw e refl

  parse-wire :
      (m : SqsMessage) (is_first : Bool)
      → IsMessage w.reader.rt msg
      → w.reader.rt.parse_json (text_or_empty m.body) ≡ some (obj (wire msg))
      → eqb msg.v 1 ≡ is_first
      → parse w m ≡ (if is_first then ok (wire msg) else err permanent)
  unfolding parse
  parse-wire m is_first good sent e =
      ap (parse_value w.reader) sent ∙ parse_value-wire is_first good e

  -- SQS takes what the worker asks of it.
  abbrev pub Takes : Type 0
  Takes = (log : List Event) (c : Command) → w.sqs log c ≡ true

  asked_taken :
      Takes
      → (c : Command) (s : Batch) → ask w c s ≡ (record s { log = asked c true ∷ s.log }, none)
  unfolding ask
  asked_taken takes c s = ap (answered c s) (takes s.log c)

  handled_body-wire :
      (body : Bytes) → resolve_body w (wire msg) ≡ ok body → handled_body w (wire msg) ≡ ok body
  unfolding handled_body
  handled_body-wire body got =
      let ((id, p), (source_id, q), (tenant_id, s), (size, t)) = wire-IsPrintable w.reader msg in
      rw (got, p, q, s, t) refl

  accepted :
      (m : SqsMessage) (s : Batch) (body : Bytes)
      → Takes
      → contains (group_of m) s.blocked ≡ false
      → any (same_value (some (str msg.id))) s.processed ≡ false
      → parse w m ≡ ok (wire msg)
      → handled_body w (wire msg) ≡ ok body
      → process_one w m s ≡ (
        record s {
          processed = some (str msg.id) ∷ s.processed;
          log = asked (delete_message m) true ∷ handled m (some (str msg.id)) ∷ s.log;
        },
        none,
      )
  unfolding process_one attempt remove handle get wire
  accepted m s body takes free fresh parsed got =
      let id : Option Json = some (str msg.id) in
      ap (turn w m s) free
      ∙ ap (recover w m) (
          ap (attempt_parsed w m s) parsed
          ∙ (ap (attempt_id w m s (wire msg)) fresh
              ∙ (ap (attempt_body w m s id) got
                  ∙ asked_taken takes (delete_message m) (handle m id s))))

  refused :
      (m : SqsMessage) (s : Batch)
      → Takes
      → contains (group_of m) s.blocked ≡ false
      → parse w m ≡ err permanent
      → process_one w m s ≡ (
        record s {
          log = asked (delete_message m) true ∷ asked (send_message m permanent) true ∷ s.log;
        },
        none,
      )
  unfolding process_one attempt remove dead_letter
  refused m s takes free parsed =
      let next : Batch = record s { log = asked (send_message m permanent) true ∷ s.log } in
      ap (turn w m s) free
      ∙ (ap (λ r. recover w m (attempt_parsed w m s r)) parsed
          ∙ (ap (remove_sent w m) (asked_taken takes (send_message m permanent) s)
              ∙ asked_taken takes (delete_message m) next))

  -- Let a message of the batch be the wire form of a message that is as `decodeMessage` leaves one, in
  -- a group that is not blocked, whose id is new and whose body is to be had by the consumer that uses
  -- the SDK; and let SQS take every command. Then the version is 1, and the hook is handled and its
  -- message deleted; or the version is 2, and the message is dead-lettered and deleted, and no hook
  -- handled.
  pub batch_takes_version_1 :
      (m : SqsMessage) (s : Batch) (js : JetStream.World) (body : Bytes)
      → IsMessage w.reader.rt msg
      → w.reader.rt.parse_json (text_or_empty m.body) ≡ some (obj (wire msg))
      → ReadsBase64 w.reader
      → Takes
      → contains (group_of m) s.blocked ≡ false
      → any (same_value (some (str msg.id))) s.processed ≡ false
      → JetStream.resolve_body (beside w.reader js) msg ≡ ok body
      → ((msg.v ≡ 1)
          × (process_one w m s ≡ (
            record s {
              processed = some (str msg.id) ∷ s.processed;
              log = asked (delete_message m) true ∷ handled m (some (str msg.id)) ∷ s.log;
            },
            none,
          )))
        ⊎ ((msg.v ≡ 2)
            × (process_one w m s ≡ (
              record s {
                log = asked (delete_message m) true ∷ asked (send_message m permanent) true ∷ s.log;
              },
              none,
            )))
  batch_takes_version_1 m s js body good sent reads takes free fresh got =
      elim (Bool-cases (eqb msg.v 1)) [
        | inl one ↦ inl (
          ground (arith, one),
          accepted m s body takes free fresh (parse-wire m true good sent one) (
              handled_body-wire body
                ((resolve_body_agrees w.reader js msg good reads w.sqs).1 ∙ ap claim_result got)),
        )
        | inr other ↦ inr (
          ground (arith, other, good.version.0, good.version.1),
          refused m s takes free (parse-wire m false good sent other),
        )
      ]
