-- ===== src/Worker/Wired/SameHook.antt =====
-- One message in its wire form, delivered by each of the brokers: what the JetStream consumer, the
-- RabbitMQ worker, the fleet consumer and the worker of examples/event-routing make of it.
use mathlib.Core.Option.{some-injective}
use ankusa.Prelude.{
  [], ◌≡◌, refl, sym, subst, ap, ◌∙◌, true, false, none, some, ◌∷◌, Text, Bytes, Result, ok, err,
  inl, inr, ℕ, append-nil, ok-injective, Option,
}
use ankusa.Json.{str, obj, get}
use ankusa.Runtime.{Input, bytes}
use ankusa.Message.Decode.{Message, decode_message, decode_parsed}
use ankusa.Message.Decode.Sound.{IsMessage}
use ankusa.Message.Keys.{message, idempotency_key, base_key, replay_suffix}
use ankusa.Message.Wire.{wire, text_json}
use ankusa.Message.Wire.RoundTrip.{decode_object-wire}
use ankusa.EventRouting.Worker.{each_message, print_hook, line_of}
use ankusa.Worker.Raw.{Failure, Reader, claim_result}
use ankusa.Worker.Rabbit
use ankusa.Worker.Rabbit.{Fetched, settle}
use ankusa.Worker.Rabbit.Laws.{handle_hook_complete}
use ankusa.Worker.Fleet
use ankusa.Worker.Fleet.{Entry, Row, Table, new_row, read, upsert}
use ankusa.Worker.Fleet.Table.{lookup_row}
use ankusa.Worker.Fleet.Table.Laws.{upsert-new}
use ankusa.Worker.JetStream.{
  World, Delivery, Consumer, acked, announced, announcement, has_key, remember, handle,
  handle_message, handle_body, handle_key, after, resolve_body,
}
use ankusa.Worker.JetStream.Intact.{resolve_body_iff}
use ankusa.Worker.Wired.{ReadsBase64, wire-IsPrintable, beside, resolve_body_agrees, bytes_of}

-- The bytes are a message's wire form, read as UTF-8 and as JSON in either of the two ways that the
-- workers read them; and the database driver binds a string as it is.
pub record IsSent (fw : Fleet.World) (content : Bytes) (msg : Message) : Type 0 where
  pub sdk : fw.reader.rt.parse_json (fw.reader.rt.decode_utf8 content) ≡ some (obj (wire msg))
  pub raw : fw.reader.rt.parse_json (fw.reader.utf8_text content) ≡ some (obj (wire msg))
  pub base64 : ReadsBase64 fw.reader
  pub binds : (t : Text) → fw.param (str t) ≡ some t

-- A body that is to be had has the message's digest.
body_digest :
    (w : World) (msg : Message) (body : Bytes) (t : Text) (input : Input)
    → decode_message w.rt input ≡ ok msg
    → msg.sha256 ≡ some t
    → resolve_body w msg ≡ ok body
    → w.rt.sha256_hex body ≡ t
body_digest w msg body t input decoded digested got =
    elim ((resolve_body_iff w msg body input decoded).0 got) [
      | inl i ↦ i.intact t digested
      | inr i ↦ i.redeemed.intact ∙ some-injective i.sha256 t (sym i.digested ∙ digested)
    ]

module _ (w : World) where
  -- A new hook whose body is to be had, and whose announcement NATS answers.
  consumed :
      (m : Delivery) (msg : Message) (s : Consumer) (body : Bytes)
      → decode_message w.rt (bytes m.content) ≡ ok msg
      → has_key (idempotency_key (message msg) false) s.seen ≡ false
      → resolve_body w msg ≡ ok body
      → w.takes_announcement s.log ≡ true
      → handle w m s ≡ record {
        seen = remember (idempotency_key (message msg) false) s.seen;
        log =
            acked
            ∷ announced (announcement w msg (idempotency_key (message msg) false) false s.log) true
            ∷ s.log;
      }
  unfolding handle
  consumed m msg s body decoded fresh got taken =
      let key : Text = idempotency_key (message msg) false in
      ap (handle_message w m s) decoded
      ∙ (ap (handle_key w m msg key s) fresh
          ∙ (ap (handle_body w m msg key s) got ∙ ap (after w m msg key s false) taken))

fetched_agrees :
    (x : Result Failure Fetched) (body : Bytes)
    → bytes_of x ≡ ok body
    → (via : Text) × (x ≡ ok (record { body = body; via = via }))
fetched_agrees (ok f) body h =
    (f.via, ap (λ (b : Bytes). ok (record { body = b; via = f.via })) (ok-injective f.body body h))
fetched_agrees (err e) body h = absurd cc

module _ (fw : Fleet.World) (w : World) where
  decode_sent :
      (content : Bytes) (msg : Message) (t : Text)
      → IsMessage fw.reader.rt msg
      → msg.sha256 ≡ some t
      → IsSent fw content msg
      → decode_message fw.reader.rt (bytes content) ≡ ok msg
  unfolding decode_message decode_parsed
  decode_sent content msg t good e sent = rw sent.sdk (decode_object-wire fw.reader.rt msg t good e)

  decode_raw_sent :
      (content : Bytes) (msg : Message)
      → IsSent fw content msg
      → Rabbit.decode fw.reader content ≡ ok (wire msg)
  unfolding Rabbit.decode
  decode_raw_sent content msg sent = rw sent.raw refl

  -- A text or `null` is bound as it is.
  bound_text :
      (binds : (t : Text) → fw.param (str t) ≡ some t) (o : Option Text)
      → Fleet.bound fw (some (text_json o)) ≡ o
  unfolding text_json
  bound_text binds none = refl
  bound_text binds (some t) = binds t

  -- The row of a wire form with a key of its own.
  abbrev pub entry : Message → Text → Bytes → (via : Text) → Entry
  entry msg key body via = record {
    key = key;
    ankusa_id = msg.id;
    source_id = msg.source_id;
    tenant_id = msg.tenant_id;
    body = body;
    body_sha256 = fw.reader.rt.sha256_hex body;
    via = via;
  }

  entry_of-wire :
      (binds : (t : Text) → fw.param (str t) ≡ some t) (msg : Message) (key : Text) (f : Fetched)
      → msg.idempotency_key ≡ some key
      → fw.can_hold (entry msg key f.body f.via) ≡ true
      → Fleet.entry_of fw (wire msg) f ≡ ok (entry msg key f.body f.via)
  unfolding Fleet.entry_of wire get text_json
  entry_of-wire binds msg key f e room =
      rw (e, binds key, binds msg.id, binds msg.source_id, bound_text binds msg.tenant_id, room)
        refl

  written :
      (content : Bytes) (msg : Message) (key body routing_key : Text)
      → IsSent fw content msg
      → msg.idempotency_key ≡ some key
      → bytes_of (Rabbit.resolve_body fw.reader (wire msg)) ≡ ok body
      → ((via : Text) → fw.can_hold (entry msg key body via) ≡ true)
      → (settle fw.reader routing_key content ≡ Rabbit.acked)
        × ((via : Text) × (read fw content ≡ ok (entry msg key body via)))
  unfolding settle read
  written content msg key body routing_key sent e h room =
      let (via, got) = fetched_agrees (Rabbit.resolve_body fw.reader (wire msg)) body h in
      let decoded = decode_raw_sent content msg sent in
      let kept =
        entry_of-wire sent.binds msg key (record { body = body; via = via }) e (room via) in
      let (lines, printed) =
        handle_hook_complete fw.reader (wire msg) routing_key (record { body = body; via = via })
          (wire-IsPrintable fw.reader msg) in
      (rw (decoded, got, printed) refl, (via, rw (decoded, got, kept) refl))

  own_key :
      (msg : Message) (c : ℕ) (s : Text)
      → msg.idempotency_key ≡ some (c ∷ s)
      → idempotency_key (message msg) false ≡ c ∷ s
  unfolding idempotency_key base_key replay_suffix
  own_key msg c s e = rw e (append-nil (c ∷ s))

  -- Let the bytes be the wire form of a message that is as `decodeMessage` leaves one, with a digest
  -- and a key that is not empty, whose body is to be had. Then the JetStream consumer, to which the key
  -- is new and NATS answers, announces the hook under this key and acknowledges it; the RabbitMQ worker
  -- acknowledges it; the fleet consumer, whose database driver binds strings as they are, and whose
  -- database can store the values and has no row at the key, writes there a row of one delivery with
  -- the same id, the same body, and the message's digest; and the worker of examples/event-routing
  -- prints its line.
  pub same_hook :
      (m : Delivery) (msg : Message) (s : Consumer) (body t : Text) (c : ℕ)
      (key topic routing_key : Text) (table : Table)
      → IsMessage fw.reader.rt msg
      → IsSent fw m.content msg
      → msg.sha256 ≡ some t
      → msg.idempotency_key ≡ some (c ∷ key)
      → resolve_body (beside fw.reader w) msg ≡ ok body
      → has_key (c ∷ key) s.seen ≡ false
      → w.takes_announcement s.log ≡ true
      → ((via : Text) → fw.can_hold (entry msg (c ∷ key) body via) ≡ true)
      → lookup_row (c ∷ key) table ≡ none
      → (handle (beside fw.reader w) m s ≡ record {
        seen = remember (c ∷ key) s.seen;
        log =
            acked
            ∷ announced (announcement (beside fw.reader w) msg (c ∷ key) false s.log) true
            ∷ s.log;
      })
        × (settle fw.reader routing_key m.content ≡ Rabbit.acked)
        × ((e : Entry) × (u : Table) × (row : Row) × (read fw m.content ≡ ok e)
            × (upsert e table ≡ some u)
            × (lookup_row (c ∷ key) u ≡ some row)
            × (row.deliveries ≡ 1)
            × (row.hook_ids ≡ msg.id ∷ [])
            × (row.ankusa_id ≡ msg.id)
            × (row.body ≡ body)
            × (row.body_sha256 ≡ t))
        × (each_message fw.reader.rt fw.reader.utf8_text topic (some m.content)
            ≡ ok (line_of fw.reader.utf8_text topic msg ∷ []))
  unfolding each_message
  same_hook m msg s body t c key topic routing_key table good sent digested keyed got fresh taken
        room new =
      let r : Reader = fw.reader in
      let decoded = decode_sent m.content msg t good digested sent in
      let same = own_key msg c key keyed in
      let told =
        consumed (beside r w) m msg s body decoded (ap (λ k. has_key k s.seen) same ∙ fresh) got
          taken in
      let raw =
        (resolve_body_agrees r w msg good sent.base64 (λ log q. true)).0 ∙ ap claim_result got in
      let (settled, (via, values)) =
        written m.content msg (c ∷ key) body routing_key sent keyed raw room in
      let (u, stored, found) = upsert-new (entry msg (c ∷ key) body via) table new in
      (
        subst
            (λ k. handle (beside r w) m s ≡ record {
              seen = remember k s.seen;
              log = acked ∷ announced (announcement (beside r w) msg k false s.log) true ∷ s.log;
            })
            same told,
        settled,
        (
          entry msg (c ∷ key) body via,
          u,
          new_row (entry msg (c ∷ key) body via),
          values,
          stored,
          found,
          refl,
          refl,
          refl,
          refl,
          body_digest (beside r w) msg body t (bytes m.content) decoded digested got,
        ),
        ap (print_hook r.utf8_text topic) decoded,
      )
