-- ===== src/Worker/Wired/Tests.antt =====
-- An inline message with a key, in its wire form.
use mathlib.Core.Option.{some-injective}
use ankusa.Prelude.{
  not, any, eqb, ◌⊎◌, subst, ◌≡◌, refl, true, false, none, some, [], ◌∷◌, codes, Text, ok, arith,
  inl, Option, Bytes,
}
use ankusa.Base64.{to_base64, letter, decode_base64}
use ankusa.Base64.Laws.{decode_base64-to_base64}
use ankusa.Json.{Json, str, obj}
use ankusa.Http.{failed}
use ankusa.Fixtures.{runtime, digest, inline_message}
use ankusa.Message.Fields.{is_sha256}
use ankusa.Message.Decode.{Message}
use ankusa.Message.Decode.Sound.{IsMessage}
use ankusa.Message.Wire.{wire}
use ankusa.EventRouting.Worker.{each_message, line_of}
use ankusa.Worker.Raw.{permanent, Reader, claim_result}
use ankusa.Worker.Rabbit
use ankusa.Worker.Rabbit.{settle}
use ankusa.Worker.Sqs
use ankusa.Worker.Sqs.{SqsMessage, Batch, asked, handled, delete_message, send_message}
use ankusa.Worker.Sqs.Run.{process_one}
use ankusa.Worker.Wired.Batch.{batch_takes_version_1}
use ankusa.Worker.Fleet
use ankusa.Worker.Fleet.{Entry, Row, Table, read, upsert}
use ankusa.Worker.Fleet.Table.{lookup_row}
use ankusa.Worker.JetStream.{
  Consumer, acked, announced, announcement, remember, resolve_body, handle,
}
use ankusa.Worker.JetStream.Tests.{nats, delivery}
use ankusa.Worker.Wired.{beside, bytes_of, resolve_body_agrees}
use ankusa.Worker.Wired.SameHook.{IsSent, same_hook}

abbrev keyed : Message
keyed = record inline_message { idempotency_key = some (codes "k1") }

-- `Buffer.from` as the SDK's own reading of base64.
abbrev buffer : Json → Option Bytes
buffer (str t) = decode_base64 t
buffer _ = none

abbrev keyed_reader : Reader
keyed_reader = record {
  rt = record runtime { parse_json = λ t. some (obj (wire keyed)) };
  gateway = λ r. failed;
  number_text = λ n. [];
  object_text = λ v. some [];
  buffer_from = buffer;
  utf8_text = λ b. b;
}

keyed-IsMessage : IsMessage keyed_reader.rt keyed
unfolding to_base64 letter is_sha256
keyed-IsMessage = record {
  version = (omega arith, omega arith);
  identified = cc;
  digest = λ t e. subst (λ d. is_sha256 d ≡ true) (some-injective digest t e) refl;
  status = λ v e. cc;
  form = inl (record {
    content = codes "hi";
    body = refl;
    encoded = refl;
    no_claim = refl;
    no_ref = refl;
    in_bytes = omega arith;
    sized = refl;
    intact = λ t e. some-injective digest t e;
  });
}

resolve_body_agrees_example :
    (bytes_of (Rabbit.resolve_body keyed_reader (wire keyed))
      ≡ claim_result (resolve_body (beside keyed_reader nats) keyed))
    × (Sqs.resolve_body (record { reader = keyed_reader; sqs = λ log q. true }) (wire keyed)
        ≡ claim_result (resolve_body (beside keyed_reader nats) keyed))
resolve_body_agrees_example =
    resolve_body_agrees keyed_reader nats keyed keyed-IsMessage decode_base64-to_base64
      (λ log q. true)

abbrev text_param : Json → Option Text
text_param (str t) = some t
text_param _ = none

abbrev table_world : Fleet.World
table_world = record {
  reader = keyed_reader;
  param = text_param;
  can_hold = λ e. not (any (eqb 0) e.key);
}

keyed-IsSent : IsSent table_world [] keyed
keyed-IsSent = record {
  sdk = refl;
  raw = refl;
  base64 = decode_base64-to_base64;
  binds = λ t. refl;
}

abbrev idle : Consumer
idle = record { seen = []; log = [] }

resolve_body-keyed : resolve_body (beside keyed_reader nats) keyed ≡ ok (codes "hi")
unfolding resolve_body
resolve_body-keyed = refl

same_hook_example :
    (handle (beside keyed_reader nats) delivery idle ≡ record {
      seen = remember (codes "k1") [];
      log =
          acked
          ∷ announced (announcement (beside keyed_reader nats) keyed (codes "k1") false []) true
          ∷ [];
    })
    × (settle keyed_reader (codes "k") [] ≡ Rabbit.acked)
    × ((e : Entry) × (u : Table) × (row : Row) × (read table_world [] ≡ ok e)
        × (upsert e [] ≡ some u)
        × (lookup_row (codes "k1") u ≡ some row)
        × (row.deliveries ≡ 1)
        × (row.hook_ids ≡ codes "01a0" ∷ [])
        × (row.ankusa_id ≡ codes "01a0")
        × (row.body ≡ codes "hi")
        × (row.body_sha256 ≡ digest))
    × (each_message keyed_reader.rt (λ b. b) (codes "events") (some [])
        ≡ ok (line_of (λ b. b) (codes "events") keyed ∷ []))
same_hook_example =
    same_hook table_world nats delivery keyed idle (codes "hi") digest b'k' (codes "1")
      (codes "events") (codes "k") [] keyed-IsMessage keyed-IsSent refl refl resolve_body-keyed refl
      refl (λ via. refl) refl

-- The message is of version 2.
abbrev sqs_world : Sqs.World
sqs_world = record { reader = keyed_reader; sqs = λ log c. true }

abbrev keyed_sqs : SqsMessage
keyed_sqs = record { body = none; group = none; receives = none; receipt = none; message_id = none }

abbrev empty_batch : Batch
empty_batch = record { processed = []; blocked = []; log = [] }

batch_takes_version_1_example :
    ((keyed.v ≡ 1)
      × (process_one sqs_world keyed_sqs empty_batch ≡ (
        record {
          processed = some (str (codes "01a0")) ∷ [];
          blocked = [];
          log =
              asked (delete_message keyed_sqs) true
              ∷ handled keyed_sqs (some (str (codes "01a0")))
              ∷ [];
        },
        none,
      )))
    ⊎ ((keyed.v ≡ 2)
        × (process_one sqs_world keyed_sqs empty_batch ≡ (
          record {
            processed = [];
            blocked = [];
            log =
                asked (delete_message keyed_sqs) true
                ∷ asked (send_message keyed_sqs permanent) true
                ∷ [];
          },
          none,
        )))
batch_takes_version_1_example =
    batch_takes_version_1 sqs_world keyed keyed_sqs empty_batch nats (codes "hi") keyed-IsMessage
      refl decode_base64-to_base64 (λ log c. refl) refl refl resolve_body-keyed
