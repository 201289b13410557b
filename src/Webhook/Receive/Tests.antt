-- ===== src/Webhook/Receive/Tests.antt =====
-- A signed delivery, and one to a receiver without a secret.
use ankusa.Prelude.{◌≡◌, refl, ok, some, none, codes, [], ◌∷◌, true}
use ankusa.Runtime.{text}
use ankusa.Fixtures.{runtime}
use ankusa.Message.Fields.{is_sha256}
use ankusa.Webhook.Headers.{
  parse_headers, parse_received_at, parse_body_sha256, parse_verification_headers,
}
use ankusa.Webhook.Signature.{rotation}
use ankusa.Webhook.Signature.Tests.{signed_headers, verifier}
use ankusa.Webhook.Receive.{ReceiveDeliveryOptions, ReceivedDelivery, receive_delivery}
use ankusa.Webhook.Receive.Laws.{IsAccepted, receive_delivery_sound}

abbrev signed : ReceiveDeliveryOptions
signed = record {
  headers = signed_headers;
  body = text (codes "hi");
  secrets = some (rotation (codes "k" ∷ []));
  allow_unsigned = none;
  tolerance_seconds = none;
  now = some 101;
}

abbrev received : ReceivedDelivery
received = record {
  hook = record {
    id = codes "01a0";
    source = [];
    tenant = none;
    content_type = none;
    dedupe_key = none;
    replay_id = none;
    idempotency_key = none;
    received_at = none;
    body_sha256 = none;
    verification = none;
  };
  verified = true;
}

receive_signed : receive_delivery runtime 0 signed ≡ ok received
unfolding receive_delivery verifier parse_headers parse_received_at parse_body_sha256
    parse_verification_headers is_sha256
receive_signed = refl

receive_delivery_sound_example :
    (parse_headers runtime signed_headers ≡ ok received.hook) × IsAccepted runtime 0 signed true
receive_delivery_sound_example = receive_delivery_sound runtime 0 signed received receive_signed
