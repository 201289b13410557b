-- ===== src/Message/Wire/Tests.antt =====
-- Messages with and without a digest, and what becomes of their wire forms.
use ankusa.Prelude.{◌≡◌, refl, ok, err, none, codes, [], inl, arith}
use ankusa.Base64.{to_base64, letter}
use ankusa.Runtime.{text}
use ankusa.Fixtures.{runtime, inline_message, digest}
use ankusa.Message.Errors.{invalid_at}
use ankusa.Message.Decode.{Message, decode_object}
use ankusa.Message.Decode.Sound.{IsMessage, decode_message-IsMessage}
use ankusa.Message.Decode.Tests.{decode_inline_message}
use ankusa.Message.Wire.{wire}
use ankusa.Message.Wire.RoundTrip.{decode_object-wire, decode_object-wire_no_digest}

decode_object-wire_example : decode_object runtime (wire inline_message) ≡ ok inline_message
decode_object-wire_example =
    decode_object-wire runtime inline_message digest
      (decode_message-IsMessage runtime (text []) inline_message decode_inline_message) refl

abbrev undigested : Message
undigested = record inline_message { sha256 = none }

undigested-IsMessage : IsMessage runtime undigested
unfolding to_base64 letter
undigested-IsMessage = record {
  version = omega arith;
  identified = cc;
  digest = λ t e. cc;
  status = λ v e. cc;
  form = inl (record {
    content = codes "hi";
    body = refl;
    encoded = refl;
    no_claim = refl;
    no_ref = refl;
    in_bytes = omega arith;
    sized = refl;
    intact = λ t e. cc;
  });
}

decode_object-wire_no_digest_example :
    decode_object runtime (wire undigested) ≡ err (invalid_at "sha256")
decode_object-wire_no_digest_example =
    decode_object-wire_no_digest runtime undigested undigested-IsMessage refl
