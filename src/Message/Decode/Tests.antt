-- ===== src/Message/Decode/Tests.antt =====
-- Decoding on concrete input.
use ankusa.Prelude.{◌≡◌, refl, ok, err, [], text_eq}
use ankusa.Json.{get, prop, null, end}
use ankusa.Runtime.{text}
use ankusa.Fixtures.{runtime, inline_message}
use ankusa.Message.Errors.{invalid, unsupported_version}
use ankusa.Message.Fields.{
  decode_version, decode_id, decode_source_id, decode_received_at, decode_size, check_nullable,
  decode_headers, decode_sha256, is_sha256, decode_verification,
}
use ankusa.Message.Body.{decode_body, check_tenant}
use ankusa.Base64.{decode_base64, is_base64, is_base64_char, from_base64, to_base64, sextet, letter}
use ankusa.Message.Decode.{decode_message, decode_object}
use ankusa.Message.Decode.Sound.{IsMessage, decode_message-IsMessage}

unfoldable pub decoder : Unit {0}
unfolding decode_message get decode_version decode_id decode_source_id decode_received_at
    decode_size check_nullable decode_headers decode_sha256 is_sha256 decode_verification
    decode_body check_tenant decode_base64 is_base64 is_base64_char from_base64 to_base64 sextet
    letter text_eq
decoder = tt

pub decode_inline_message : decode_message runtime (text []) ≡ ok inline_message
unfolding decoder
decode_inline_message = refl

-- The version is checked before the other fields.
decode_no_version : decode_object runtime (prop "id" null end) ≡ err (invalid unsupported_version)
unfolding decoder
decode_no_version = refl

decode_message-IsMessage_example : IsMessage runtime inline_message
decode_message-IsMessage_example =
    decode_message-IsMessage runtime (text []) inline_message decode_inline_message
