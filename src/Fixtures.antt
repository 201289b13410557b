-- ===== src/Fixtures.antt =====
-- A small runtime and a message, for the tests: the digest of every text is one value, a signature is
-- the key before the signed bytes, and texts are their own bytes.
use ankusa.Prelude.{ℕ, ◌+◌, ◌-◌, ◌*◌, none, some, [], ◌∷◌, ◌++◌, Text, codes, ◌==◌, if◌then◌else◌}
use ankusa.Json.{null, number, str, obj, Props, end, prop, pos, whole}
use ankusa.Runtime.{Runtime}
use ankusa.Message.Decode.{Message}

abbrev pub digest : Text
digest = codes "aaaaaaaaaaaaaaaaaaaaaaaaaaaaaaaaaaaaaaaaaaaaaaaaaaaaaaaaaaaaaaaa"

abbrev pub claim_urn : Text
claim_urn = codes "urn:ankusa:claim:v1:acme:01ARZ3NDEKTSV4RRFFQ69G5FAV"

abbrev pub signed_urn : Text
signed_urn =
    codes
      "urn:ankusa:claim:v2:acme:01ARZ3NDEKTSV4RRFFQ69G5FAV:1700000000:sssssssssssssssssssssssssssssssssssssssssss"

-- An inline message of version 2, with a key that the decoder does not know.
abbrev pub raw_inline : Props
raw_inline = prop "v" (number (whole (pos 2))) (
    prop "id" (str (codes "01a0")) (
      prop "source_id" (str (codes "demo")) (
        prop "received_at" (number (whole (pos 7))) (
          prop "size" (number (whole (pos 2))) (
            prop "tenant_id" null (
              prop "sha256" (str digest)
                (prop "extra" null (prop "body_base64" (str (codes "aGk=")) end))))))))

abbrev pub inline_message : Message
inline_message = record {
  v = 2;
  id = codes "01a0";
  source_id = codes "demo";
  tenant_id = none;
  received_at = pos 7;
  content_type = none;
  size = 2;
  body_base64 = some (codes "aGk=");
  claim = none;
  sha256 = some digest;
  dedupe_key = none;
  replay_id = none;
  idempotency_key = none;
  headers = [];
  verification = none;
  traceparent = none;
  tracestate = none;
  instance_name = none;
  region = none;
  event_type = none;
  body = some (codes "hi");
}

abbrev decimal : ℕ → Text → ℕ
decimal n [] = n
decimal n (c ∷ s) = decimal (n * 10 + (c - b'0')) s

abbrev pub runtime : Runtime
runtime = record {
  parse_json = λ t. some (obj raw_inline);
  decode_utf8 = λ b. b;
  encode_utf8 = λ t. t;
  sha256_hex = λ b. digest;
  hmac_sha256_base64 = λ key signed. key ++ signed;
  to_lower_case = λ s. if s == "X-Ankusa-Id" then "x-ankusa-id" else s;
  to_number = λ t. decimal 0 t;
}
