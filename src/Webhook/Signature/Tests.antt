-- ===== src/Webhook/Signature/Tests.antt =====
-- A delivery signed with one of two secrets.
use ankusa.Prelude.{◌≡◌, ◌↔◌, refl, ok, some, none, codes, [], ◌∷◌, text_eq}
use ankusa.Runtime.{text}
use ankusa.Fixtures.{runtime}
use ankusa.ClaimCheck.Ref.{is_digit}
use ankusa.Base64.{is_base64, is_base64_char, from_base64, sextet}
use ankusa.Webhook.Headers.{single, HeaderSource, object, lower_headers, get, non_empty}
use ankusa.Webhook.Signature.{
  rotation, VerifySignatureOptions, VerifiedSignature, decode_secrets, required, split_spaces,
  candidates, is_matched, verify_signature,
}
use ankusa.Webhook.Signature.Laws.{IsSigned, verify_signature_iff}

abbrev pub signed_headers : HeaderSource
signed_headers = object (
    ("webhook-id", single (codes "m"))
    ∷ ("webhook-timestamp", single (codes "100"))
    ∷ ("webhook-signature", single (codes "v1,other v1,km.100.hi"))
    ∷ ("X-Ankusa-Id", single (codes "01a0"))
    ∷ [])

abbrev pub signed_options : VerifySignatureOptions
signed_options = record {
  headers = signed_headers;
  body = text (codes "hi");
  secrets = rotation (codes "whsec_aGk=" ∷ codes "k" ∷ []);
  tolerance_seconds = none;
  now = some 400;
}

abbrev verified : VerifiedSignature
verified = record { id = codes "m"; timestamp = 100 }

unfoldable pub verifier : Unit {0}
unfolding verify_signature decode_secrets required split_spaces candidates is_matched lower_headers
    get non_empty is_base64 is_base64_char from_base64 sextet is_digit text_eq
verifier = tt

-- 300 seconds is still within the default tolerance.
verify_signed : verify_signature runtime 0 signed_options ≡ ok verified
unfolding verifier
verify_signed = refl

verify_signature_iff_example :
    (verify_signature runtime 0 signed_options ≡ ok verified)
    ↔ IsSigned runtime 0 signed_options verified
verify_signature_iff_example = verify_signature_iff runtime 0 signed_options verified
