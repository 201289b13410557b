-- ===== src/Message/Body.antt =====
-- The body of a message: inline bytes or a claim-check ref, and the checks of message/index.ts on it.
pub mod Laws
use ankusa.Prelude.{
  ℕ, Bool, true, false, not, ◌&&◌, Option, none, some, Text, Bytes, length, eqb, text_eq,
  if◌then◌else◌, Result, ok, err, ◌>>◌, require,
}
use ankusa.Json.{Json, null, str}
use ankusa.Runtime.{Runtime}
use ankusa.Base64.{decode_base64, to_base64}
use ankusa.ClaimCheck.Errors.{ClaimCheckError}
use ankusa.ClaimCheck.Ref.{ParsedClaimRef, parse_claim_ref}
use ankusa.Message.Errors.{
  InvalidMessageError, ambiguous_body, missing_body, invalid_body_base64, size_mismatch, integrity,
  tenant_mismatch, invalid, invalid_at,
}

-- The variables `body`, `claimRef` and `encodedBody` of `decodeMessage`, and the `claim` that
-- `claimRef` was parsed from.
pub record BodyForm : Type 0 where
  pub body : Option Bytes
  pub encoded_body : Option Text
  pub claim : Option Text
  pub claim_ref : Option ParsedClaimRef

-- `value !== undefined && value !== null`
abbrev pub has_value : Option Json → Bool
has_value none = false
has_value (some null) = false
has_value (some _) = true

-- The digest is checked only when the message has one.
unfoldable pub check_integrity :
    Runtime → Option Text → Bytes → Result InvalidMessageError (Unit {0})
check_integrity rt none body = ok tt
check_integrity rt (some sha256) body =
    require (text_eq (rt.sha256_hex body) sha256) (invalid integrity)

-- The checks on the decoded body; `none` is text that is not base64.
unfoldable pub inline_form :
    Runtime → ℕ → Option Text → Option Bytes → Result InvalidMessageError BodyForm
unfolding check_integrity
inline_form rt size sha256 none = err (invalid invalid_body_base64)
inline_form rt size sha256 (some body) = do
  require (eqb (length body) size) (invalid size_mismatch)
  check_integrity rt sha256 body
  ok (record {
    body = some body;
    encoded_body = some (to_base64 body);
    claim = none;
    claim_ref = none;
  })

unfoldable pub decode_inline :
    Runtime → ℕ → Option Text → Option Json → Result InvalidMessageError BodyForm
unfolding inline_form
decode_inline rt size sha256 (some (str encoded)) =
    inline_form rt size sha256 (decode_base64 encoded)
decode_inline rt size sha256 _ = err (invalid invalid_body_base64)

-- The checks on a parsed ref; a ref that does not parse is an error of the field.
unfoldable pub claim_form :
    Text → Option Text → Result ClaimCheckError ParsedClaimRef → Result InvalidMessageError BodyForm
claim_form claim sha256 (err e) = err (invalid_at "claim")
claim_form claim none (ok ref) = err (invalid_at "sha256")
claim_form claim (some sha256) (ok ref) =
    ok (record { body = none; encoded_body = none; claim = some claim; claim_ref = some ref })

unfoldable pub decode_claim : Option Text → Option Json → Result InvalidMessageError BodyForm
unfolding claim_form
decode_claim sha256 (some (str claim)) = claim_form claim sha256 (parse_claim_ref claim)
decode_claim sha256 _ = err (invalid_at "claim")

-- Exactly one of `body_base64` and `claim`.
unfoldable pub decode_body :
    Runtime → ℕ → Option Text → Option Json → Option Json → Result InvalidMessageError BodyForm
unfolding decode_inline decode_claim
decode_body rt size sha256 body_base64 claim =
    if has_value body_base64 && has_value claim
    then err (invalid ambiguous_body)
    else if not (has_value body_base64) && not (has_value claim)
    then err (invalid missing_body)
    else if has_value body_base64
    then decode_inline rt size sha256 body_base64
    else decode_claim sha256 claim

-- A claim's tenant is the message's, if the message has one.
unfoldable pub check_tenant :
    Option Text → Option ParsedClaimRef → Result InvalidMessageError (Unit {0})
check_tenant (some tenant_id) (some ref) =
    require (text_eq ref.tenant_id tenant_id) (invalid tenant_mismatch)
check_tenant _ _ = ok tt
