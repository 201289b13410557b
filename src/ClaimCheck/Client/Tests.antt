-- ===== src/ClaimCheck/Client/Tests.antt =====
-- Redeeming from gateways that answer 200 and 429.
use ankusa.Prelude.{◌≡◌, ◌↔◌, refl, Bytes, ok, err, some, none, codes, true}
use ankusa.Regex.{exec}
use ankusa.Http.{Gateway, answered}
use ankusa.Fixtures.{runtime, digest, claim_urn}
use ankusa.Message.Fields.{is_sha256}
use ankusa.ClaimCheck.Errors.{claim_check_unavailable}
use ankusa.ClaimCheck.Ref.{
  ParsedClaimRef, parse_claim_ref, is_digit, is_name_char, is_octal, is_crockford, is_nonzero_digit,
}
use ankusa.ClaimCheck.Client.{redeem}
use ankusa.ClaimCheck.Client.Laws.{IsRedeemed, redeem_iff}

abbrev serving : Gateway Bytes
serving r = answered (record { content = some (codes "hi"); error = none; status = 200 })

abbrev busy : Gateway Bytes
busy r = answered (record { content = none; error = none; status = 429 })

abbrev parsed : ParsedClaimRef
parsed = record {
  tenant_id = codes "acme";
  claim_id = codes "01ARZ3NDEKTSV4RRFFQ69G5FAV";
  path = codes "/v1/claims/acme/01ARZ3NDEKTSV4RRFFQ69G5FAV";
  proof = none;
}

parse_urn : parse_claim_ref claim_urn ≡ ok parsed
unfolding parse_claim_ref exec is_digit is_name_char is_octal is_crockford is_nonzero_digit
parse_urn = refl

is_digest : is_sha256 digest ≡ true
unfolding is_sha256
is_digest = refl

redeem-busy : (redeem runtime busy claim_urn digest).0 ≡ err claim_check_unavailable
unfolding redeem parse_claim_ref exec is_digit is_name_char is_octal is_crockford is_nonzero_digit
    is_sha256
redeem-busy = refl

redeem_iff_example :
    ((redeem runtime serving claim_urn digest).0 ≡ ok (codes "hi"))
    ↔ IsRedeemed runtime serving claim_urn digest (codes "hi")
redeem_iff_example = redeem_iff runtime serving claim_urn digest (codes "hi")
