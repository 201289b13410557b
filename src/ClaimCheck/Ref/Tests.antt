-- ===== src/ClaimCheck/Ref/Tests.antt =====
-- Refs of both versions.
use ankusa.Prelude.{◌≡◌, refl, codes, ok, err, none, arith}
use ankusa.Regex.{exec}
use ankusa.Fixtures.{claim_urn}
use ankusa.ClaimCheck.Ref.RoundTrip.{IsClaimRef, urn, urn-parse_claim_ref, parse_claim_ref-urn}
use ankusa.ClaimCheck.Errors.{invalid_claim_ref}
use ankusa.ClaimCheck.Ref.{
  parse_claim_ref, is_digit, is_name_char, is_octal, is_crockford, is_nonzero_digit, ParsedClaimRef,
}

ref_v1 :
    parse_claim_ref (codes "urn:ankusa:claim:v1:acme:01ARZ3NDEKTSV4RRFFQ69G5FAV")
    ≡ ok (record {
      tenant_id = codes "acme";
      claim_id = codes "01ARZ3NDEKTSV4RRFFQ69G5FAV";
      path = codes "/v1/claims/acme/01ARZ3NDEKTSV4RRFFQ69G5FAV";
      proof = none;
    })
unfolding parse_claim_ref exec is_digit is_name_char is_octal is_crockford is_nonzero_digit
ref_v1 = refl

-- A letter that Crockford's alphabet lacks.
ref_bad :
    parse_claim_ref (codes "urn:ankusa:claim:v1:acme:01ARZ3NDEKTSV4RRFFQ69G5FAU")
    ≡ err invalid_claim_ref
unfolding parse_claim_ref exec is_digit is_name_char is_octal is_crockford is_nonzero_digit
ref_bad = refl

abbrev acme : ParsedClaimRef
acme = record {
  tenant_id = codes "acme";
  claim_id = codes "01ARZ3NDEKTSV4RRFFQ69G5FAV";
  path = codes "/v1/claims/acme/01ARZ3NDEKTSV4RRFFQ69G5FAV";
  proof = none;
}

acme-IsClaimRef : IsClaimRef acme
unfolding is_name_char is_octal is_crockford
acme-IsClaimRef = record {
  tenant = (refl, omega arith, omega arith);
  claim = (codes "0", codes "1ARZ3NDEKTSV4RRFFQ69G5FAV", refl, refl, refl, refl, refl);
  proof = tt;
  path = refl;
}

urn-parse_claim_ref_example : IsClaimRef acme × (urn acme.tenant_id acme.claim_id none ≡ claim_urn)
urn-parse_claim_ref_example = urn-parse_claim_ref claim_urn acme ref_v1

parse_claim_ref-urn_example : parse_claim_ref (urn acme.tenant_id acme.claim_id none) ≡ ok acme
parse_claim_ref-urn_example = parse_claim_ref-urn acme acme-IsClaimRef
