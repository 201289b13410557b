-- ===== src/Message/Body/Laws.antt =====
-- What the checks on a message's body establish.
use ankusa.Prelude.{
  ℕ, ◌≡◌, refl, ◌⊎◌, inl, inr, Option, none, some, Text, Bytes, length, text_eq_sound, Result, ok,
  err, arith, Bool-cases, bind-eq-ok, require-eq-ok, eqb,
}
use ankusa.Json.{Json, str}
use ankusa.Runtime.{Runtime}
use ankusa.Base64.{decode_base64, to_base64}
use ankusa.Base64.Laws.{IsBytes, decode_base64-IsBytes}
use ankusa.ClaimCheck.Errors.{ClaimCheckError}
use ankusa.Message.Errors.{size_mismatch, invalid}
use ankusa.ClaimCheck.Ref.{ParsedClaimRef, parse_claim_ref}
use ankusa.Message.Body.{
  BodyForm, has_value, check_integrity, decode_inline, decode_claim, decode_body, check_tenant,
  inline_form, claim_form,
}

-- An inline body: its bytes, their base64, and the declared size and digest agree.
pub record IsInline (rt : Runtime) (size : ℕ) (sha256 : Option Text) (form : BodyForm)
    : Type 0 where
  pub content : Bytes
  pub body : form.body ≡ some content
  pub encoded : form.encoded_body ≡ some (to_base64 content)
  pub no_claim : form.claim ≡ none
  pub no_ref : form.claim_ref ≡ none
  pub in_bytes : IsBytes content
  pub sized : length content ≡ size
  pub intact : (t : Text) → sha256 ≡ some t → rt.sha256_hex content ≡ t

-- A claim: its ref parses and there is a digest to redeem it with.
pub record IsClaim (sha256 : Option Text) (form : BodyForm) : Type 0 where
  pub urn : Text
  pub ref : ParsedClaimRef
  pub digest : Text
  pub no_body : form.body ≡ none
  pub no_encoded : form.encoded_body ≡ none
  pub claim : form.claim ≡ some urn
  pub claim_ref : form.claim_ref ≡ some ref
  pub parses : parse_claim_ref urn ≡ ok ref
  pub digested : sha256 ≡ some digest

module _ (rt : Runtime) where
  check_integrity_sound :
      (sha256 : Option Text) (body : Bytes)
      → check_integrity rt sha256 body ≡ ok tt
      → (t : Text) → sha256 ≡ some t
      → rt.sha256_hex body ≡ t
  unfolding check_integrity
  check_integrity_sound none body h t e = cc
  check_integrity_sound (some s) body h t e = ground (arith, text_eq_sound (rt.sha256_hex body) s)

  inline_form_sound :
      (size : ℕ) (sha256 : Option Text) (o : Option Bytes) (form : BodyForm)
      → ((s : Bytes) → o ≡ some s → IsBytes s)
      → inline_form rt size sha256 o ≡ ok form
      → IsInline rt size sha256 form
  unfolding inline_form
  inline_form_sound size sha256 none form in_bytes h = cc
  inline_form_sound size sha256 (some content) form in_bytes h =
      let (sized, h') = require-eq-ok (eqb (length content) size) (invalid size_mismatch) _ h in
      let (_, intact, done) = bind-eq-ok (check_integrity rt sha256 content) _ h' in
      record {
        content = content;
        body = ground (arith, done);
        encoded = ground (arith, done);
        no_claim = ground (arith, done);
        no_ref = ground (arith, done);
        in_bytes = in_bytes content refl;
        sized = ground (arith, sized);
        intact = check_integrity_sound sha256 content intact;
      }

  decode_inline_sound :
      (size : ℕ) (sha256 : Option Text) (j : Option Json) (form : BodyForm)
      → decode_inline rt size sha256 j ≡ ok form
      → IsInline rt size sha256 form
  unfolding decode_inline
  decode_inline_sound size sha256 (some (str s)) form h =
      inline_form_sound size sha256 (decode_base64 s) form (decode_base64-IsBytes s) h
  decode_inline_sound size sha256 (some _) form h = cc
  decode_inline_sound size sha256 none form h = cc

  claim_form_sound :
      (urn : Text) (sha256 : Option Text) (r : Result ClaimCheckError ParsedClaimRef)
      (form : BodyForm)
      → parse_claim_ref urn ≡ r
      → claim_form urn sha256 r ≡ ok form
      → IsClaim sha256 form
  unfolding claim_form
  claim_form_sound urn sha256 (err e) form p h = cc
  claim_form_sound urn none (ok ref) form p h = cc
  claim_form_sound urn (some digest) (ok ref) form p h = record {
    urn = urn;
    ref = ref;
    digest = digest;
    no_body = ground arith;
    no_encoded = ground arith;
    claim = ground arith;
    claim_ref = ground arith;
    parses = p;
    digested = refl;
  }

  decode_claim_sound :
      (sha256 : Option Text) (j : Option Json) (form : BodyForm)
      → decode_claim sha256 j ≡ ok form
      → IsClaim sha256 form
  unfolding decode_claim
  decode_claim_sound sha256 (some (str s)) form h =
      claim_form_sound s sha256 (parse_claim_ref s) form refl h
  decode_claim_sound sha256 (some _) form h = cc
  decode_claim_sound sha256 none form h = cc

  -- A decoded body is inline or a claim.
  pub decode_body_sound :
      (size : ℕ) (sha256 : Option Text) (b c : Option Json) (form : BodyForm)
      → decode_body rt size sha256 b c ≡ ok form
      → IsInline rt size sha256 form ⊎ IsClaim sha256 form
  unfolding decode_body
  decode_body_sound size sha256 b c form h = elim (Bool-cases (has_value b)) [
    | inl has_body ↦ inl (decode_inline_sound size sha256 b form (ground arith))
    | inr no_body ↦ inr (decode_claim_sound sha256 c form (ground arith))
  ]

pub check_tenant_sound :
    (tenant_id : Option Text) (ref : ParsedClaimRef)
    → check_tenant tenant_id (some ref) ≡ ok tt
    → (t : Text) → tenant_id ≡ some t
    → ref.tenant_id ≡ t
unfolding check_tenant
check_tenant_sound none ref h t e = cc
check_tenant_sound (some s) ref h t e = ground (arith, text_eq_sound ref.tenant_id s)
