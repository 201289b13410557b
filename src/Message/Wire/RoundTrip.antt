-- ===== src/Message/Wire/RoundTrip.antt =====
-- Decoding what a message serializes to.
use ankusa.Prelude.{
  ℕ, Bool, String, ◌≤◌, ◌≡◌, ◌≢◌, inl, inr, refl, true, Option, none, some, Text, List, [], ◌∷◌,
  Bytes, length, text_eq_refl, ok, err, arith, subst, sym,
}
use ankusa.Json.{bool, number, whole, pos, str, obj, get}
use ankusa.Runtime.{Runtime}
use ankusa.ClaimCheck.Ref.{ParsedClaimRef}
use ankusa.Message.Errors.{invalid_at}
use ankusa.Message.Fields.{
  Verification, decode_version, decode_id, decode_source_id, decode_received_at, decode_size,
  is_nullable_text, nullable_text, nullable_keys, check_nullable, decode_headers, decode_sha256,
  decode_verification, verification_of, is_sha256,
}
use ankusa.Message.Body.{BodyForm, decode_body, check_tenant, inline_form}
use ankusa.Message.Body.Laws.{IsInline, IsClaim}
use ankusa.Base64.{to_base64}
use ankusa.Base64.Laws.{decode_base64-to_base64}
use ankusa.Message.Decode.{Message, decode_object}
use ankusa.Message.Decode.Sound.{IsMessage, form_of}
use ankusa.Message.Wire.{text_json, headers_json, verification_json, wire}

decode_version-pos : (v : ℕ) → 1 ≤ v → v ≤ 2 → decode_version (some (number (whole (pos v)))) ≡ ok v
unfolding decode_version
decode_version-pos v l u = ground arith

decode_id-str : (t : Text) → t ≢ [] → decode_id (some (str t)) ≡ ok t
unfolding decode_id
decode_id-str [] h = absurd (h refl)
decode_id-str (c ∷ s) h = refl

nullable_text-json : (o : Option Text) → nullable_text (some (text_json o)) ≡ o
unfolding text_json
nullable_text-json none = refl
nullable_text-json (some t) = refl

is_nullable_text-json : (o : Option Text) → is_nullable_text (some (text_json o)) ≡ true
unfolding text_json
is_nullable_text-json none = refl
is_nullable_text-json (some t) = refl

check_nullable-wire : (m : Message) → check_nullable nullable_keys (wire m) ≡ ok tt
unfolding check_nullable get wire
check_nullable-wire m = simp is_nullable_text-json

decode_headers-json :
    (hs : List (String × Text)) → decode_headers (some (obj (headers_json hs))) ≡ ok hs
unfolding decode_headers headers_json
decode_headers-json [] = refl
decode_headers-json ((name, value) ∷ hs) = rw (decode_headers-json hs)

decode_sha256-json :
    (t : Text) → is_sha256 t ≡ true → decode_sha256 (some (text_json (some t))) ≡ ok (some t)
unfolding decode_sha256 text_json
decode_sha256-json t h = rw h

decode_sha256-null : decode_sha256 (some (text_json none)) ≡ err (invalid_at "sha256")
unfolding decode_sha256 text_json
decode_sha256-null = refl

verification_of-str :
    (s : Text) (flagged : Bool)
    → s ≢ []
    → verification_of (some (str s)) (some (bool flagged))
      ≡ ok (some (record { status = s; flagged = flagged }))
verification_of-str [] flagged h = absurd (h refl)
verification_of-str (c ∷ s) flagged h = refl

decode_verification-json :
    (o : Option Verification)
    → ((v : Verification) → o ≡ some v → v.status ≢ [])
    → decode_verification (some (verification_json o)) ≡ ok o
unfolding decode_verification verification_json get
decode_verification-json none h = refl
decode_verification-json (some v) h = verification_of-str v.status v.flagged (h v refl)

module _ (rt : Runtime) where
  inline_form_complete :
      (size : ℕ) (sha256 : Option Text) (content : Bytes)
      → length content ≡ size
      → ((t : Text) → sha256 ≡ some t → rt.sha256_hex content ≡ t)
      → inline_form rt size sha256 (some content)
        ≡ ok (record {
          body = some content;
          encoded_body = some (to_base64 content);
          claim = none;
          claim_ref = none;
        })
  unfolding inline_form
  inline_form_complete size none content sized intact = ground arith
  inline_form_complete size (some t) content sized intact =
      ground (arith, intact t refl, text_eq_refl t)

  decode_body-inline :
      (size : ℕ) (sha256 : Option Text) (form : BodyForm)
      → IsInline rt size sha256 form
      → decode_body rt size sha256
          (some (text_json form.encoded_body))
          (some (text_json form.claim))
        ≡ ok form
  unfolding decode_body text_json
  decode_body-inline size sha256 form i = ground (
    arith,
    decode_base64-to_base64 i.content i.in_bytes,
    inline_form_complete size sha256 i.content i.sized i.intact,
  )

  decode_body-claim :
      (size : ℕ) (sha256 : Option Text) (form : BodyForm)
      → IsClaim sha256 form
      → decode_body rt size sha256
          (some (text_json form.encoded_body))
          (some (text_json form.claim))
        ≡ ok form
  unfolding decode_body text_json
  decode_body-claim size sha256 form c = ground arith

  check_tenant_complete :
      (tenant_id : Option Text) (ref : ParsedClaimRef)
      → ((t : Text) → tenant_id ≡ some t → ref.tenant_id ≡ t)
      → check_tenant tenant_id (some ref) ≡ ok tt
  unfolding check_tenant
  check_tenant_complete none ref h = refl
  check_tenant_complete (some t) ref h = rw (h t refl, text_eq_refl t)

  check_tenant-none : (tenant_id : Option Text) → check_tenant tenant_id none ≡ ok tt
  unfolding check_tenant
  check_tenant-none none = refl
  check_tenant-none (some t) = refl

  -- The body of a message is decoded from its wire form, and passes the check of its tenant.
  form-wire :
      (m : Message)
      → IsMessage rt m
      → (ref : Option ParsedClaimRef) × (decode_body rt m.size m.sha256
            (some (text_json m.body_base64))
            (some (text_json m.claim))
          ≡ ok (form_of m ref))
        × (check_tenant m.tenant_id ref ≡ ok tt)
  form-wire m good = elim good.form [
    | inl i ↦
        (none, decode_body-inline m.size m.sha256 (form_of m none) i, check_tenant-none m.tenant_id)
    | inr c ↦ (
      some c.ref,
      decode_body-claim m.size m.sha256 (form_of m (some c.ref)) c.claimed,
      check_tenant_complete m.tenant_id c.ref c.own_tenant,
    )
  ]

  -- A message that has a digest is decoded from what it serializes to, as it was.
  pub decode_object-wire :
      (m : Message) (t : Text)
      → IsMessage rt m
      → m.sha256 ≡ some t
      → decode_object rt (wire m) ≡ ok m
  unfolding decode_object get wire decode_source_id decode_received_at decode_size
  decode_object-wire m t good e =
      let (ref, formed, own) = form-wire m good in
      let digested : decode_sha256 (some (text_json m.sha256)) ≡ ok m.sha256 =
        subst (λ o. decode_sha256 (some (text_json o)) ≡ ok o) (sym e)
          (decode_sha256-json t (good.digest t e)) in
      rw
        (
          decode_version-pos m.v good.version.0 good.version.1,
          decode_id-str m.id good.identified,
          check_nullable-wire m,
          decode_headers-json m.headers,
          digested,
          decode_verification-json m.verification good.status,
          formed,
        )
        (simp (nullable_text-json, own))

  -- A message without a digest serializes to `"sha256": null`, which the decoder refuses.
  pub decode_object-wire_no_digest :
      (m : Message)
      → IsMessage rt m
      → m.sha256 ≡ none
      → decode_object rt (wire m) ≡ err (invalid_at "sha256")
  unfolding decode_object get wire decode_source_id decode_received_at decode_size
  decode_object-wire_no_digest m good e =
      let refused : decode_sha256 (some (text_json m.sha256)) ≡ err (invalid_at "sha256") =
        subst (λ o. decode_sha256 (some (text_json o)) ≡ err (invalid_at "sha256")) (sym e)
          decode_sha256-null in
      rw (
        decode_version-pos m.v good.version.0 good.version.1,
        decode_id-str m.id good.identified,
        check_nullable-wire m,
        decode_headers-json m.headers,
        refused,
      )
