-- ===== src/Message/Decode/Sound.antt =====
-- What a decoded message is, whatever the bytes that it came from.
use ankusa.Prelude.{
  ◌≤◌, ◌≡◌, ◌≢◌, ◌⊎◌, inl, inr, refl, true, Option, none, some, Text, [], ok, bind-eq-ok,
  ok-injective, subst, ap, sym, ◌∙◌,
}
use ankusa.Json.{Json, obj, Props, get}
use ankusa.Runtime.{Runtime, Input, input_text}
use ankusa.ClaimCheck.Ref.{ParsedClaimRef}
use ankusa.Message.Fields.{
  Verification, decode_version, decode_id, decode_source_id, decode_received_at, decode_size,
  nullable_keys, check_nullable, decode_headers, decode_sha256, decode_verification, is_sha256,
}
use ankusa.Message.Fields.Laws.{
  decode_version_bounds, decode_id-ne_nil, decode_sha256_sound, decode_verification_sound,
}
use ankusa.Message.Body.{BodyForm, decode_body, check_tenant}
use ankusa.Message.Body.Laws.{IsInline, IsClaim, decode_body_sound, check_tenant_sound}
use ankusa.Message.Decode.{Message, decode_object, decode_parsed, decode_message, nullable}

abbrev pub form_of : Message → Option ParsedClaimRef → BodyForm
form_of m ref = record {
  body = m.body;
  encoded_body = m.body_base64;
  claim = m.claim;
  claim_ref = ref;
}

-- The message carries a claim of its own tenant.
pub record HasClaim (m : Message) : Type 0 where
  pub ref : ParsedClaimRef
  pub claimed : IsClaim m.sha256 (form_of m (some ref))
  pub own_tenant : (t : Text) → m.tenant_id ≡ some t → ref.tenant_id ≡ t

pub record IsMessage (rt : Runtime) (m : Message) : Type 0 where
  pub version : (1 ≤ m.v) × (m.v ≤ 2)
  pub identified : m.id ≢ []
  pub digest : (t : Text) → m.sha256 ≡ some t → is_sha256 t ≡ true
  pub status : (v : Verification) → m.verification ≡ some v → v.status ≢ []
  pub form : IsInline rt m.size m.sha256 (form_of m none) ⊎ HasClaim m

module _ (rt : Runtime) where
  form_sound :
      (m : Message) (form : BodyForm)
      → IsInline rt m.size m.sha256 form ⊎ IsClaim m.sha256 form
      → check_tenant m.tenant_id form.claim_ref ≡ ok tt
      → form_of m form.claim_ref ≡ form
      → IsInline rt m.size m.sha256 (form_of m none) ⊎ HasClaim m
  form_sound m form (inl i) t e =
      inl (subst (IsInline rt m.size m.sha256) (sym e ∙ ap (form_of m) i.no_ref) i)
  form_sound m form (inr c) t e = inr (record {
    ref = c.ref;
    claimed = subst (IsClaim m.sha256) (sym e ∙ ap (form_of m) c.claim_ref) c;
    own_tenant =
        check_tenant_sound m.tenant_id c.ref
          (subst (λ o. check_tenant m.tenant_id o ≡ ok tt) c.claim_ref t);
  })

  pub decode_object-IsMessage :
      (raw : Props) (m : Message) → decode_object rt raw ≡ ok m → IsMessage rt m
  unfolding decode_object
  decode_object-IsMessage raw m h =
      let (v, hv, h1) = bind-eq-ok (decode_version (get "v" raw)) _ h in
      let (id, hid, h2) = bind-eq-ok (decode_id (get "id" raw)) _ h1 in
      let (_, _, h3) = bind-eq-ok (decode_source_id (get "source_id" raw)) _ h2 in
      let (_, _, h4) = bind-eq-ok (decode_received_at (get "received_at" raw)) _ h3 in
      let (size, _, h5) = bind-eq-ok (decode_size (get "size" raw)) _ h4 in
      let (_, _, h6) = bind-eq-ok (check_nullable nullable_keys raw) _ h5 in
      let (_, _, h7) = bind-eq-ok (decode_headers (get "headers" raw)) _ h6 in
      let (sha256, hs, h8) = bind-eq-ok (decode_sha256 (get "sha256" raw)) _ h7 in
      let (ver, hver, h9) = bind-eq-ok (decode_verification (get "verification" raw)) _ h8 in
      let (form, hf, h10) =
        bind-eq-ok (decode_body rt size sha256 (get "body_base64" raw) (get "claim" raw)) _ h9 in
      let (_, ht, done) =
        bind-eq-ok (check_tenant (nullable "tenant_id" raw) form.claim_ref) _ h10 in
      subst (IsMessage rt) (ok-injective _ _ done) (record {
        version = decode_version_bounds _ v hv;
        identified = decode_id-ne_nil _ id hid;
        digest = λ t e. decode_sha256_sound _ t (rw e at hs);
        status = λ w e. decode_verification_sound _ w (rw e at hver);
        form = form_sound _ form (decode_body_sound rt size sha256 _ _ form hf) ht refl;
      })

  decode_parsed-IsMessage :
      (o : Option Json) (m : Message) → decode_parsed rt o ≡ ok m → IsMessage rt m
  unfolding decode_parsed
  decode_parsed-IsMessage none m h = cc
  decode_parsed-IsMessage (some (obj raw)) m h = decode_object-IsMessage raw m h
  decode_parsed-IsMessage (some _) m h = cc

  -- Whatever `decodeMessage` returns has a supported version, a non-empty id, a digest of 64 lowercase
  -- hex characters if any, a verification status that is not empty if any, and either an inline body
  -- of just the declared size and digest or the claim of its own tenant with a digest.
  pub decode_message-IsMessage :
      (input : Input) (m : Message) → decode_message rt input ≡ ok m → IsMessage rt m
  unfolding decode_message
  decode_message-IsMessage input m h =
      decode_parsed-IsMessage (rt.parse_json (input_text rt input)) m h
