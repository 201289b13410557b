-- ===== src/Webhook/Receive/Laws.antt =====
-- Which deliveries a receiver takes.
use ankusa.Prelude.{
  ℕ, ◌≡◌, ◌≢◌, ◌⊎◌, inl, inr, refl, Bool, true, false, Option, some, List, [], ◌∷◌, Text, arith,
  Result, ok, err, bind-eq-ok, ok-injective, subst, ap, sym,
}
use ankusa.Runtime.{Runtime}
use ankusa.Webhook.Headers.{HookIdError, parse_headers}
use ankusa.Webhook.Signature.{
  VerifySignatureOptions, VerifiedSignature, InvalidSignatureError, rotation, bad_secret,
  verify_signature,
}
use ankusa.Webhook.Signature.Laws.{IsSigned, verify_signature_iff}
use ankusa.Webhook.Receive.{
  ReceiveDeliveryOptions, ReceivedDelivery, invalid_signature, signature_result, header_result,
  configured, is_allowed, judge, receive_delivery,
}

-- What `receiveDelivery` asks `verifySignature`, with the configured secrets.
abbrev pub signature_options : ReceiveDeliveryOptions → List Text → VerifySignatureOptions
signature_options options secrets = record {
  headers = options.headers;
  body = options.body;
  secrets = rotation secrets;
  tolerance_seconds = options.tolerance_seconds;
  now = options.now;
}

signature_result-eq-ok {ℓ} :
    {A : Type ℓ} (r : Result InvalidSignatureError A) (a : A) → signature_result r ≡ ok a → r ≡ ok a
signature_result-eq-ok (ok b) a h = ap ok (ok-injective b a h)
signature_result-eq-ok (err e) a h = cc

header_result-eq-ok {ℓ} :
    {A : Type ℓ} (r : Result HookIdError A) (a : A) → header_result r ≡ ok a → r ≡ ok a
header_result-eq-ok (ok b) a h = ap ok (ok-injective b a h)
header_result-eq-ok (err e) a h = cc

module _ (rt : Runtime) (clock : ℕ) (options : ReceiveDeliveryOptions) where
  -- Why a delivery is accepted: it is signed with a configured secret, or none is configured and
  -- unsigned deliveries are allowed.
  abbrev pub IsAccepted : Bool → Type 0
  IsAccepted verified =
      ((verified ≡ true)
        × (r : VerifiedSignature) × IsSigned rt clock
            (signature_options options (configured options.secrets)) r)
      ⊎ ((verified ≡ false)
          × (configured options.secrets ≡ [])
          × (options.allow_unsigned ≡ some true))

  is_allowed_sound : (o : Option Bool) → is_allowed o ≡ true → o ≡ some true
  is_allowed_sound o h = ground arith

  judge_sound :
      (secrets : List Text) (verified : Bool)
      → configured options.secrets ≡ secrets
      → judge rt clock options secrets ≡ ok verified
      → IsAccepted verified
  unfolding judge
  judge_sound [] verified e h =
      inr (ground arith, e, is_allowed_sound options.allow_unsigned (ground arith))
  judge_sound (s ∷ ss) verified e h =
      let (r, signed, done) =
        bind-eq-ok
          (signature_result (verify_signature rt clock (signature_options options (s ∷ ss)))) _ h in
      inl (
        ground (arith, done),
        r,
        subst (λ l. IsSigned rt clock (signature_options options l) r) (sym e)
            ((verify_signature_iff rt clock _ r).0 (signature_result-eq-ok _ r signed)),
      )

  -- An accepted delivery has the headers that `parseHeaders` reads; it is verified under a
  -- configured secret, or unverified where no secret is configured and `allowUnsigned` is set.
  pub receive_delivery_sound :
      (d : ReceivedDelivery)
      → receive_delivery rt clock options ≡ ok d
      → (parse_headers rt options.headers ≡ ok d.hook) × IsAccepted d.verified
  unfolding receive_delivery
  receive_delivery_sound d h =
      let (verified, judged, h1) =
        bind-eq-ok (judge rt clock options (configured options.secrets)) _ h in
      let (hook, parsed, done) =
        bind-eq-ok (header_result (parse_headers rt options.headers)) _ h1 in
      subst
        (λ (x : ReceivedDelivery).
          (parse_headers rt options.headers ≡ ok x.hook) × IsAccepted x.verified)
        (ok-injective _ _ done)
        (
          header_result-eq-ok _ hook parsed,
          judge_sound (configured options.secrets) verified refl judged,
        )

  not_allowed : (o : Option Bool) → o ≢ some true → is_allowed o ≡ false
  not_allowed o h = ground arith

  judge_closed :
      options.allow_unsigned ≢ some true
      → judge rt clock options [] ≡ err (invalid_signature bad_secret)
  unfolding judge
  judge_closed h = rw (not_allowed options.allow_unsigned h, judge)

  -- With no secret configured, every delivery is refused for its secret unless `allowUnsigned` is
  -- `true`, whatever its headers and body.
  receive_delivery_closed :
      configured options.secrets ≡ []
      → options.allow_unsigned ≢ some true
      → receive_delivery rt clock options ≡ err (invalid_signature bad_secret)
  unfolding receive_delivery
  receive_delivery_closed e h = rw (e, judge_closed h)
