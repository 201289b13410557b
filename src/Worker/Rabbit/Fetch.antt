-- ===== src/Worker/Rabbit/Fetch.antt =====
-- What `resolveBody` of the RabbitMQ worker returns.
use ankusa.Prelude.{
  Bool, true, false, ◌≡◌, ◌≢◌, ◌↔◌, ◌⊎◌, inl, inr, refl, ap, sym, ◌∙◌, subst, arith, Option, none,
  some, [], ◌∷◌, ◌++◌, Text, Bytes, codes, Result, ok, err, ◌>>=◌, bind-eq-ok, ok-injective,
}
use ankusa.Json.{Json, str}
use ankusa.ClaimCheck.Errors.{ClaimCheckError, invalid_claim_ref}
use ankusa.ClaimCheck.Ref.{parse_claim_ref}
use ankusa.ClaimCheck.Client.{redeem}
use ankusa.ClaimCheck.Client.Laws.{IsRedeemed, redeem_iff}
use ankusa.Message.Fields.{is_sha256}
use ankusa.Worker.Raw.{
  Failure, claim_failure, Reader, is_truthy, redeem_value, claim_result, parsed_ref, or_empty_text,
  ref_text,
}
use ankusa.Worker.Rabbit.{Fetched, inline, fetch_digest, fetch_claim, fetch_stated, fetch}

module _ (r : Reader) where
  -- The bytes of an inline body.
  pub record IsInline (claim body_base64 : Option Json) (f : Fetched) : Type 0 where
    pub unclaimed : is_truthy claim ≡ false
    pub decoded : r.buffer_from (or_empty_text body_base64) ≡ some f.body
    pub via : f.via ≡ codes "inline"

  -- The bytes of a claim, which have the message's digest.
  pub record IsClaimed (claim sha256 : Option Json) (f : Fetched) : Type 0 where
    pub value : Json
    pub digest : Text
    pub claimed : claim ≡ some value
    pub stated : is_truthy claim ≡ true
    pub digested : sha256 ≡ some (str digest)
    pub urn : Text
    pub spelled : ref_text r value ≡ ok urn
    pub redemption : IsRedeemed r.rt r.gateway urn digest f.body
    pub via : f.via ≡ codes "claim:" ++ redemption.parsed.claim_id

  abbrev pub IsFetched : Option Json → Option Json → Option Json → Fetched → Type 0
  IsFetched claim sha256 body_base64 f = IsInline claim body_base64 f ⊎ IsClaimed claim sha256 f

  inline_iff :
      (body_base64 : Option Json) (f : Fetched)
      → (inline r body_base64 ≡ ok f)
        ↔ ((r.buffer_from (or_empty_text body_base64) ≡ some f.body) × (f.via ≡ codes "inline"))
  inline_iff body_base64 f = (λ h. ground arith, λ (decoded, via). ground arith)

  claim_result-ok :
      {A : Type 0} (x : Result ClaimCheckError A) (b : A) → claim_result x ≡ ok b → x ≡ ok b
  claim_result-ok (ok a) b h = ground arith
  claim_result-ok (err e) b h = absurd (ground arith)

  never_redeemed :
      {A : Type 0} (x : Result Failure A) (y : Result Failure Text) (b : Bytes)
      → ◌≢◌ {A = Result Failure Bytes}
          (do a ← x; t ← y; err (claim_failure invalid_claim_ref))
          (ok b)
  never_redeemed (ok a) (ok t) b h = cc
  never_redeemed (ok a) (err e) b h = cc
  never_redeemed (err e) y b h = cc

  -- `redeem` refuses a digest that is not a string.
  redeem_text :
      (claim sha256 : Json) (b : Bytes)
      → redeem_value r claim sha256 ≡ ok b
      → (t : Text) × (sha256 ≡ str t)
  redeem_text claim (str t) b h = (t, refl)
  redeem_text claim v b h = absurd (never_redeemed (parsed_ref r claim) (ref_text r v) b h)

  digest_text :
      (claim sha256 : Json) (f : Fetched) (is_stated : Bool)
      → fetch_digest r claim sha256 is_stated ≡ ok f
      → (t : Text) × (sha256 ≡ str t)
  digest_text claim sha256 f false h = absurd (ground arith)
  digest_text claim sha256 f true h =
      let (p, parses, h1) = bind-eq-ok (parsed_ref r claim) _ h in
      let (b, got, done) = bind-eq-ok (redeem_value r claim sha256) _ h1 in
      redeem_text claim sha256 b got

  fetch_claim_sound :
      (claim : Json) (sha256 : Option Json) (f : Fetched)
      → is_truthy (some claim) ≡ true
      → fetch_claim r claim sha256 ≡ ok f
      → IsClaimed (some claim) sha256 f
  fetch_claim_sound claim (some (str (c ∷ s))) f stated h =
      let (p, parses, h1) = bind-eq-ok (parsed_ref r claim) _ h in
      let (b, got, done) = bind-eq-ok (redeem_value r claim (str (c ∷ s))) _ h1 in
      let (urn, spelled, parsed) = bind-eq-ok (ref_text r claim) _ parses in
      let redeemed : claim_result ((redeem r.rt r.gateway urn (c ∷ s)).0) ≡ ok b =
        sym (ap (λ t. t >>= (λ u. claim_result ((redeem r.rt r.gateway u (c ∷ s)).0))) spelled)
        ∙ got in
      let redemption = (redeem_iff r.rt r.gateway urn (c ∷ s) b).0 (claim_result-ok _ b redeemed) in
      let same =
        ok-injective _ _
          (sym (claim_result-ok (parse_claim_ref urn) p parsed) ∙ redemption.parses) in
      subst (IsClaimed (some claim) (some (str (c ∷ s)))) (ok-injective _ _ done) (record {
        value = claim;
        digest = c ∷ s;
        claimed = refl;
        stated = stated;
        digested = refl;
        urn = urn;
        spelled = spelled;
        redemption = redemption;
        via = ap (λ q. codes "claim:" ++ q.claim_id) same;
      })
  fetch_claim_sound claim (some (str [])) f stated h = absurd (ground arith)
  fetch_claim_sound claim none f stated h = absurd (ground arith)
  fetch_claim_sound claim (some v) f stated h =
      let (t, e) = digest_text claim v f (is_truthy (some v)) h in absurd (ground (arith, e))

  fetch_claim_complete :
      (claim : Json) (digest urn : Text) (f : Fetched)
      → ref_text r claim ≡ ok urn
      → (d : IsRedeemed r.rt r.gateway urn digest f.body)
      → f.via ≡ codes "claim:" ++ d.parsed.claim_id
      → fetch_claim r claim (some (str digest)) ≡ ok f
  fetch_claim_complete claim [] urn f spelled d via =
      absurd (unfold is_sha256 in ground (arith, d.digest))
  fetch_claim_complete claim (c ∷ s) urn f spelled d via =
      let got = (redeem_iff r.rt r.gateway urn (c ∷ s) f.body).1 d in
      rw (spelled, d.parses, got, sym via)

  fetch_stated_sound :
      (claim : Json) (sha256 body_base64 : Option Json) (f : Fetched) (b : Bool)
      → is_truthy (some claim) ≡ b
      → fetch_stated r claim sha256 body_base64 b ≡ ok f
      → IsFetched (some claim) sha256 body_base64 f
  fetch_stated_sound claim sha256 body_base64 f true stated h =
      inr (fetch_claim_sound claim sha256 f stated h)
  fetch_stated_sound claim sha256 body_base64 f false unclaimed h =
      let (decoded, via) = (inline_iff body_base64 f).0 h in
      inl (record { unclaimed = unclaimed; decoded = decoded; via = via })

  pub fetch_sound :
      (claim sha256 body_base64 : Option Json) (f : Fetched)
      → fetch r claim sha256 body_base64 ≡ ok f
      → IsFetched claim sha256 body_base64 f
  fetch_sound none sha256 body_base64 f h =
      let (decoded, via) = (inline_iff body_base64 f).0 h in
      inl (record { unclaimed = refl; decoded = decoded; via = via })
  fetch_sound (some claim) sha256 body_base64 f h =
      fetch_stated_sound claim sha256 body_base64 f (is_truthy (some claim)) refl h

  pub fetch_complete :
      (claim sha256 body_base64 : Option Json) (f : Fetched)
      → IsFetched claim sha256 body_base64 f
      → fetch r claim sha256 body_base64 ≡ ok f
  fetch_complete none sha256 body_base64 f (inl i) = (inline_iff body_base64 f).1 (i.decoded, i.via)
  fetch_complete (some claim) sha256 body_base64 f (inl i) =
      rw i.unclaimed ((inline_iff body_base64 f).1 (i.decoded, i.via))
  fetch_complete claim sha256 body_base64 f (inr c) =
      rw (c.claimed, c.digested)
        (rw (subst (λ o. is_truthy o ≡ true) c.claimed c.stated)
          (fetch_claim_complete c.value c.digest c.urn f c.spelled c.redemption c.via))
