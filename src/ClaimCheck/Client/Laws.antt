-- ===== src/ClaimCheck/Client/Laws.antt =====
-- What `redeem` returns and sends, and which of its errors are to be retried.
use ankusa.Prelude.{
  ◌≤◌, ◌<◌, ◌≡◌, ◌≢◌, ◌↔◌, ◌⊎◌, inl, inr, refl, true, false, [], ◌∷◌, Text, Bytes, text_eq_sound,
  text_eq_refl, arith, ok, err, ◌>>=◌, bind-eq-ok, Result-cases, ◌∙◌, Bool-cases, Option-cases,
  subst, ap,
}
use ankusa.Runtime.{Runtime}
use ankusa.Http.{Answer, Outcome, failed, answered, Gateway, Call, continue-lift}
use ankusa.ClaimCheck.Errors.{ClaimCheckError, invalid_claim_ref, claim_integrity, retryable}
use ankusa.ClaimCheck.Ref.{
  ParsedClaimRef, parse_claim_ref, signed_ref, unsigned_ref, groups, ref_pattern, ref_v2_pattern,
}
use ankusa.Regex.{exec}
use ankusa.Message.Fields.{is_sha256}
use ankusa.ClaimCheck.Client.{claim_request, content_bytes, read_outcome, verify_integrity, redeem}

-- The only error of parsing.
pub parse_claim_ref_error :
    (ref : Text) (e : ClaimCheckError) → parse_claim_ref ref ≡ err e → e ≡ invalid_claim_ref
unfolding parse_claim_ref
parse_claim_ref_error ref e h = elim (Option-cases (groups signed_ref (exec ref_v2_pattern ref))) [
  | inl not_v2 ↦ elim (Option-cases (groups unsigned_ref (exec ref_pattern ref))) [
    | inl not_v1 ↦ ground arith
    | inr (p, v1) ↦ ground arith
  ]
  | inr (p, v2) ↦ ground arith
]

-- The gateway is to be asked again: no answer, a busy one (408, 429), or one that is neither a 200
-- nor another 4xx.
abbrev pub IsTransient : Outcome Bytes → Type 0
IsTransient failed = Unit
IsTransient (answered a) =
    ((a.status ≡ 408) ⊎ (a.status ≡ 429))
    ⊎ ((a.status ≢ 200) × ((a.status < 400) ⊎ (500 ≤ a.status)))

read_outcome_retryable :
    (o : Outcome Bytes) (e : ClaimCheckError)
    → read_outcome o ≡ err e
    → (retryable e ≡ true) ↔ IsTransient o
unfolding read_outcome
read_outcome_retryable failed e h = (λ t. tt, λ t. ground arith)
read_outcome_retryable (answered a) e h = (λ t. ground arith, λ t. ground arith)

read_outcome-ok_iff :
    (o : Outcome Bytes) (bytes : Bytes)
    → (read_outcome o ≡ ok bytes) ↔ (
        (a : Answer Bytes) × (o ≡ answered a)
        × (a.status ≡ 200)
        × (content_bytes a.content ≡ bytes))
unfolding read_outcome
read_outcome-ok_iff failed bytes = (λ h. cc, λ h. cc)
read_outcome-ok_iff (answered a) bytes =
    (λ h. (a, refl, ground arith, ground arith), λ (b, same, status, content). ground arith)

verify_integrity_iff :
    (rt : Runtime) (sha256 : Text) (b bytes : Bytes)
    → (verify_integrity rt sha256 b ≡ ok bytes) ↔ ((b ≡ bytes) × (rt.sha256_hex bytes ≡ sha256))
unfolding verify_integrity
verify_integrity_iff rt sha256 b bytes = (
  λ h. ground (arith, text_eq_sound (rt.sha256_hex b) sha256),
  λ h. ground (arith, text_eq_refl sha256),
)

verify_integrity_error :
    (rt : Runtime) (sha256 : Text) (b : Bytes) (e : ClaimCheckError)
    → verify_integrity rt sha256 b ≡ err e
    → e ≡ claim_integrity
unfolding verify_integrity
verify_integrity_error rt sha256 b e h = ground arith

not-IsTransient : (a : Answer Bytes) → a.status ≡ 200 → ¬ IsTransient (answered a)
not-IsTransient a status t = ground arith

-- A failed check of the digest is of a 200, and is not to be retried.
checked_retryable :
    (rt : Runtime) (sha256 : Text) (o : Outcome Bytes) (e : ClaimCheckError)
    → (read_outcome o >>= verify_integrity rt sha256) ≡ err e
    → (retryable e ≡ true) ↔ IsTransient o
checked_retryable rt sha256 o e h = elim (Result-cases (read_outcome o)) [
  | inl (b, got) ↦
      let failed_check =
        verify_integrity_error rt sha256 b e
          (subst (λ r. (r >>= verify_integrity rt sha256) ≡ err e) got h) in
      let (a, answers, status, _) = (read_outcome-ok_iff o b).0 got in
      (
        λ t. absurd (ground arith),
        λ t. absurd (not-IsTransient a status (subst IsTransient answers t)),
      )
  | inr (e', refused) ↦
      read_outcome_retryable o e
        (refused ∙ subst (λ r. (r >>= verify_integrity rt sha256) ≡ err e) refused h)
]

module _ (rt : Runtime) (gateway : Gateway Bytes) (ref sha256 : Text) where
  -- A well-formed claim is asked for once.
  redeem_valid :
      (p : ParsedClaimRef)
      → parse_claim_ref ref ≡ ok p
      → is_sha256 sha256 ≡ true
      → redeem rt gateway ref sha256 ≡ (
        read_outcome (gateway (claim_request p)) >>= verify_integrity rt sha256,
        claim_request p ∷ [],
      )
  unfolding redeem
  redeem_valid p parsed digest =
      rw (parsed, digest)
        (continue-lift (read_outcome (gateway (claim_request p))) (claim_request p ∷ [])
          (verify_integrity rt sha256))

  -- A malformed ref or digest is refused before any request is made.
  redeem_malformed :
      ((e : ClaimCheckError) × (parse_claim_ref ref ≡ err e)) ⊎ (is_sha256 sha256 ≡ false)
      → redeem rt gateway ref sha256 ≡ (err invalid_claim_ref, [])
  unfolding redeem
  redeem_malformed (inl (e, h)) = rw h (ap (λ x. (err x, [])) (parse_claim_ref_error ref e h))
  redeem_malformed (inr bad) = elim (Result-cases (parse_claim_ref ref)) [
    | inl (p, parsed) ↦ rw (parsed, bad)
    | inr (e, h) ↦ rw h (ap (λ x. (err x, [])) (parse_claim_ref_error ref e h))
  ]

  -- The ref and the digest are well formed, one request was made, and the gateway answered it with a
  -- 200 whose bytes are `bytes` and have the digest.
  pub record IsRedeemed (bytes : Bytes) : Type 0 where
    pub parsed : ParsedClaimRef
    pub parses : parse_claim_ref ref ≡ ok parsed
    pub digest : is_sha256 sha256 ≡ true
    pub answer : Answer Bytes
    pub answers : gateway (claim_request parsed) ≡ answered answer
    pub status : answer.status ≡ 200
    pub content : content_bytes answer.content ≡ bytes
    pub intact : rt.sha256_hex bytes ≡ sha256

  redeem_sound : (bytes : Bytes) → (redeem rt gateway ref sha256).0 ≡ ok bytes → IsRedeemed bytes
  redeem_sound bytes h = elim (Result-cases (parse_claim_ref ref)) [
    | inr (e, refused) ↦ cc (redeem_malformed (inl (e, refused)))
    | inl (p, parsed) ↦ elim (Bool-cases (is_sha256 sha256)) [
      | inr bad ↦ cc (redeem_malformed (inr bad))
      | inl digest ↦
          let h' : (read_outcome (gateway (claim_request p)) >>= verify_integrity rt sha256)
              ≡ ok bytes =
            subst (λ (c : Call ClaimCheckError Bytes). c.0 ≡ ok bytes)
              (redeem_valid p parsed digest) h in
          let (b, got, checked) = bind-eq-ok (read_outcome (gateway (claim_request p))) _ h' in
          let (a, answers, status, content) = (read_outcome-ok_iff _ b).0 got in
          let (same, intact) = (verify_integrity_iff rt sha256 b bytes).0 checked in
          record {
            parsed = p;
            parses = parsed;
            digest = digest;
            answer = a;
            answers = answers;
            status = status;
            content = content ∙ same;
            intact = intact;
          }
    ]
  ]

  redeem_complete : (bytes : Bytes) → IsRedeemed bytes → (redeem rt gateway ref sha256).0 ≡ ok bytes
  redeem_complete bytes r =
      let got =
        (read_outcome-ok_iff (gateway (claim_request r.parsed)) bytes).1
          (r.answer, r.answers, r.status, r.content) in
      rw (redeem_valid r.parsed r.parses r.digest, got)
        ((verify_integrity_iff rt sha256 bytes bytes).1 (refl, r.intact))

  -- `redeem` returns bytes exactly when the claim is well formed and the gateway's 200 carries these
  -- bytes with the expected digest.
  pub redeem_iff :
      (bytes : Bytes) → ((redeem rt gateway ref sha256).0 ≡ ok bytes) ↔ IsRedeemed bytes
  redeem_iff bytes = (redeem_sound bytes, redeem_complete bytes)

  -- For a well-formed claim an error is to be retried exactly when the gateway's outcome is transient.
  pub redeem_retryable_iff :
      (p : ParsedClaimRef) (e : ClaimCheckError)
      → parse_claim_ref ref ≡ ok p
      → is_sha256 sha256 ≡ true
      → (redeem rt gateway ref sha256).0 ≡ err e
      → (retryable e ≡ true) ↔ IsTransient (gateway (claim_request p))
  redeem_retryable_iff p e parsed digest h =
      let h' : (read_outcome (gateway (claim_request p)) >>= verify_integrity rt sha256) ≡ err e =
        subst (λ (c : Call ClaimCheckError Bytes). c.0 ≡ err e) (redeem_valid p parsed digest) h in
      checked_retryable rt sha256 (gateway (claim_request p)) e h'
