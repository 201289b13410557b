-- ===== src/Worker/JetStream/Intact.antt =====
-- The bytes that the consumer works on, for a message that `decodeMessage` returned.
use mathlib.Core.Option.{some-injective}
use ankusa.Prelude.{
  ◌≡◌, ◌↔◌, ◌⊎◌, inl, inr, refl, sym, ap, ◌∙◌, subst, true, none, some, [], ◌∷◌, Text, Bytes,
  length, ok, ok-injective,
}
use ankusa.Runtime.{Input}
use ankusa.Regex.{exec, strip}
use ankusa.ClaimCheck.Ref.{ParsedClaimRef, parse_claim_ref, signed_ref, unsigned_ref}
use ankusa.ClaimCheck.Client.{redeem}
use ankusa.ClaimCheck.Client.Laws.{IsRedeemed, redeem_iff}
use ankusa.Message.Fields.{is_sha256}
use ankusa.Message.Decode.{Message, decode_message}
use ankusa.Message.Decode.Sound.{IsMessage, HasClaim, form_of, decode_message-IsMessage}
use ankusa.Message.Body.Laws.{IsInline}
use ankusa.Worker.JetStream.{World, claim_body, resolve_body}

-- The message's own body, of the declared size and digest.
pub record IsOwn (w : World) (msg : Message) (body : Bytes) : Type 0 where
  pub own : msg.body ≡ some body
  pub sized : length body ≡ msg.size
  pub intact : (t : Text) → msg.sha256 ≡ some t → w.rt.sha256_hex body ≡ t

-- The bytes of the message's claim, which is of its own tenant: the gateway's 200 has them, and they
-- have the message's digest.
pub record IsClaimed (w : World) (msg : Message) (body : Bytes) : Type 0 where
  pub claim : Text
  pub sha256 : Text
  pub no_body : msg.body ≡ none
  pub claimed : msg.claim ≡ some claim
  pub digested : msg.sha256 ≡ some sha256
  pub redeemed : IsRedeemed w.rt w.gateway claim sha256 body
  pub own_tenant : (t : Text) → msg.tenant_id ≡ some t → redeemed.parsed.tenant_id ≡ t

pub no_empty_ref : (ref : ParsedClaimRef) → ¬ (parse_claim_ref [] ≡ ok ref)
unfolding parse_claim_ref exec strip signed_ref unsigned_ref
no_empty_ref ref h = cc

pub no_empty_digest : ¬ (is_sha256 [] ≡ true)
unfolding is_sha256
no_empty_digest h = cc

module _ (w : World) where
  -- The test for an empty claim or digest is never met.
  pub claim_body-redeem :
      (claim sha256 : Text) (ref : ParsedClaimRef)
      → parse_claim_ref claim ≡ ok ref
      → is_sha256 sha256 ≡ true
      → claim_body w (some claim) (some sha256) ≡ (redeem w.rt w.gateway claim sha256).0
  claim_body-redeem [] sha256 ref h k = absurd (no_empty_ref ref h)
  claim_body-redeem (c ∷ claim) [] ref h k = absurd (no_empty_digest k)
  claim_body-redeem (c ∷ claim) (d ∷ sha256) ref h k = refl

  module _ (msg : Message) (body : Bytes) where
    pub own-resolved : (content : Bytes) → msg.body ≡ some content → resolve_body w msg ≡ ok content
    unfolding resolve_body
    own-resolved content e = rw e refl

    pub claimed-resolved :
        (claim sha256 : Text)
        → msg.body ≡ none
        → msg.claim ≡ some claim
        → msg.sha256 ≡ some sha256
        → resolve_body w msg ≡ claim_body w (some claim) (some sha256)
    unfolding resolve_body
    claimed-resolved claim sha256 e f g = rw (e, f, g) refl

    resolve_body-IsOwn :
        IsInline w.rt msg.size msg.sha256 (form_of msg none)
        → resolve_body w msg ≡ ok body
        → IsOwn w msg body
    resolve_body-IsOwn i h =
        let same : i.content ≡ body =
          ok-injective i.content body (sym (own-resolved i.content i.body) ∙ h) in
        record {
          own = i.body ∙ ap some same;
          sized = subst (λ b. length b ≡ msg.size) same i.sized;
          intact = λ t e. subst (λ b. w.rt.sha256_hex b ≡ t) same (i.intact t e);
        }

    resolve_body-IsClaimed :
        IsMessage w.rt msg → HasClaim msg → resolve_body w msg ≡ ok body → IsClaimed w msg body
    resolve_body-IsClaimed good c h =
        let i = c.claimed in
        let whole : is_sha256 i.digest ≡ true = good.digest i.digest i.digested in
        let r : IsRedeemed w.rt w.gateway i.urn i.digest body =
          (redeem_iff w.rt w.gateway i.urn i.digest body).0 (
            sym (
              claimed-resolved i.urn i.digest i.no_body i.claim i.digested
              ∙ claim_body-redeem i.urn i.digest i.ref i.parses whole)
            ∙ h) in
        record {
          claim = i.urn;
          sha256 = i.digest;
          no_body = i.no_body;
          claimed = i.claim;
          digested = i.digested;
          redeemed = r;
          own_tenant = λ t e.
              ap (λ (p : ParsedClaimRef). p.tenant_id)
                (ok-injective r.parsed i.ref (sym r.parses ∙ i.parses)
                  ∙ sym (some-injective c.ref i.ref i.claim_ref))
              ∙ c.own_tenant t e;
        }

    IsClaimed-resolved : IsClaimed w msg body → resolve_body w msg ≡ ok body
    IsClaimed-resolved i =
        claimed-resolved i.claim i.sha256 i.no_body i.claimed i.digested
        ∙ (claim_body-redeem i.claim i.sha256 i.redeemed.parsed i.redeemed.parses i.redeemed.digest
            ∙ (redeem_iff w.rt w.gateway i.claim i.sha256 body).1 i.redeemed)

    form-resolved :
        IsMessage w.rt msg → resolve_body w msg ≡ ok body → IsOwn w msg body ⊎ IsClaimed w msg body
    form-resolved good h = elim good.form [
      | inl i ↦ inl (resolve_body-IsOwn i h)
      | inr c ↦ inr (resolve_body-IsClaimed good c h)
    ]

    -- For a message that `decodeMessage` returned, the consumer has a body exactly when it is the
    -- message's own, of its size and its digest if any, or is the claim's: then the gateway's 200 for
    -- the claim, which is of the message's tenant, has these bytes, and they have the message's digest.
    pub resolve_body_iff :
        (input : Input)
        → decode_message w.rt input ≡ ok msg
        → (resolve_body w msg ≡ ok body) ↔ (IsOwn w msg body ⊎ IsClaimed w msg body)
    resolve_body_iff input decoded = (
      form-resolved (decode_message-IsMessage w.rt input msg decoded),
      λ r. elim r [ inl i ↦ own-resolved body i.own | inr i ↦ IsClaimed-resolved i ],
    )
