-- ===== src/EventRouting/Receiver/Laws.antt =====
-- Which requests the receiver takes.
use ankusa.Prelude.{
  ℕ, Bool, true, false, ◌≡◌, ◌≢◌, ◌↔◌, refl, sym, ◌∙◌, arith, Option, none, some, [], ◌∷◌, Text,
  Result, ok, err,
}
use ankusa.Runtime.{bytes}
use ankusa.Webhook.Headers.{object, HookHeaders, HookIdError, parse_headers}
use ankusa.Webhook.Signature.{
  InvalidSignatureError, rotation, VerifySignatureOptions, VerifiedSignature, verify_signature,
}
use ankusa.Webhook.Receive.{judge, receive_delivery}
use ankusa.EventRouting.Receiver.{required_secret, World, Request, concat, is_addressed, reply}

-- The delivery with the one secret, and with the tolerance and the clock that are the defaults.
abbrev pub delivery_of : Text → Request → VerifySignatureOptions
delivery_of s r = record {
  headers = object r.headers;
  body = bytes (concat r.chunks);
  secrets = rotation (s ∷ []);
  tolerance_seconds = none;
  now = none;
}

abbrev status_of :
    Bool → Result InvalidSignatureError VerifiedSignature → Result HookIdError HookHeaders → ℕ
status_of false v h = 404
status_of true (err e) h = 401
status_of true (ok v) (err e) = 400
status_of true (ok v) (ok h) = 204

not_addressed :
    (b : Bool) (v : Result InvalidSignatureError VerifiedSignature)
    (h : Result HookIdError HookHeaders)
    → status_of b v h ≡ 404
    → b ≡ false
not_addressed false v h k = refl
not_addressed true (err e) h k = absurd (omega arith)
not_addressed true (ok v) (err e) k = absurd (omega arith)
not_addressed true (ok v) (ok h) k = absurd (omega arith)

forged :
    (b : Bool) (v : Result InvalidSignatureError VerifiedSignature)
    (h : Result HookIdError HookHeaders)
    → status_of b v h ≡ 401
    → (b ≡ true) × ((e : InvalidSignatureError) × (v ≡ err e))
forged false v h k = absurd (omega arith)
forged true (err e) h k = (refl, (e, refl))
forged true (ok v) (err e) k = absurd (omega arith)
forged true (ok v) (ok h) k = absurd (omega arith)

unidentified :
    (b : Bool) (v : Result InvalidSignatureError VerifiedSignature)
    (h : Result HookIdError HookHeaders)
    → status_of b v h ≡ 400
    → (b ≡ true) × ((x : VerifiedSignature) × (v ≡ ok x)) × ((e : HookIdError) × (h ≡ err e))
unidentified false v h k = absurd (omega arith)
unidentified true (err e) h k = absurd (omega arith)
unidentified true (ok v) (err e) k = (refl, (v, refl), (e, refl))
unidentified true (ok v) (ok h) k = absurd (omega arith)

accepted :
    (b : Bool) (v : Result InvalidSignatureError VerifiedSignature)
    (h : Result HookIdError HookHeaders)
    → status_of b v h ≡ 204
    → (b ≡ true) × ((x : VerifiedSignature) × (v ≡ ok x)) × ((y : HookHeaders) × (h ≡ ok y))
accepted false v h k = absurd (omega arith)
accepted true (err e) h k = absurd (omega arith)
accepted true (ok v) (err e) k = absurd (omega arith)
accepted true (ok v) (ok h) k = (refl, (v, refl), (h, refl))

module _ (w : World) (s : Text) (r : Request) where
  reply-status :
      (b : Bool) (v : Result InvalidSignatureError VerifiedSignature)
      (h : Result HookIdError HookHeaders)
      → is_addressed r ≡ b
      → verify_signature w.rt w.clock (delivery_of s r) ≡ v
      → parse_headers w.rt (object r.headers) ≡ h
      → (reply w s r).status ≡ status_of b v h
  unfolding reply receive_delivery judge
  reply-status false v h b_eq v_eq h_eq = rw b_eq refl
  reply-status true (err e) h b_eq v_eq h_eq = rw (b_eq, v_eq) refl
  reply-status true (ok v) (err e) b_eq v_eq h_eq = rw (b_eq, v_eq, h_eq) refl
  reply-status true (ok v) (ok h) b_eq v_eq h_eq = rw (b_eq, v_eq, h_eq) refl

  abbrev pub IsVerified : Type 0
  IsVerified = (v : VerifiedSignature) × (verify_signature w.rt w.clock (delivery_of s r) ≡ ok v)

  abbrev pub IsForged : Type 0
  IsForged = (e : InvalidSignatureError) × (verify_signature w.rt w.clock (delivery_of s r) ≡ err e)

  abbrev pub IsIdentified : Type 0
  IsIdentified = (h : HookHeaders) × (parse_headers w.rt (object r.headers) ≡ ok h)

  abbrev pub IsUnidentified : Type 0
  IsUnidentified = (e : HookIdError) × (parse_headers w.rt (object r.headers) ≡ err e)

  abbrev pub IsAnswered : ℕ → Type 0
  IsAnswered status =
      ((status ≡ 404) ↔ (is_addressed r ≡ false))
      × ((status ≡ 401) ↔ ((is_addressed r ≡ true) × IsForged))
      × ((status ≡ 400) ↔ ((is_addressed r ≡ true) × IsVerified × IsUnidentified))
      × ((status ≡ 204) ↔ ((is_addressed r ≡ true) × IsVerified × IsIdentified))

  reply-IsAnswered : IsAnswered (reply w s r).status
  reply-IsAnswered =
      let b : Bool = is_addressed r in
      let v : Result InvalidSignatureError VerifiedSignature =
        verify_signature w.rt w.clock (delivery_of s r) in
      let h : Result HookIdError HookHeaders = parse_headers w.rt (object r.headers) in
      let e : (reply w s r).status ≡ status_of b v h = reply-status b v h refl refl refl in
      (
        (λ k. not_addressed b v h (sym e ∙ k), λ a. reply-status false v h a refl refl),
        (λ k. forged b v h (sym e ∙ k), λ (a, (x, p)). reply-status true (err x) h a p refl),
        (
          λ k. unidentified b v h (sym e ∙ k),
          λ (a, (x, p), (y, q)). reply-status true (ok x) (err y) a p q,
        ),
        (
          λ k. accepted b v h (sym e ∙ k),
          λ (a, (x, p), (y, q)). reply-status true (ok x) (ok y) a p q,
        ),
      )

required_secret-ne_nil : (env : Option Text) (s : Text) → required_secret env ≡ some s → s ≢ []
required_secret-ne_nil none s h = absurd cc
required_secret-ne_nil (some []) s h = absurd cc
required_secret-ne_nil (some (c ∷ t)) s h = λ k. absurd cc

-- A receiver that started has a secret that is not empty, and answers a request with 404 if and only if
-- it is no POST to /invoices; and one that is, with 401 if its signature under this secret is refused,
-- with 400 if it is verified and has no id of a hook, and with 204 if it is verified and its headers
-- are read.
pub reply_iff :
    (w : World) (env : Option Text) (s : Text) (r : Request)
    → required_secret env ≡ some s
    → (s ≢ []) × IsAnswered w s r (reply w s r).status
reply_iff w env s r started = (required_secret-ne_nil env s started, reply-IsAnswered w s r)
