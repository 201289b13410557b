-- ===== src/Worker/Rabbit/Laws.antt =====
-- What the RabbitMQ worker acknowledges, what it rejects, and what comes back.
use ankusa.Prelude.{
  List, ◌≡◌, ◌↔◌, ◌⊎◌, inl, inr, refl, arith, Option, none, some, Text, Bytes, Result, ok, err,
  bind-eq-ok,
}
use ankusa.Json.{Json, null, Props, get}
use ankusa.Http.{Gateway}
use ankusa.Worker.Raw.{Failure, claim_failure, unknown, permanent, Reader, shown}
use ankusa.Worker.Rabbit.Fetch.{IsFetched, fetch_sound, fetch_complete}
use ankusa.Worker.Rabbit.{
  acked, requeued, Fetched, lines_of, handle_hook, resolve_body, decode, settlement_of, settle,
}

module _ (r : Reader) where
  acked_result :
      {A : Type 0} (x : Result Failure A) → settlement_of x ≡ acked → (a : A) × (x ≡ ok a)
  acked_result (ok a) h = (a, refl)
  acked_result (err permanent) h = absurd (ground arith)
  acked_result (err unknown) h = absurd (ground arith)
  acked_result (err (claim_failure e)) h = absurd (ground arith)

  -- The values in the lines of a hook have each a text.
  abbrev pub IsShown : Option Json → Type 0
  IsShown o = (t : Text) × (shown r o ≡ ok t)

  abbrev pub IsPrintable : Props → Type 0
  IsPrintable raw =
      IsShown (get "id" raw)
      × IsShown (get "source_id" raw)
      × IsShown (get "tenant_id" raw)
      × IsShown (get "size" raw)

  handle_hook_sound :
      (raw : Props) (routing_key : Text) (f : Fetched) (lines : List Text)
      → handle_hook r raw routing_key f ≡ ok lines
      → IsPrintable raw
  unfolding handle_hook
  handle_hook_sound raw routing_key f lines h =
      let (id, p, h1) = bind-eq-ok (shown r (get "id" raw)) _ h in
      let (source_id, q, h2) = bind-eq-ok (shown r (get "source_id" raw)) _ h1 in
      let (tenant_id, s, h3) = bind-eq-ok (shown r (get "tenant_id" raw)) _ h2 in
      let (size, t, h4) = bind-eq-ok (shown r (get "size" raw)) _ h3 in
      ((id, p), (source_id, q), (tenant_id, s), (size, t))

  pub handle_hook_complete :
      (raw : Props) (routing_key : Text) (f : Fetched)
      → IsPrintable raw
      → (lines : List Text) × (handle_hook r raw routing_key f ≡ ok lines)
  unfolding handle_hook
  handle_hook_complete raw routing_key f ((id, p), (source_id, q), (tenant_id, s), (size, t)) =
      (lines_of r routing_key f id source_id tenant_id size, rw (p, q, s, t) refl)

  -- The worker acknowledges a delivery exactly when it parses, its body is at hand, and each value that
  -- is printed of it has a text. The body is the bytes of a claim redeemed with the message's own
  -- digest, or, where the message states no claim, the decoded inline body.
  pub settle-acked_iff :
      (routing_key : Text) (content : Bytes)
      → (settle r routing_key content ≡ acked) ↔ (
          (raw : Props) × (f : Fetched) × (decode r content ≡ ok raw)
          × IsFetched r (get "claim" raw) (get "sha256" raw) (get "body_base64" raw) f
          × IsPrintable raw)
  unfolding settle
  settle-acked_iff routing_key content = (
    λ h.
        let (lines, got) = acked_result _ h in
        let (raw, parses, h1) = bind-eq-ok (decode r content) _ got in
        let (f, fetched, printed) = bind-eq-ok (resolve_body r raw) _ h1 in
        (
          raw,
          f,
          parses,
          fetch_sound r _ _ _ f fetched,
          handle_hook_sound raw routing_key f lines printed,
        ),
    λ (raw, f, parses, fetched, printable).
        let body =
          fetch_complete r (get "claim" raw) (get "sha256" raw) (get "body_base64" raw) f fetched in
        let (lines, printed) = handle_hook_complete raw routing_key f printable in
        rw (parses, body, printed),
  )

  -- A delivery whose text is not JSON, or is the JSON `null`, is put back in the queue, whatever the
  -- gateway answers: it is delivered for ever.
  pub settle_poison :
      (content : Bytes)
      → (r.rt.parse_json (r.utf8_text content) ≡ none)
        ⊎ (r.rt.parse_json (r.utf8_text content) ≡ some null)
      → (gateway : Gateway Bytes) (routing_key : Text)
      → settle (record r { gateway = gateway }) routing_key content ≡ requeued
  unfolding settle
  settle_poison content (inl e) gateway routing_key = rw e
  settle_poison content (inr e) gateway routing_key = rw e
