-- ===== src/Webhook/Headers/Tests.antt =====
-- Headers of concrete deliveries.
use ankusa.Prelude.{String, ◌≡◌, refl, ok, some, none, codes, [], ◌∷◌, List}
use ankusa.Fixtures.{runtime}
use ankusa.Message.Fields.{is_sha256}
use ankusa.Webhook.Headers.{
  HeaderValue, undefined, single, several, object, HookHeaders, parse_received_at,
  parse_body_sha256, parse_verification_headers, parse_headers,
}
use ankusa.ClaimCheck.Ref.{is_digit}
use ankusa.Webhook.Headers.Laws.{IsDelivery, parse_headers-IsDelivery}

abbrev sent : List (String × HeaderValue)
sent =
    ("X-Ankusa-Id", several (codes "01a0" ∷ codes "01a1" ∷ []))
    ∷ ("x-ankusa-source", undefined)
    ∷ ("x-ankusa-replay-id", single [])
    ∷ ("x-ankusa-received-at", single (codes "172"))
    ∷ []

abbrev parsed : HookHeaders
parsed = record {
  id = codes "01a0";
  source = [];
  tenant = none;
  content_type = none;
  dedupe_key = none;
  replay_id = none;
  idempotency_key = none;
  received_at = some 172;
  body_sha256 = none;
  verification = none;
}

parse_sent : parse_headers runtime (object sent) ≡ ok parsed
unfolding parse_headers parse_received_at parse_body_sha256 parse_verification_headers is_sha256
    is_digit
parse_sent = refl

parse_headers-IsDelivery_example : IsDelivery runtime (object sent) parsed
parse_headers-IsDelivery_example = parse_headers-IsDelivery runtime (object sent) parsed parse_sent
