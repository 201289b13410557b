-- ===== src/EventRouting/Tests.antt =====
-- A signed delivery to the receiver, one to another path, and records of the worker.
use ankusa.Prelude.{Bool, Text, true, ◌≡◌, ◌≢◌, refl, some, none, [], ◌∷◌, codes, ok, text_eq}
use ankusa.Json.{Number}
use ankusa.Fixtures.{runtime}
use ankusa.Message.Fields.{is_sha256}
use ankusa.Webhook.Headers.{
  single, parse_headers, parse_received_at, parse_body_sha256, parse_verification_headers,
}
use ankusa.Webhook.Signature.Tests.{verifier}
use ankusa.Webhook.Receive.{receive_delivery, judge}
use ankusa.EventRouting.Receiver.{World, Request, event_type_of, reply}
use ankusa.EventRouting.Receiver.Laws.{IsAnswered, reply_iff}
use ankusa.EventRouting.Start.{
  split, brokers, Ask, subscribe, consuming, exited, main, ended_with, begin,
}
use ankusa.EventRouting.Worker.{each_message}

abbrev world : World
world = record { rt = runtime; clock = 101; utf8_text = λ body. body }

abbrev signed : Request
signed = record {
  method = some (codes "POST");
  url = some (codes "/invoices");
  headers =
      ("webhook-id", single (codes "m"))
      ∷ ("webhook-timestamp", single (codes "100"))
      ∷ ("webhook-signature", single (codes "v1,km.100.hi"))
      ∷ ("x-ankusa-id", single (codes "01a0"))
      ∷ [];
  chunks = codes "h" ∷ codes "i" ∷ [];
}

reply_signed : (reply world (codes "k") signed).status ≡ 204
unfolding reply receive_delivery judge verifier parse_headers parse_received_at parse_body_sha256
    parse_verification_headers is_sha256 event_type_of text_eq
reply_signed = refl

reply_elsewhere : (reply world (codes "k") (record signed { url = some (codes "/") })).status ≡ 404
unfolding reply text_eq
reply_elsewhere = refl

each_message_null : each_message runtime (λ body. body) (codes "events.other") none ≡ ok []
unfolding each_message
each_message_null = refl

reply_iff_example :
    (codes "k" ≢ []) × IsAnswered world (codes "k") signed (reply world (codes "k") signed).status
reply_iff_example = reply_iff world (some (codes "k")) (codes "k") signed refl

-- Two brokers; and a worker whose second topic is refused.
brokers_two : brokers (λ name. some (codes "a:1,b:2")) ≡ codes "a:1" ∷ codes "b:2" ∷ []
unfolding split
brokers_two = refl

abbrev is_first : Ask → Bool
is_first (subscribe topic) = text_eq topic (codes "events.invoice.paid")
is_first _ = true

main_granted :
    main (λ done a. true) (λ name. none)
    ≡ consuming (codes "events.invoice.paid, events.other") (codes "redpanda:9092")
unfolding main split
main_granted = refl

main_refused : main (λ done a. is_first a) (λ name. none) ≡ exited
unfolding main split text_eq
main_refused = refl

begin_no_secret : (number_of : Text → Number) → begin number_of (λ name. some []) ≡ ended_with 1
begin_no_secret number_of = refl
