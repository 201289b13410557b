-- ===== src/Worker/Rabbit/Tests.antt =====
-- An inline delivery, a claim, and a text that is not JSON.
use ankusa.Prelude.{◌≡◌, ◌↔◌, refl, inl, ok, some, none, codes, []}
use ankusa.Json.{str, obj, Props, end, prop, get}
use ankusa.Http.{failed}
use ankusa.Fixtures.{runtime}
use ankusa.Worker.Raw.{Reader}
use ankusa.Worker.Rabbit.{acked, requeued, Fetched, settle, decode}
use ankusa.Worker.Rabbit.Fetch.{IsFetched}
use ankusa.Worker.Rabbit.Laws.{IsPrintable, settle-acked_iff, settle_poison}

abbrev pub raw_inline : Props
raw_inline = prop "id" (str (codes "01a0")) (prop "body_base64" (str (codes "aGk=")) end)

abbrev pub reader : Reader
reader = record {
  rt = record runtime { parse_json = λ t. some (obj raw_inline) };
  gateway = λ r. failed;
  number_text = λ n. [];
  object_text = λ v. some [];
  buffer_from = λ v. some (codes "hi");
  utf8_text = λ b. b;
}

settle-raw_inline : settle reader [] [] ≡ acked
unfolding settle get
settle-raw_inline = refl

settle-acked_iff_example : (settle reader [] [] ≡ acked) ↔ (
    (raw : Props) × (f : Fetched) × (decode reader [] ≡ ok raw)
    × IsFetched reader (get "claim" raw) (get "sha256" raw) (get "body_base64" raw) f
    × IsPrintable reader raw)
settle-acked_iff_example = settle-acked_iff reader [] []

abbrev mute : Reader
mute = record reader { rt = record runtime { parse_json = λ t. none } }

settle_poison_example : settle (record mute { gateway = λ r. failed }) [] [] ≡ requeued
settle_poison_example = settle_poison mute [] (inl refl) (λ r. failed) []
