-- ===== src/Worker/Fleet/Table/Tests.antt =====
-- Two hooks with one key, written in either order.
use mathlib.Core.List.{Permᴰ}
use mathlib.Core.Quot
use ankusa.Prelude.{
  true, ◌≡◌, refl, arith, Option, some, none, [], ◌∷◌, Bytes, Text, codes, text_eq, ok,
}
use ankusa.Json.{Json, str, obj, Props, end, prop, get}
use ankusa.Http.{failed}
use ankusa.Fixtures.{runtime, digest}
use ankusa.Worker.Rabbit
use ankusa.Worker.Rabbit.{decode}
use ankusa.Worker.Rabbit.Tests.{reader}
use ankusa.Worker.Fleet.{World, Entry, Table, read, new_row, upsert, bump}
use ankusa.Worker.Fleet.System.{Fleet, publish, deliver, store, Reach, here, later}
use ankusa.Worker.Fleet.Table.Unordered.{deliveries_at, has_at, tables_agree}

abbrev raw_of : Bytes → Props
raw_of content = prop "id" (str content) (
    prop "source_id" (str (codes "demo"))
      (prop "idempotency_key" (str (codes "k")) (prop "body_base64" (str (codes "aGk=")) end)))

abbrev text_param : Json → Option Text
text_param (str t) = some t
text_param _ = none

abbrev world : World
world = record {
  reader = record reader { rt = record runtime { parse_json = λ t. some (obj (raw_of t)) } };
  param = text_param;
  can_hold = λ e. true;
}

abbrev entry : Bytes → Entry
entry content = record {
  key = codes "k";
  ankusa_id = content;
  source_id = codes "demo";
  tenant_id = none;
  body = codes "hi";
  body_sha256 = digest;
  via = codes "inline";
}

abbrev a : Bytes
a = codes "a"

abbrev b : Bytes
b = codes "b"

read_entry : (content : Bytes) → read world content ≡ ok (entry content)
unfolding read decode get Rabbit.resolve_body
read_entry content = refl

-- The row of a first hook and then another.
abbrev table_of : Bytes → Bytes → Table
table_of x y =
    (codes "k", record (new_row (entry x)) { deliveries = 2; hook_ids = x ∷ y ∷ [] }) ∷ []

abbrev written : Bytes → Bytes → Fleet
written x y = record {
  published = b ∷ a ∷ [];
  queue = [];
  flight = [];
  stored = y ∷ x ∷ [];
  acked = [];
  dead = [];
  table = table_of x y;
  log = entry y ∷ entry x ∷ [];
}

-- Both are in flight, the second first.
abbrev flying : Fleet
flying = record (written a b) { flight = b ∷ a ∷ []; stored = []; table = []; log = [] }

flying-Reach : Reach world flying
flying-Reach =
    later
      (later (later (later here (publish a)) (publish b)) (deliver a (b ∷ []) refl (omega arith)))
      (deliver b [] refl (omega arith))

ab-Reach : Reach world (written a b)
unfolding upsert bump text_eq
ab-Reach =
    later
      (later flying-Reach (
        store a (b ∷ []) [] (λ r. failed) (entry a) ((codes "k", new_row (entry a)) ∷ []) refl
          (read_entry a) refl))
      (store b [] [] (λ r. failed) (entry b) (table_of a b) refl (read_entry b) refl)

ba-Reach : Reach world (written b a)
unfolding upsert bump text_eq
ba-Reach =
    later
      (later flying-Reach (
        store b [] (a ∷ []) (λ r. failed) (entry b) ((codes "k", new_row (entry b)) ∷ []) refl
          (read_entry b) refl))
      (store a [] [] (λ r. failed) (entry a) (table_of b a) refl (read_entry a) refl)

tables_agree_example :
    (deliveries_at (codes "k") (table_of a b) ≡ deliveries_at (codes "k") (table_of b a))
    × (has_at (codes "k") b (table_of a b) ≡ has_at (codes "k") b (table_of b a))
tables_agree_example =
    tables_agree world (written a b) (written b a) ab-Reach ba-Reach
      (Quot.sound (Permᴰ.swap refl refl)) (codes "k") b
