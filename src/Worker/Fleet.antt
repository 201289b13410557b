-- ===== src/Worker/Fleet.antt =====
-- examples/fleet-e2e/consumer/src/worker.ts: what one message writes to the table, and the table.
pub mod Table
pub mod Connect
pub mod System
pub mod Safety
pub mod Room
pub mod Drains
pub mod Refines
pub mod Main
mod Tests
use ankusa.Prelude.{
  ℕ, suc, ◌+◌, Bool, true, false, Option, none, some, List, [], ◌∷◌, ◌++◌, Text, Bytes, any, ltb,
  text_eq, if◌then◌else◌, Result, ok, err, ◌>>=◌,
}
use ankusa.Json.{Json, null, Props, get}
use ankusa.Http.{Gateway}
use ankusa.Worker.Raw.{Failure, unknown, Reader}
use ankusa.Worker.Rabbit
use ankusa.Worker.Rabbit.{Fetched, decode}

-- `resolveBody`, which is that of the RabbitMQ worker.
abbrev pub resolve_body : Reader → Props → Result Failure Fetched
resolve_body = Rabbit.resolve_body

-- The values of the INSERT.
pub record Entry : Type 0 where
  pub key : Text
  pub ankusa_id : Text
  pub source_id : Text
  pub tenant_id : Option Text
  pub body : Bytes
  pub body_sha256 : Text
  pub via : Text

-- What the consumer runs on: `param` is the text that the database driver binds for a value, where
-- `none` is NULL, and `can_hold` tells which values PostgreSQL can store at all: not a text with U+0000,
-- nor a key that is too long for its index.
pub record World : Type 0 where
  pub reader : Reader
  pub param : Json → Option Text
  pub can_hold : Entry → Bool

-- A row of `processed_webhooks`; `processed_at` is left out.
pub record Row : Type 0 where
  pub ankusa_id : Text
  pub source_id : Text
  pub tenant_id : Option Text
  pub body : Bytes
  pub body_sha256 : Text
  pub deliveries : ℕ
  pub via : Text
  pub hook_ids : List Text

-- The rows by their primary key.
abbrev pub Table : Type 0
Table = List (Text × Row)

abbrev pub bound : World → Option Json → Option Text
bound w none = none
bound w (some null) = none
bound w (some v) = w.param v

-- A NULL in a NOT NULL column is refused by the database.
abbrev pub not_null : Option Text → Result Failure Text
not_null none = err unknown
not_null (some t) = ok t

-- Values that it cannot store are refused as well, with or without a row at the key.
abbrev pub storable_entry : World → Entry → Result Failure Entry
storable_entry w e = if w.can_hold e then ok e else err unknown

-- `msg.idempotency_key ?? msg.id`
abbrev pub or_id : Option Json → Option Json → Option Json
or_id none id = id
or_id (some null) id = id
or_id (some key) id = some key

unfoldable pub entry_of : World → Props → Fetched → Result Failure Entry
entry_of w raw f = do
  key ← not_null (bound w (or_id (get "idempotency_key" raw) (get "id" raw)))
  id ← not_null (bound w (get "id" raw))
  source_id ← not_null (bound w (get "source_id" raw))
  storable_entry w (record {
    key = key;
    ankusa_id = id;
    source_id = source_id;
    tenant_id = bound w (get "tenant_id" raw);
    body = f.body;
    body_sha256 = w.reader.rt.sha256_hex f.body;
    via = f.via;
  })

-- What a delivery writes.
unfoldable pub read : World → Bytes → Result Failure Entry
unfolding entry_of
read w content = do raw ← decode w.reader content; f ← resolve_body w.reader raw; entry_of w raw f

abbrev pub new_row : Entry → Row
new_row e = record {
  ankusa_id = e.ankusa_id;
  source_id = e.source_id;
  tenant_id = e.tenant_id;
  body = e.body;
  body_sha256 = e.body_sha256;
  deliveries = 1;
  via = e.via;
  hook_ids = e.ankusa_id ∷ [];
}

abbrev pub has_id : Text → List Text → Bool
has_id id = any (λ x. text_eq x id)

-- The largest value of a column of type integer.
abbrev pub max_integer : ℕ
max_integer = 2147483647

-- The CASE of the UPDATE: an id is added once.
abbrev pub add_id : Text → List Text → List Text
add_id id ids = if has_id id ids then ids else ids ++ (id ∷ [])

-- ON CONFLICT DO UPDATE; a sum that is no integer is refused. A row may be of any size.
unfoldable pub bump : Entry → Row → Option Row
bump e row =
    if ltb row.deliveries max_integer
    then some
        (record row { deliveries = row.deliveries + 1; hook_ids = add_id e.ankusa_id row.hook_ids })
    else none

abbrev pub with_row : Text → Table → Option Row → Option Table
with_row key t none = none
with_row key t (some row) = some ((key, row) ∷ t)

abbrev pub with_rest : Text → Row → Option Table → Option Table
with_rest key row none = none
with_rest key row (some t) = some ((key, row) ∷ t)

abbrev pub upsert_at :
    Entry → Text → Row → Table → (rest : Option Table) → (is_key : Bool) → Option Table
upsert_at e key row t rest true = with_row key t (bump e row)
upsert_at e key row t rest false = with_rest key row rest

-- The statement, with values that the database can store; `none` is a refusal, which changes nothing.
unfoldable pub upsert : Entry → Table → Option Table
upsert e [] = some ((e.key, new_row e) ∷ [])
upsert e ((key, row) ∷ t) = upsert_at e key row t (upsert e t) (text_eq key e.key)
