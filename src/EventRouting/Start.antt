-- ===== src/EventRouting/Start.antt =====
-- How the receiver and the worker of examples/event-routing start and stop.
mod Laws
use ankusa.Prelude.{
  ℕ, Bool, true, false, Option, none, some, List, [], ◌∷◌, ◌++◌, map, Text, codes, eqb,
  if◌then◌else◌,
}
use ankusa.Json.{Number}
use ankusa.Starting.{Env, setting, ask_all}
use ankusa.EventRouting.Receiver.{required_secret}

abbrev pub add_to_first : ℕ → List Text → List Text
add_to_first x [] = (x ∷ []) ∷ []
add_to_first x (t ∷ ts) = (x ∷ t) ∷ ts

-- `text.split(separator)`, of one character.
unfoldable pub split : (separator : ℕ) → Text → List Text
split c [] = [] ∷ []
split c (x ∷ s) = let rest = split c s in if eqb x c then [] ∷ rest else add_to_first x rest

-- `texts.join(separator)`
abbrev pub join : (separator : Text) → List Text → Text
join c [] = []
join c (t ∷ []) = t
join c (t ∷ u ∷ ts) = let rest = join c (u ∷ ts) in t ++ (c ++ rest)

abbrev pub brokers : Env → List Text
brokers env = split b',' (setting env "KAFKA_BROKERS" "redpanda:9092")

abbrev pub topics : List Text
topics = codes "events.invoice.paid" ∷ codes "events.other" ∷ []

-- What is asked of Kafka; each topic from its beginning.
pub data Ask : Type 0 where
  connect : (client_id : Text) → (brokers : List Text) → (group_id : Text) → Ask
  subscribe : (topic : Text) → Ask
  run : Ask

abbrev pub asks : Env → List Ask
asks env =
    connect (codes "event-routing-worker") (brokers env) (codes "event-routing-worker")
    ∷ (map subscribe topics ++ (run ∷ []))

-- How `main` ends: with the line that it prints, or by the exit with 1.
pub data Ended : Type 0 where
  consuming : (topics brokers : Text) → Ended
  exited : Ended

abbrev pub ended : Env → List Ask × Bool → Ended
ended env (done, true) = consuming (join (codes ", ") topics) (join (codes ",") (brokers env))
ended env (done, false) = exited

unfoldable pub main : (grants : List Ask → Ask → Bool) → Env → Ended
main grants env = ended env (ask_all grants (asks env) [])

-- Where the receiver listens, and with which secret.
pub data Begun : Type 0 where
  listening : (port : Number) → (secret : Text) → Begun
  ended_with : (status : ℕ) → Begun

abbrev pub begin_with : Number → Option Text → Begun
begin_with port none = ended_with 1
begin_with port (some secret) = listening port secret

-- The receiver's start; `number_of` is `Number(text)`.
abbrev pub begin : (number_of : Text → Number) → Env → Begun
begin number_of env =
    begin_with (number_of (setting env "PORT" "3000")) (required_secret (env "SINK_WHSEC"))

-- What a signal does, in this order; the worker leaves its group even if that fails.
pub data Stopping : Type 0 where
  disconnect : Stopping
  close_server : Stopping
  exit : (status : ℕ) → Stopping

abbrev pub stop_worker : List Stopping
stop_worker = disconnect ∷ exit 0 ∷ []

abbrev pub stop_receiver : List Stopping
stop_receiver = close_server ∷ exit 0 ∷ []
