-- ===== src/Worker/Sqs/Queue.antt =====
-- The worker of examples/kafka-sqs-consumer and its FIFO queue, as one system: messages are published at
-- any time, each batch has the first messages of some groups, and the worker may be started again.
use ankusa.Prelude.{
  drop, ℕ, ◌≤◌, Bool, ◌≡◌, List, [], ◌∷◌, ◌++◌, Option, Text, length, text_eq, if◌then◌else◌,
}
use ankusa.Json.{Json}
use ankusa.Runtime.{Runtime}
use ankusa.Worker.Sqs.{SqsMessage, Event, World}
use ankusa.Worker.Sqs.Run.{group_of, process_batch}
use ankusa.Worker.Sqs.Turn.{deleted}
use ankusa.Worker.Sqs.Order.{in_group}

-- What was published and what is still in the queue, group by group and the first first; the ids in
-- `processed`, and what was done, the last first.
pub record Queue : Type 0 where
  pub published : Text → List SqsMessage
  pub waiting : Text → List SqsMessage
  pub processed : List (Option Json)
  pub log : List Event

abbrev pub start : Queue
start = record { published = λ g. []; waiting = λ g. []; processed = []; log = [] }

abbrev pub add : SqsMessage → (Text → List SqsMessage) → Text → List SqsMessage
add m f g = if text_eq g (group_of m) then f g ++ (m ∷ []) else f g

-- `MaxNumberOfMessages: 10`
abbrev pub max_messages : ℕ
max_messages = 10

-- SQS delivers the messages of a group in their order, from the first that was not deleted on.
abbrev pub IsReceived : Queue → List SqsMessage → Type 0
IsReceived q ms = (g : Text) → (later : List SqsMessage) × (in_group g ms ++ later ≡ q.waiting g)

pub data Step (rt : Runtime) (q : Queue) : Queue → Type 0 where
  publish :
      (m : SqsMessage)
      → Step rt q (record q { published = add m q.published; waiting = add m q.waiting })
  -- A batch that is received and processed, by a worker whose `JSON.parse` is that of `rt`. Where the
  -- answer to a delete was lost, SQS may have deleted the message or not: `is_sure` tells which, for
  -- each group.
  receive :
      (w : World) (ms : List SqsMessage) (is_sure : Text → Bool)
      → w.reader.rt ≡ rt
      → length ms ≤ max_messages
      → IsReceived q ms
      → Step rt q (record q {
        waiting = λ g.
            drop
              (length (in_group g (deleted (is_sure g) (process_batch w q.processed ms).0.log)))
              (q.waiting g);
        processed = (process_batch w q.processed ms).0.processed;
        log = (process_batch w q.processed ms).0.log ++ q.log;
      })
  -- The ids are kept in memory only.
  restart : Step rt q (record q { processed = [] })

-- The steps in which a worker of one world receives: nothing is published, and it is not restarted.
abbrev pub IsAt : {rt : Runtime} {p q : Queue} → World → Step rt p q → Type 0
IsAt w (publish m) = ⊥
IsAt w (receive v ms is_sure same few received) = v ≡ w
IsAt w restart = ⊥

abbrev pub StepAt : World → Queue → Queue → Type 0
StepAt w p q = (s : Step w.reader.rt p q) × IsAt w s

pub data Reach (rt : Runtime) : Queue → Type 0 where
  here : Reach rt start
  later : {p q : Queue} → Reach rt p → Step rt p q → Reach rt q
