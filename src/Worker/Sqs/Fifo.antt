-- ===== src/Worker/Sqs/Fifo.antt =====
-- What holds of the worker and its FIFO queue in every reachable state.
mod Tests
use ankusa.Prelude.{ℕ, ◌≡◌, arith, Option, List, ◌++◌, append-nil, Text, All, Bool-cases}
use ankusa.Json.{Json}
use ankusa.Runtime.{Runtime}
use ankusa.Worker.Sqs.{SqsMessage, World}
use ankusa.Worker.Sqs.Dealt.{IsDealt, IsRemembered}
use ankusa.Worker.Sqs.Queue.{Queue, start, add, IsReceived}

-- Of each group, the messages that are gone are the first that were published, and were dealt with; the
-- others wait in their order.
abbrev pub IsFifo : Runtime → Queue → Type 0
IsFifo rt q =
    (g : Text)
    → (gone : List SqsMessage) × (gone ++ q.waiting g ≡ q.published g) × All (IsDealt rt q.log) gone

record Inv (rt : Runtime) (q : Queue) : Type 0 where
  fifo : IsFifo rt q
  known : IsRemembered q.processed q.log
