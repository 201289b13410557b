-- ===== src/Worker/Sqs/Empties.antt =====
-- How the worker comes to the end of a group, once SQS takes what it is sent and no failure is one to retry.
use ankusa.Prelude.{Run, true, ◌≡◌, List, Text, All, text_eq}
use ankusa.Runtime.{Runtime}
use ankusa.Worker.Sqs.{SqsMessage}
use ankusa.Worker.Sqs.Run.{group_of}
use ankusa.Worker.Sqs.Queue.{Queue}

-- What waits in a group is of the group.
abbrev IsGrouped : (Text → List SqsMessage) → Type 0
IsGrouped waiting = (g : Text) → All (λ m. text_eq g (group_of m) ≡ true) (waiting g)
