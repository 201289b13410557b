-- ===== src/Worker/Sqs/Fifo/Tests.antt =====
-- A message that is published to the queue, received and deleted.
use ankusa.Prelude.{drop, Run, true, ◌≡◌, refl, ◌++◌, length, [], ◌∷◌, codes}
use ankusa.Json.{obj}
use ankusa.Worker.Sqs.{World}
use ankusa.Worker.Sqs.Run.{process_batch}
use ankusa.Worker.Sqs.Turn.{deleted}
use ankusa.Worker.Sqs.Order.{in_group}
use ankusa.Worker.Sqs.Queue.{Queue, start, add}
use ankusa.Worker.Sqs.Tests.{raw_hook, world, sqs_message, worker}

abbrev asking : World
asking = world (obj raw_hook)

abbrev published : Queue
published = record start {
  published = add sqs_message start.published;
  waiting = add sqs_message start.waiting;
}

abbrev processed : Queue
processed = record published {
  waiting = λ g.
      drop (length (in_group g (deleted true (process_batch asking [] (sqs_message ∷ [])).0.log)))
        (published.waiting g);
  processed = (process_batch asking [] (sqs_message ∷ [])).0.processed;
  log = (process_batch asking [] (sqs_message ∷ [])).0.log ++ [];
}

-- The queue is empty then.
processed-waiting : processed.waiting (codes "g") ≡ []
unfolding worker
processed-waiting = refl
