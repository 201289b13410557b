-- ===== src/Worker/Sqs/Completes.antt =====
-- A batch whose commands SQS takes, whatever the messages are.
use ankusa.Prelude.{Bool, true, false, ◌≡◌, refl, arith, Option, none, some, List, [], ◌∷◌}
use ankusa.Json.{Json}
use ankusa.Worker.Raw.{Failure}
use ankusa.Worker.Sqs.{SqsMessage, Command, delete_message, Event, Batch, World}
use ankusa.Worker.Sqs.Run.{
  Step, group_of, contains, ask, back_off, remove, remove_sent, dead_letter, is_permanent, attempt,
  caught, recover, turn, then_rest, process_one, process_messages, process_batch, fresh,
}

module _ (w : World) (takes : (log : List Event) (c : Command) → w.sqs log c ≡ true) where
  ask_completes : (c : Command) (s : Batch) → (ask w c s).1 ≡ none
  unfolding ask
  ask_completes c s = rw (takes s.log c)

  remove_sent_completes : (m : SqsMessage) (t : Step) → t.1 ≡ none → (remove_sent w m t).1 ≡ none
  unfolding remove
  remove_sent_completes m (s, none) e = ask_completes (delete_message m) s
  remove_sent_completes m (s, some f) e = absurd (ground arith)

  caught_completes :
      (m : SqsMessage) (f : Failure) (s : Batch) (b : Bool) → (caught w m f s b).1 ≡ none
  unfolding dead_letter back_off
  caught_completes m f s true = remove_sent_completes m _ (ask_completes _ s)
  caught_completes m f s false = ask_completes _ _

  recover_completes : (m : SqsMessage) (t : Step) → (recover w m t).1 ≡ none
  recover_completes m (s, none) = refl
  recover_completes m (s, some f) = caught_completes m f s (is_permanent f)

  turn_completes : (m : SqsMessage) (s : Batch) (b : Bool) → (turn w m s b).1 ≡ none
  unfolding back_off
  turn_completes m s true = ask_completes _ s
  turn_completes m s false = recover_completes m (attempt w m s)

  then_rest_completes :
      (t : Step) (rest : Batch → Step)
      → t.1 ≡ none
      → ((s : Batch) → (rest s).1 ≡ none)
      → (then_rest t rest).1 ≡ none
  then_rest_completes (s, none) rest e goes = goes s
  then_rest_completes (s, some f) rest e goes = absurd (ground arith)

  process_messages_completes :
      (ms : List SqsMessage) (s : Batch) → (process_messages w ms s).1 ≡ none
  unfolding process_messages
  process_messages_completes [] s = refl
  process_messages_completes (m ∷ ms) s =
      then_rest_completes (process_one w m s) _
        (turn_completes m s (contains (group_of m) s.blocked)) (process_messages_completes ms)

  -- If SQS takes every command, no message stops the batch: nothing is thrown out of it.
  process_batch_completes :
      (processed : List (Option Json)) (ms : List SqsMessage)
      → (process_batch w processed ms).1 ≡ none
  unfolding process_batch
  process_batch_completes processed ms = process_messages_completes ms (fresh processed)
