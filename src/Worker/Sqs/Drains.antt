-- ===== src/Worker/Sqs/Drains.antt =====
-- A batch without a failure to retry, whose commands SQS takes.
use ankusa.Prelude.{
  Bool, true, false, ◌≡◌, refl, sym, ap, ◌∙◌, subst, arith, Option, none, some, List, [], ◌∷◌, ◌++◌,
  append_assoc, append-nil, Bytes, Result, ok, err, any, All,
}
use ankusa.Json.{Json, Props, get, same_value}
use ankusa.Worker.Raw.{Failure}
use ankusa.Worker.Sqs.{
  SqsMessage, Command, delete_message, send_message, asked, Event, Batch, World, parse,
}
use ankusa.Worker.Sqs.Run.{
  handled_body, Step, group_of, contains, remove, dead_letter, is_permanent, handle, attempt_body,
  attempt_id, attempt_parsed, attempt, caught, recover, turn, then_rest, process_one,
  process_messages, process_batch, fresh,
}
use ankusa.Worker.Sqs.Turn.{deleted}

-- What is thrown until the message's hook is handled is never to be retried.
pub record IsReady (w : World) (m : SqsMessage) : Type 0 where
  pub parses : (f : Failure) → parse w m ≡ err f → is_permanent f ≡ true
  pub handles :
      (raw : Props) (f : Failure)
      → parse w m ≡ ok raw
      → handled_body w raw ≡ err f
      → is_permanent f ≡ true

-- Nothing was thrown, no group is blocked, and the messages are deleted.
record IsDeleted (is_sure : Bool) (ms : List SqsMessage) (s : Batch) (t : Step) : Type 0 where
  through : t.1 ≡ none
  free : t.0.blocked ≡ []
  gone : deleted is_sure t.0.log ≡ deleted is_sure s.log ++ ms

module _ (is_sure : Bool) (w : World)
    (takes : (log : List Event) (c : Command) → w.sqs log c ≡ true) where
  module _ (m : SqsMessage) (s : Batch) (free : s.blocked ≡ []) where
    remove-IsDeleted :
        (t : Batch)
        → t.blocked ≡ s.blocked
        → deleted is_sure t.log ≡ deleted is_sure s.log
        → IsDeleted is_sure (m ∷ []) s (remove w m t)
    unfolding remove
    remove-IsDeleted t same e = record {
      through = rw (takes t.log (delete_message m)) refl;
      free = rw (takes t.log (delete_message m)) (same ∙ free);
      gone = rw (takes t.log (delete_message m)) (ap (λ x. x ++ (m ∷ [])) e);
    }

    dead_letter-IsDeleted : (f : Failure) → IsDeleted is_sure (m ∷ []) s (dead_letter w m f s)
    unfolding dead_letter
    dead_letter-IsDeleted f =
        rw (takes s.log (send_message m f))
          (remove-IsDeleted (record s { log = asked (send_message m f) true ∷ s.log }) refl refl)

    caught-IsDeleted :
        (f : Failure) (b : Bool) → b ≡ true → IsDeleted is_sure (m ∷ []) s (caught w m f s b)
    caught-IsDeleted f true h = dead_letter-IsDeleted f
    caught-IsDeleted f false h = absurd cc

    -- A deleted message is not caught.
    recover-IsDeleted :
        (t : Step) → IsDeleted is_sure (m ∷ []) s t → IsDeleted is_sure (m ∷ []) s (recover w m t)
    recover-IsDeleted (t, none) i = i
    recover-IsDeleted (t, some f) i = absurd (ground (arith, i.through))

    body-IsDeleted :
        (raw : Props) (id : Option Json) (r : Result Failure Bytes)
        → ((f : Failure) → r ≡ err f → is_permanent f ≡ true)
        → IsDeleted is_sure (m ∷ []) s (recover w m (attempt_body w m s id r))
    unfolding handle
    body-IsDeleted raw id (err f) final = caught-IsDeleted f (is_permanent f) (final f refl)
    body-IsDeleted raw id (ok body) final =
        recover-IsDeleted (remove w m (handle m id s)) (remove-IsDeleted (handle m id s) refl refl)

    id-IsDeleted :
        (raw : Props) (b : Bool)
        → ((f : Failure) → handled_body w raw ≡ err f → is_permanent f ≡ true)
        → IsDeleted is_sure (m ∷ []) s (recover w m (attempt_id w m s raw b))
    id-IsDeleted raw true final = recover-IsDeleted (remove w m s) (remove-IsDeleted s refl refl)
    id-IsDeleted raw false final = body-IsDeleted raw (get "id" raw) (handled_body w raw) final

    parsed-IsDeleted :
        (r : Result Failure Props)
        → parse w m ≡ r
        → IsReady w m
        → IsDeleted is_sure (m ∷ []) s (recover w m (attempt_parsed w m s r))
    parsed-IsDeleted (err f) e ready = caught-IsDeleted f (is_permanent f) (ready.parses f e)
    parsed-IsDeleted (ok raw) e ready =
        id-IsDeleted raw (any (same_value (get "id" raw)) s.processed) (λ f. ready.handles raw f e)

    one-IsDeleted : IsReady w m → IsDeleted is_sure (m ∷ []) s (process_one w m s)
    unfolding process_one attempt
    one-IsDeleted ready =
        subst (λ b. IsDeleted is_sure (m ∷ []) s (turn w m s b))
          (sym (ap (contains (group_of m)) free)) (parsed-IsDeleted (parse w m) refl ready)

  rest-IsDeleted :
      (m : SqsMessage) (ms : List SqsMessage) (s : Batch) (t : Step)
      → IsDeleted is_sure (m ∷ []) s t
      → ((u : Batch) → u.blocked ≡ [] → IsDeleted is_sure ms u (process_messages w ms u))
      → IsDeleted is_sure (m ∷ ms) s (then_rest t (λ u. process_messages w ms u))
  rest-IsDeleted m ms s (t, some f) i rest = absurd (ground (arith, i.through))
  rest-IsDeleted m ms s (t, none) i rest =
      let j = rest t i.free in
      record {
        through = j.through;
        free = j.free;
        gone =
            j.gone ∙ (ap (λ x. x ++ ms) i.gone ∙ append_assoc (deleted is_sure s.log) (m ∷ []) ms);
      }

  messages-IsDeleted :
      (ms : List SqsMessage) (s : Batch)
      → All (IsReady w) ms
      → s.blocked ≡ []
      → IsDeleted is_sure ms s (process_messages w ms s)
  unfolding process_messages
  messages-IsDeleted [] s ready free = record {
    through = refl;
    free = free;
    gone = sym (append-nil (deleted is_sure s.log));
  }
  messages-IsDeleted (m ∷ ms) s (first, ready) free =
      rest-IsDeleted m ms s (process_one w m s) (one-IsDeleted m s free first)
        (λ u. messages-IsDeleted ms u ready)

  -- If SQS takes every command, and no message of a batch meets a failure that is to be retried, nothing
  -- is thrown out of the batch, and SQS has deleted each of its messages, in their order: the batch is
  -- handled or dead-lettered as a whole.
  pub process_batch_deletes :
      (processed : List (Option Json)) (ms : List SqsMessage)
      → All (IsReady w) ms
      → ((process_batch w processed ms).1 ≡ none)
        × (deleted is_sure (process_batch w processed ms).0.log ≡ ms)
  unfolding process_batch
  process_batch_deletes processed ms ready =
      let i = messages-IsDeleted ms (fresh processed) ready refl in (i.through, i.gone)
