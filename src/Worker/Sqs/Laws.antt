-- ===== src/Worker/Sqs/Laws.antt =====
-- What a batch does, in any order of failures.
use ankusa.Prelude.{
  Bool, true, false, ◌≡◌, inl, inr, refl, ◌∙◌, ap, subst, arith, Option, none, some, List, [], ◌∷◌,
  Bytes, any, text_eq_refl, Result, ok, err, bind-eq-ok,
}
use ankusa.Json.{same_value, Json, null, Props, get}
use ankusa.Worker.Raw.{Failure}
use ankusa.Worker.Sqs.{
  SqsMessage, delete_message, send_message, Batch, World, text_or_empty, parse, resolve_body,
}
use ankusa.Worker.Sqs.Run.{
  handled_body, hook_texts, Step, group_of, contains, back_off, answered, turn, caught,
  attempt_body, attempt_id, attempt_parsed, remove, dead_letter, is_permanent, handle,
  attempt_parsed, attempt, block, recover, process_one, then_rest, process_messages, process_batch,
  fresh,
}
use ankusa.Worker.Sqs.Log.{backed, ids, IsDone, IsLog}
use ankusa.Worker.Sqs.Asking.{IsBatch, remove_keeps, back_off_keeps, remove_sent_keeps}

-- A hook that was handled had its body.
handled-resolved :
    (w : World) (raw : Props) (body : Bytes)
    → handled_body w raw ≡ ok body
    → resolve_body w raw ≡ ok body
unfolding handled_body
handled-resolved w raw body h =
    let (b, got, printed) = bind-eq-ok (resolve_body w raw) _ h in
    let (texts, shown, done) = bind-eq-ok (hook_texts w.reader raw) _ printed in got ∙ done

module _ (w : World) (before : List (Option Json)) where
  abbrev IsAttempt : SqsMessage → Step → Type 0
  IsAttempt m t = IsBatch w before t.0 × (contains (group_of m) (backed t.0.log) ≡ false)

  backed-answered :
      (m : SqsMessage) (s : Batch) (b : Bool)
      → backed (answered (delete_message m) s b).0.log ≡ backed s.log
  backed-answered m s true = refl
  backed-answered m s false = refl

  remove-IsAttempt :
      (m : SqsMessage) (s : Batch)
      → IsBatch w before s
      → contains (group_of m) (backed s.log) ≡ false
      → IsDone w before m s.log
      → IsAttempt m (remove w m s)
  unfolding remove
  remove-IsAttempt m s good free done = (
    remove_keeps w before m s good free done,
    ap (contains (group_of m)) (backed-answered m s (w.sqs s.log (delete_message m))) ∙ free,
  )

  body-IsAttempt :
      (m : SqsMessage) (s : Batch) (raw : Props) (r : Result Failure Bytes)
      → IsBatch w before s
      → contains (group_of m) (backed s.log) ≡ false
      → parse w m ≡ ok raw
      → any (same_value (get "id" raw)) s.processed ≡ false
      → handled_body w raw ≡ r
      → IsAttempt m (attempt_body w m s (get "id" raw) r)
  unfolding attempt
  body-IsAttempt m s raw (err f) good free parsed new e = (good, free)
  body-IsAttempt m s raw (ok body) good free parsed new e =
      remove-IsAttempt m (handle m (get "id" raw) s)
        (record {
          sound = (
            free,
            (
              raw,
              parsed,
              refl,
              (body, handled-resolved w raw body e),
              subst (λ l. any (same_value (get "id" raw)) l ≡ false) good.known new,
            ),
            good.sound,
          );
          known = ap (λ l. get "id" raw ∷ l) good.known;
          blocking = good.blocking;
        })
        free (inl (get "id" raw, s.log, refl))

  id-IsAttempt :
      (m : SqsMessage) (s : Batch) (raw : Props) (b : Bool)
      → IsBatch w before s
      → contains (group_of m) (backed s.log) ≡ false
      → parse w m ≡ ok raw
      → any (same_value (get "id" raw)) s.processed ≡ b
      → IsAttempt m (attempt_id w m s raw b)
  unfolding attempt
  id-IsAttempt m s raw true good free parsed e =
      remove-IsAttempt m s good free (
        inr (inr (raw, parsed, subst (λ l. any (same_value (get "id" raw)) l ≡ true) good.known e)))
  id-IsAttempt m s raw false good free parsed e =
      body-IsAttempt m s raw (handled_body w raw) good free parsed e refl

  parsed-IsAttempt :
      (m : SqsMessage) (s : Batch) (r : Result Failure Props)
      → IsBatch w before s
      → contains (group_of m) (backed s.log) ≡ false
      → parse w m ≡ r
      → IsAttempt m (attempt_parsed w m s r)
  unfolding attempt
  parsed-IsAttempt m s (err f) good free e = (good, free)
  parsed-IsAttempt m s (ok raw) good free e =
      id-IsAttempt m s raw (any (same_value (get "id" raw)) s.processed) good free e refl

  caught_keeps :
      (m : SqsMessage) (f : Failure) (s : Batch) (b : Bool)
      → IsBatch w before s
      → contains (group_of m) (backed s.log) ≡ false
      → is_permanent f ≡ b
      → IsBatch w before (caught w m f s b).0
  unfolding dead_letter
  caught_keeps m f s true good free e =
      remove_sent_keeps w before m f s (w.sqs s.log (send_message m f)) good free e
  caught_keeps m f s false good free e =
      back_off_keeps w before m (block (group_of m) s)
        (record {
          sound = good.sound;
          known = good.known;
          blocking = λ g other. good.blocking g (ground arith);
        })
        (rw (text_eq_refl (group_of m)))

  recover_keeps : (m : SqsMessage) (t : Step) → IsAttempt m t → IsBatch w before (recover w m t).0
  recover_keeps m (s, none) (good, free) = good
  recover_keeps m (s, some f) (good, free) = caught_keeps m f s (is_permanent f) good free refl

  turn_keeps :
      (m : SqsMessage) (s : Batch) (b : Bool)
      → IsBatch w before s
      → contains (group_of m) s.blocked ≡ b
      → IsBatch w before (turn w m s b).0
  unfolding attempt
  turn_keeps m s true good e = back_off_keeps w before m s good e
  turn_keeps m s false good e =
      recover_keeps m (attempt w m s)
        (parsed-IsAttempt m s (parse w m) good (good.blocking (group_of m) e) refl)

  then_rest_keeps :
      (t : Step) (rest : Batch → Step)
      → IsBatch w before t.0
      → ((s : Batch) → IsBatch w before s → IsBatch w before (rest s).0)
      → IsBatch w before (then_rest t rest).0
  then_rest_keeps (s, none) rest good keeps = keeps s good
  then_rest_keeps (s, some f) rest good keeps = good

  process_messages_keeps :
      (ms : List SqsMessage) (s : Batch)
      → IsBatch w before s
      → IsBatch w before (process_messages w ms s).0
  unfolding process_messages
  process_messages_keeps [] s good = good
  process_messages_keeps (m ∷ ms) s good =
      then_rest_keeps (process_one w m s) _
        (turn_keeps m s (contains (group_of m) s.blocked) good refl) (process_messages_keeps ms)

  IsBatch-keeps : (ms : List SqsMessage) → IsBatch w before (process_batch w before ms).0
  unfolding process_batch
  IsBatch-keeps ms =
      process_messages_keeps ms (fresh before)
        (record { sound = tt {0}; known = refl; blocking = λ g free. refl })

  -- In whatever a batch does, in the order in which it does it: a hook is handled, and a message
  -- deleted or dead-lettered, only while no earlier message of its group was left to come back; a hook
  -- is handled only with its body and if its id was not processed before; a message is deleted only if
  -- it was handled or dead-lettered just before, or is of a processed hook; only a permanent failure is
  -- dead-lettered; and a message that comes back does so after 15 to 900 seconds.
  pub process_batch-IsLog :
      (ms : List SqsMessage) → IsLog w before (process_batch w before ms).0.log
  process_batch-IsLog ms = (IsBatch-keeps ms).sound

  -- The ids in `processed` are those of before and of the hooks that the batch handled.
  pub process_batch-ids :
      (ms : List SqsMessage)
      → (process_batch w before ms).0.processed ≡ ids w before (process_batch w before ms).0.log
  process_batch-ids ms = (IsBatch-keeps ms).known

module _ (w : World) (m : SqsMessage) (s : Batch) where
  -- A message whose body is the JSON null is not dead-lettered: if its group is not blocked, it blocks
  -- the group and is left to come back.
  pub process_one-null :
      contains (group_of m) s.blocked ≡ false
      → w.reader.rt.parse_json (text_or_empty m.body) ≡ some null
      → process_one w m s ≡ back_off w m (block (group_of m) s)
  unfolding process_one parse
  process_one-null free e = rw (free, e)
