-- ===== src/Worker/Sqs/Run.antt =====
-- `processBatch` of examples/kafka-sqs-consumer/worker/src/worker.ts: each message is handled and
-- deleted, dead-lettered, or left to come back, in the order of the batch.
use ankusa.Prelude.{
  Bytes, ℕ, zero, suc, ◌*◌, ◌^◌, min, Bool, true, false, not, Option, none, some, List, [], ◌∷◌,
  Text, codes, any, text_eq, Result, ok, err, ◌>>=◌,
}
use ankusa.Json.{same_value, Json, Props, get}
use ankusa.ClaimCheck.Errors.{retryable}
use ankusa.Worker.Raw.{Failure, permanent, claim_failure, unknown, Reader, shown}
use ankusa.Worker.Sqs.{
  SqsMessage, Command, delete_message, send_message, change_visibility, handled, asked, Batch,
  World, text_or_empty, parse, resolve_body,
}

-- A batch so far, and what was thrown, if anything was.
abbrev pub Step : Type 0
Step = Batch × Option Failure

abbrev pub group_of : SqsMessage → Text
group_of m = text_or_empty m.group

abbrev pub contains : Text → List Text → Bool
contains g = any (text_eq g)

-- `sqs.send(command)`: a command that is not taken throws.
abbrev pub answered : Command → Batch → Bool → Step
answered c s true = (record s { log = asked c true ∷ s.log }, none)
answered c s false = (record s { log = asked c false ∷ s.log }, some unknown)

unfoldable pub ask : World → Command → Batch → Step
ask w c s = answered c s (w.sqs s.log c)

-- `Math.min(30 * 2 ** (receives - 1), 900)`; `30 * 2 ** -1` is 15.
unfoldable pub backoff_seconds : ℕ → ℕ
backoff_seconds zero = 15
backoff_seconds (suc n) = min (30 * 2 ^ n) 900

abbrev pub receives_text : Option Text → Text
receives_text none = codes "1"
receives_text (some t) = t

unfoldable pub back_off : World → SqsMessage → Batch → Step
unfolding ask backoff_seconds
back_off w m s =
    ask w (change_visibility m (backoff_seconds (w.reader.rt.to_number (receives_text m.receives))))
      s

unfoldable pub remove : World → SqsMessage → Batch → Step
unfolding ask
remove w m s = ask w (delete_message m) s

-- Sent, then deleted.
abbrev pub remove_sent : World → SqsMessage → Step → Step
remove_sent w m (s, none) = remove w m s
remove_sent w m (s, some f) = (s, some f)

unfoldable pub dead_letter : World → SqsMessage → Failure → Batch → Step
unfolding ask remove
dead_letter w m f s = remove_sent w m (ask w (send_message m f) s)

-- `err instanceof PermanentError || (err instanceof ClaimCheckError && !err.retryable)`
abbrev pub is_permanent : Failure → Bool
is_permanent permanent = true
is_permanent (claim_failure e) = not (retryable e)
is_permanent unknown = false

-- The texts of the values that `handleHook` prints; a template throws where a value has none.
unfoldable pub hook_texts : Reader → Props → Result Failure (List Text)
hook_texts r raw = do
  id ← shown r (get "id" raw)
  source_id ← shown r (get "source_id" raw)
  tenant_id ← shown r (get "tenant_id" raw)
  size ← shown r (get "size" raw)
  ok (id ∷ source_id ∷ tenant_id ∷ size ∷ [])

-- `resolveBody` and `handleHook`, either of which may throw.
unfoldable pub handled_body : World → Props → Result Failure Bytes
unfolding hook_texts
handled_body w raw = do body ← resolve_body w raw; texts ← hook_texts w.reader raw; ok body

-- A hook that was printed; its id is processed from then on.
unfoldable pub handle : SqsMessage → Option Json → Batch → Batch
handle m id s = record s { processed = id ∷ s.processed; log = handled m id ∷ s.log }

-- The body of the `try`: the message is parsed, and if its id is new, its body is fetched and printed.
abbrev pub attempt_body : World → SqsMessage → Batch → Option Json → Result Failure Bytes → Step
attempt_body w m s id (err f) = (s, some f)
attempt_body w m s id (ok body) = remove w m (handle m id s)

abbrev pub attempt_id : World → SqsMessage → Batch → Props → (is_processed : Bool) → Step
attempt_id w m s raw true = remove w m s
attempt_id w m s raw false = attempt_body w m s (get "id" raw) (handled_body w raw)

abbrev pub attempt_parsed : World → SqsMessage → Batch → Result Failure Props → Step
attempt_parsed w m s (err f) = (s, some f)
attempt_parsed w m s (ok raw) = attempt_id w m s raw (any (same_value (get "id" raw)) s.processed)

unfoldable pub attempt : World → SqsMessage → Batch → Step
unfolding remove handle handled_body
attempt w m s = attempt_parsed w m s (parse w m)

abbrev pub block : Text → Batch → Batch
block g s = record s { blocked = g ∷ s.blocked }

-- The `catch`.
abbrev pub caught : World → SqsMessage → Failure → Batch → (is_permanent : Bool) → Step
caught w m f s true = dead_letter w m f s
caught w m f s false = back_off w m (block (group_of m) s)

abbrev pub recover : World → SqsMessage → Step → Step
recover w m (s, none) = (s, none)
recover w m (s, some f) = caught w m f s (is_permanent f)

abbrev pub turn : World → SqsMessage → Batch → (is_blocked : Bool) → Step
turn w m s true = back_off w m s
turn w m s false = recover w m (attempt w m s)

unfoldable pub process_one : World → SqsMessage → Batch → Step
unfolding attempt dead_letter back_off
process_one w m s = turn w m s (contains (group_of m) s.blocked)

-- What is thrown out of a message's turn ends the batch.
abbrev pub then_rest : Step → (Batch → Step) → Step
then_rest (s, some f) rest = (s, some f)
then_rest (s, none) rest = rest s

unfoldable pub process_messages : World → List SqsMessage → Batch → Step
unfolding process_one
process_messages w [] s = (s, none)
process_messages w (m ∷ ms) s = then_rest (process_one w m s) (λ t. process_messages w ms t)

-- No group is blocked at first.
abbrev pub fresh : List (Option Json) → Batch
fresh processed = record { processed = processed; blocked = []; log = [] }

unfoldable pub process_batch : World → List (Option Json) → List SqsMessage → Step
unfolding process_messages
process_batch w processed ms = process_messages w ms (fresh processed)
