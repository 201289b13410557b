-- ===== src/Worker/Sqs/Main.antt =====
-- The loop of examples/kafka-sqs-consumer/worker/src/worker.ts that receives the batches.
use ankusa.Prelude.{
  Bool, true, false, ◌≡◌, refl, ap, Option, none, some, List, [], ◌∷◌, ◌++◌, Text, Result, ok, err,
}
use ankusa.Json.{Json}
use ankusa.Worker.Sqs.{SqsMessage, Event, Batch, World}
use ankusa.Worker.Sqs.Run.{Step, process_batch}

-- An environment variable that the worker cannot do without.
abbrev pub required_variable {ℓ} : {E : Type ℓ} → E → Option Text → Result E Text
required_variable e none = err e
required_variable e (some []) = err e
required_variable e (some (c ∷ value)) = ok (c ∷ value)

-- A round of the loop that was not stopped before: what the world does in it, and the messages received;
-- `none` is a request that fails.
pub record Round : Type 0 where
  pub world : World
  pub messages : Option (List SqsMessage)

-- The ids in `processed`, and what was done, the last first.
pub record Progress : Type 0 where
  pub processed : List (Option Json)
  pub log : List Event

abbrev pub no_progress : Progress
no_progress = record { processed = []; log = [] }

pub data Ended : Type 0 where
  stopped : Ended
  fatal : Ended

abbrev pub advance : Progress → Batch → Progress
advance p t = record { processed = t.processed; log = t.log ++ p.log }

-- What is thrown out of a batch ends the worker.
abbrev pub after_batch : Progress → Step → (Progress → Progress × Ended) → Progress × Ended
after_batch p (t, some f) rest = (advance p t, fatal)
after_batch p (t, none) rest = rest (advance p t)

abbrev pub round :
    Progress → World → Option (List SqsMessage) → (Progress → Progress × Ended) → Progress × Ended
round p w none rest = (p, fatal)
round p w (some ms) rest = after_batch p (process_batch w p.processed ms) rest

-- `main`, until it is stopped.
unfoldable pub main : Progress → List Round → Progress × Ended
main p [] = (p, stopped)
main p (r ∷ rs) = round p r.world r.messages (λ q. main q rs)

-- A `SIGTERM`, or a round of the loop that would come next.
pub data Tick : Type 0 where
  sigterm : Tick
  polled : Round → Tick

-- `while (!stopping)`: a signal stops the loop, and not the batch that is under way.
unfoldable pub poll : (stopping : Bool) → Progress → List Tick → Progress × Ended
poll stopping p [] = (p, stopped)
poll stopping p (sigterm ∷ ts) = poll true p ts
poll true p (polled r ∷ ts) = (p, stopped)
poll false p (polled r ∷ ts) = round p r.world r.messages (λ q. poll false q ts)

-- The rounds before the first signal.
abbrev pub until_sigterm : List Tick → List Round
until_sigterm [] = []
until_sigterm (sigterm ∷ ts) = []
until_sigterm (polled r ∷ ts) = r ∷ until_sigterm ts

poll_stopping : (p : Progress) (ts : List Tick) → poll true p ts ≡ (p, stopped)
unfolding poll
poll_stopping p [] = refl
poll_stopping p (sigterm ∷ ts) = poll_stopping p ts
poll_stopping p (polled r ∷ ts) = refl

-- The worker does what it would do in the rounds before the first signal, and no more.
pub poll-main : (p : Progress) (ts : List Tick) → poll false p ts ≡ main p (until_sigterm ts)
unfolding poll main
poll-main p [] = refl
poll-main p (sigterm ∷ ts) = poll_stopping p ts
poll-main p (polled r ∷ ts) = ap (round p r.world r.messages) (λ i q. poll-main q ts i)
