-- ===== src/Worker/Sqs/Tests.antt =====
-- Two messages of one group: the second is of the hook of the first, or comes after a failure.
use ankusa.Prelude.{err, List, ◌≡◌, refl, true, some, none, [], ◌∷◌, codes, text_eq}
use ankusa.Json.{same_value, Json, null, number, str, obj, Props, end, prop, get, whole, pos}
use ankusa.Http.{failed}
use ankusa.Fixtures.{runtime}
use ankusa.Worker.Sqs.{
  SqsMessage, handled, asked, delete_message, change_visibility, World, parse, resolve_body,
}
use ankusa.Worker.Sqs.Run.{
  handled_body, ask, back_off, backoff_seconds, remove, handle, attempt, process_one, process_batch,
  fresh, block, group_of,
}
use ankusa.Worker.Sqs.Main.{Round, no_progress, fatal, main}
use ankusa.Worker.Sqs.Start.{settings}
use ankusa.Worker.Sqs.Once.{AreNew, main_once}
use ankusa.Worker.Sqs.Log.{handled_ids, IsLog}
use ankusa.Worker.Sqs.Laws.{process_batch-IsLog, process_one-null}

abbrev pub raw_hook : Props
raw_hook =
    prop "v" (number (whole (pos 1)))
      (prop "id" (str (codes "01a0")) (prop "body_base64" (str (codes "aGk=")) end))

abbrev pub world : Json → World
world parsed = record {
  reader = record {
    rt = record runtime { parse_json = λ t. some parsed };
    gateway = λ r. failed;
    number_text = λ n. [];
    object_text = λ v. some [];
    buffer_from = λ v. some (codes "hi");
    utf8_text = λ b. b;
  };
  sqs = λ log c. true;
}

abbrev pub sqs_message : SqsMessage
sqs_message = record {
  body = some (codes "x");
  group = some (codes "g");
  receives = some (codes "2");
  receipt = none;
  message_id = none;
}

unfoldable pub worker : Unit {0}
unfolding process_batch get parse resolve_body same_value text_eq ask back_off backoff_seconds
    remove handle handled_body attempt process_one
worker = tt

-- A hook is handled once, and both of its messages are deleted.
process_batch-raw_hook :
    (process_batch (world (obj raw_hook)) [] (sqs_message ∷ sqs_message ∷ [])).0.log
    ≡ asked (delete_message sqs_message) true
      ∷ asked (delete_message sqs_message) true
      ∷ handled sqs_message (some (str (codes "01a0")))
      ∷ []
unfolding worker
process_batch-raw_hook = refl

-- After a failure, the rest of the group comes back too.
process_batch-null :
    (process_batch (world null) [] (sqs_message ∷ sqs_message ∷ [])).0.log
    ≡ asked (change_visibility sqs_message 60) true
      ∷ asked (change_visibility sqs_message 60) true
      ∷ []
unfolding worker
process_batch-null = refl

process_batch-IsLog_example :
    IsLog (world null) [] (process_batch (world null) [] (sqs_message ∷ sqs_message ∷ [])).0.log
process_batch-IsLog_example = process_batch-IsLog (world null) [] (sqs_message ∷ sqs_message ∷ [])

process_one-null_example :
    process_one (world null) sqs_message (fresh [])
    ≡ back_off (world null) sqs_message (block (group_of sqs_message) (fresh []))
process_one-null_example = process_one-null (world null) sqs_message (fresh []) refl refl

-- The hook comes again in a second batch, and then the queue is gone.
abbrev rounds : List Round
rounds =
    record { world = world (obj raw_hook); messages = some (sqs_message ∷ []) }
    ∷ record { world = world (obj raw_hook); messages = some (sqs_message ∷ []) }
    ∷ record { world = world (obj raw_hook); messages = none }
    ∷ []

main-rounds : main no_progress rounds ≡ (
  record {
    processed = some (str (codes "01a0")) ∷ [];
    log =
        asked (delete_message sqs_message) true
        ∷ asked (delete_message sqs_message) true
        ∷ handled sqs_message (some (str (codes "01a0")))
        ∷ [];
  },
  fatal,
)
unfolding worker main
main-rounds = refl

main_once_example :
    AreNew (handled_ids (main no_progress rounds).0.log)
    × ((main no_progress rounds).0.processed ≡ handled_ids (main no_progress rounds).0.log)
main_once_example = main_once rounds

-- An empty variable counts as missing.
settings_missing : settings (λ name. some []) ≡ err "SQS_QUEUE_URL"
unfolding settings
settings_missing = refl
