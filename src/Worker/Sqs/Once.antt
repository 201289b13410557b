-- ===== src/Worker/Sqs/Once.antt =====
-- How often a hook is handled while the worker runs, in whatever batches it comes again.
use ankusa.Prelude.{false, ◌≡◌, refl, sym, ap, ◌∙◌, subst, Option, none, some, List, [], ◌∷◌, any}
use ankusa.Json.{Json, same_value}
use ankusa.Worker.Sqs.{SqsMessage, Event, handled, asked, Batch, World}
use ankusa.Worker.Sqs.Run.{Step, process_batch}
use ankusa.Worker.Sqs.Log.{handled_ids, ids, ids_append, handled_ids-append, IsLog}
use ankusa.Worker.Sqs.Laws.{process_batch-IsLog, process_batch-ids}
use ankusa.Worker.Sqs.Main.{Round, Progress, no_progress, Ended, advance, after_batch, round, main}

-- Each id is new among those before it.
abbrev pub AreNew : List (Option Json) → Type 0
AreNew [] = Unit
AreNew (id ∷ ids) = (any (same_value id) ids ≡ false) × AreNew ids

log-AreNew :
    (w : World) (before : List (Option Json)) (es : List Event)
    → IsLog w before es
    → AreNew before
    → AreNew (ids w before es)
log-AreNew w before [] h new = new
log-AreNew w before (handled m id ∷ es) (free, (raw, p, q, body, fresh), h) new =
    (fresh, log-AreNew w before es h new)
log-AreNew w before (asked c b ∷ es) (able, h) new = log-AreNew w before es h new

record Inv (p : Progress) : Type 0 where
  known : p.processed ≡ handled_ids p.log
  new : AreNew p.processed

advance-Inv :
    (w : World) (ms : List SqsMessage) (p : Progress)
    → Inv p
    → Inv (advance p (process_batch w p.processed ms).0)
advance-Inv w ms p i =
    let t : Batch = (process_batch w p.processed ms).0 in
    let e : t.processed ≡ ids w p.processed t.log = process_batch-ids w p.processed ms in
    record {
      known =
          e
          ∙ (ap (λ b. ids w b t.log) i.known
              ∙ (ids_append w (handled_ids p.log) t.log ∙ sym (handled_ids-append t.log p.log)));
      new =
          subst AreNew (sym e)
            (log-AreNew w p.processed t.log (process_batch-IsLog w p.processed ms) i.new);
    }

after_batch-Inv :
    (p : Progress) (t : Step) (rest : Progress → Progress × Ended)
    → Inv (advance p t.0)
    → ((q : Progress) → Inv q → Inv (rest q).0)
    → Inv (after_batch p t rest).0
after_batch-Inv p (t, some f) rest i keeps = i
after_batch-Inv p (t, none) rest i keeps = keeps (advance p t) i

round-Inv :
    (p : Progress) (w : World) (o : Option (List SqsMessage)) (rest : Progress → Progress × Ended)
    → Inv p
    → ((q : Progress) → Inv q → Inv (rest q).0)
    → Inv (round p w o rest).0
round-Inv p w none rest i keeps = i
round-Inv p w (some ms) rest i keeps =
    after_batch-Inv p (process_batch w p.processed ms) rest (advance-Inv w ms p i) keeps

main-Inv : (rs : List Round) (p : Progress) → Inv p → Inv (main p rs).0
unfolding main
main-Inv [] p i = i
main-Inv (r ∷ rs) p i = round-Inv p r.world r.messages (λ q. main q rs) i (main-Inv rs)

-- From its start on, whatever the batches are and whatever SQS and the gateway answer, the worker
-- handles no two hooks of one id, as a `Set` compares them, and its memory has just the ids of
-- those that it handled.
pub main_once :
    (rs : List Round)
    → AreNew (handled_ids (main no_progress rs).0.log)
      × ((main no_progress rs).0.processed ≡ handled_ids (main no_progress rs).0.log)
main_once rs =
    let i = main-Inv rs no_progress (record { known = refl; new = tt {0} }) in
    (subst AreNew i.known i.new, i.known)
