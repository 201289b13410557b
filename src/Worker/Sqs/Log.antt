-- ===== src/Worker/Sqs/Log.antt =====
-- What a log of a batch may hold, in the terms of the messages alone.
use ankusa.Prelude.{
  ◌≤◌, true, false, ◌≡◌, ◌⊎◌, refl, ap, ◌++◌, Option, List, [], ◌∷◌, Text, Bytes, any, ok,
}
use ankusa.Json.{same_value, Json, Props, get}
use ankusa.Worker.Raw.{Failure}
use ankusa.Worker.Sqs.{
  SqsMessage, Command, delete_message, send_message, change_visibility, Event, handled, asked,
  World, parse, resolve_body,
}
use ankusa.Worker.Sqs.Run.{group_of, contains, is_permanent}

-- The groups of the messages that were left to come back.
abbrev pub backed : List Event → List Text
backed [] = []
backed (asked (change_visibility m n) b ∷ es) = group_of m ∷ backed es
backed (handled m id ∷ es) = backed es
backed (asked (delete_message m) b ∷ es) = backed es
backed (asked (send_message m f) b ∷ es) = backed es

-- The ids of the hooks that were handled, the last first.
abbrev pub handled_ids : List Event → List (Option Json)
handled_ids [] = []
handled_ids (handled m id ∷ es) = id ∷ handled_ids es
handled_ids (asked c b ∷ es) = handled_ids es

pub handled_ids-append :
    (xs ys : List Event) → handled_ids (xs ++ ys) ≡ handled_ids xs ++ handled_ids ys
handled_ids-append [] ys = refl
handled_ids-append (handled m id ∷ xs) ys = ap (λ l. id ∷ l) (handled_ids-append xs ys)
handled_ids-append (asked c b ∷ xs) ys = handled_ids-append xs ys

module _ (w : World) (before : List (Option Json)) where
  -- The ids that were processed, those of earlier batches included.
  abbrev pub ids : List Event → List (Option Json)
  ids [] = before
  ids (handled m id ∷ es) = id ∷ ids es
  ids (asked c b ∷ es) = ids es

  pub ids_append : (es : List Event) → ids es ≡ handled_ids es ++ before
  ids_append [] = refl
  ids_append (handled m id ∷ es) = ap (λ l. id ∷ l) (ids_append es)
  ids_append (asked c b ∷ es) = ids_append es

  -- A hook that was not processed before, with its body.
  abbrev pub IsNew : SqsMessage → Option Json → List Event → Type 0
  IsNew m id es =
      (raw : Props) × (parse w m ≡ ok raw)
      × (get "id" raw ≡ id)
      × ((body : Bytes) × (resolve_body w raw ≡ ok body))
      × (any (same_value id) (ids es) ≡ false)

  -- The message was handled just now, was dead-lettered just now, or is of a processed hook.
  abbrev pub IsDone : SqsMessage → List Event → Type 0
  IsDone m es =
      ((id : Option Json) × (earlier : List Event) × (es ≡ handled m id ∷ earlier))
      ⊎ (((f : Failure) × (earlier : List Event) × (es ≡ asked (send_message m f) true ∷ earlier))
          ⊎ ((raw : Props) × (parse w m ≡ ok raw)
              × (any (same_value (get "id" raw)) (ids es) ≡ true)))

  -- What is asked of SQS, after what was done before.
  abbrev pub IsAskable : Command → List Event → Type 0
  IsAskable (delete_message m) es = (contains (group_of m) (backed es) ≡ false) × IsDone m es
  IsAskable (send_message m f) es =
      (contains (group_of m) (backed es) ≡ false) × (is_permanent f ≡ true)
  IsAskable (change_visibility m n) es = (15 ≤ n) × (n ≤ 900)

  abbrev pub IsLog : List Event → Type 0
  IsLog [] = Unit
  IsLog (handled m id ∷ es) = (contains (group_of m) (backed es) ≡ false) × IsNew m id es × IsLog es
  IsLog (asked c b ∷ es) = IsAskable c es × IsLog es
