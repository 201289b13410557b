-- ===== src/Worker/Sqs/Turn.antt =====
-- What the turn of one message of a batch does to the queue.
use mathlib.Core.Option.{some-injective}
use ankusa.Prelude.{
  ℕ, Bool, true, false, not, ◌||◌, ◌≡◌, ◌⊎◌, inl, inr, refl, sym, ap, subst, arith, Option, none,
  some, List, [], ◌∷◌, ◌++◌, Text, Bytes, Result, ok, err, any, text_eq_refl, if◌then◌else◌,
}
use ankusa.Json.{Json, Props, same_value, get}
use ankusa.Worker.Raw.{Failure, unknown}
use ankusa.Worker.Sqs.{
  SqsMessage, delete_message, send_message, change_visibility, Event, handled, asked, Batch, World,
  parse,
}
use ankusa.Worker.Sqs.Run.{
  handled_body, Step, group_of, contains, answered, back_off, remove, remove_sent, dead_letter,
  is_permanent, handle, attempt_body, attempt_id, attempt_parsed, attempt, block, caught, recover,
  turn,
}

-- The messages that SQS was asked to delete, the first first: all of them, or if `is_sure` those for
-- which it took the command.
abbrev pub deleted : (is_sure : Bool) → List Event → List SqsMessage
deleted is_sure [] = []
deleted is_sure (asked (delete_message m) taken ∷ es) =
    if taken || not is_sure then deleted is_sure es ++ (m ∷ []) else deleted is_sure es
deleted is_sure (asked (send_message m f) taken ∷ es) = deleted is_sure es
deleted is_sure (asked (change_visibility m n) taken ∷ es) = deleted is_sure es
deleted is_sure (handled m id ∷ es) = deleted is_sure es

module _ (is_sure : Bool) where
  -- A message's turn: it is deleted, or else its group is blocked or the batch ends.
  pub record IsTurn (m : SqsMessage) (s : Batch) (t : Step) : Type 0 where
    pub is_gone : Bool
    pub gone :
        deleted is_sure t.0.log
        ≡ (if is_gone then deleted is_sure s.log ++ (m ∷ []) else deleted is_sure s.log)
    pub stops :
        is_gone ≡ false
        → (contains (group_of m) t.0.blocked ≡ true) ⊎ ((f : Failure) × (t.1 ≡ some f))
    pub holds : (g : Text) → contains g s.blocked ≡ true → contains g t.0.blocked ≡ true

  abbrev pub with_gone : Bool → SqsMessage → Batch → List SqsMessage
  with_gone is_gone m s =
      if is_gone then deleted is_sure s.log ++ (m ∷ []) else deleted is_sure s.log

  -- What the body of the `try` comes to: the message is deleted; or its delete is not taken; or
  -- something is thrown before.
  data IsAttempt (m : SqsMessage) (s : Batch) (t : Step) : Type 0 where
    done :
        deleted is_sure t.0.log ≡ with_gone true m s
        → t.0.blocked ≡ s.blocked
        → t.1 ≡ none
        → IsAttempt m s t
    not_taken :
        (b : Bool)
        → deleted is_sure t.0.log ≡ with_gone b m s
        → t.0.blocked ≡ s.blocked
        → t.1 ≡ some unknown
        → IsAttempt m s t
    failed :
        (f : Failure)
        → deleted is_sure t.0.log ≡ with_gone false m s
        → t.0.blocked ≡ s.blocked
        → t.1 ≡ some f
        → IsAttempt m s t

  removed-IsAttempt :
      (m : SqsMessage) (s t : Batch) (b : Bool)
      → deleted is_sure t.log ≡ deleted is_sure s.log
      → t.blocked ≡ s.blocked
      → IsAttempt m s (answered (delete_message m) t b)
  removed-IsAttempt m s t true e k = done (ap (λ x. x ++ (m ∷ [])) e) k refl
  removed-IsAttempt m s t false e k = not_taken (not is_sure) (ground (arith, e)) k refl

  module _ (w : World) (m : SqsMessage) (s : Batch) where
    body-IsAttempt :
        (id : Option Json) (r : Result Failure Bytes) → IsAttempt m s (attempt_body w m s id r)
    unfolding remove handle
    body-IsAttempt id (err f) = failed f refl refl refl
    body-IsAttempt id (ok body) = removed-IsAttempt m s (handle m id s) (w.sqs _ _) refl refl

    id-IsAttempt : (raw : Props) (b : Bool) → IsAttempt m s (attempt_id w m s raw b)
    unfolding remove
    id-IsAttempt raw true = removed-IsAttempt m s s (w.sqs _ _) refl refl
    id-IsAttempt raw false = body-IsAttempt (get "id" raw) (handled_body w raw)

    parsed-IsAttempt : (r : Result Failure Props) → IsAttempt m s (attempt_parsed w m s r)
    parsed-IsAttempt (err f) = failed f refl refl refl
    parsed-IsAttempt (ok raw) = id-IsAttempt raw (any (same_value (get "id" raw)) s.processed)

    -- A message that is left to come back, after what was thrown or behind one of its group.
    visible-IsTurn :
        (t : Batch) (b : Bool) (c : ℕ) (taken : Bool)
        → deleted is_sure t.log ≡ with_gone b m s
        → contains (group_of m) t.blocked ≡ true
        → ((g : Text) → contains g s.blocked ≡ true → contains g t.blocked ≡ true)
        → (r : IsTurn m s (answered (change_visibility m c) t taken)) × (r.is_gone ≡ b)
    visible-IsTurn t b c true e k held =
        (record { is_gone = b; gone = e; stops = λ h. inl k; holds = held }, refl)
    visible-IsTurn t b c false e k held =
        (record { is_gone = b; gone = e; stops = λ h. inl k; holds = held }, refl)

    backed-IsTurn :
        (t : Batch) (b : Bool)
        → deleted is_sure t.log ≡ with_gone b m s
        → t.blocked ≡ s.blocked
        → IsTurn m s (back_off w m (block (group_of m) t))
    unfolding back_off
    backed-IsTurn t b e k =
        (visible-IsTurn (block (group_of m) t) b _ (w.sqs _ _) e (rw (text_eq_refl (group_of m)))
          (λ g h. ground (arith, subst (λ x. contains g x ≡ true) (sym k) h))).0

    deleted-IsTurn :
        (t : Batch) (taken : Bool)
        → deleted is_sure t.log ≡ deleted is_sure s.log
        → t.blocked ≡ s.blocked
        → IsTurn m s (answered (delete_message m) t taken)
    deleted-IsTurn t true e k = record {
      is_gone = true;
      gone = ap (λ x. x ++ (m ∷ [])) e;
      stops = λ h. absurd (ground arith);
      holds = λ g h. subst (λ x. contains g x ≡ true) (sym k) h;
    }
    deleted-IsTurn t false e k = record {
      is_gone = not is_sure;
      gone = ground (arith, e);
      stops = λ h. inr (unknown, refl);
      holds = λ g h. subst (λ x. contains g x ≡ true) (sym k) h;
    }

    sent-IsTurn :
        (t : Batch) (f : Failure) (taken : Bool)
        → deleted is_sure t.log ≡ deleted is_sure s.log
        → t.blocked ≡ s.blocked
        → IsTurn m s (remove_sent w m (answered (send_message m f) t taken))
    unfolding remove
    sent-IsTurn t f true e k =
        deleted-IsTurn (record t { log = asked (send_message m f) true ∷ t.log }) (w.sqs _ _) e k
    sent-IsTurn t f false e k = record {
      is_gone = false;
      gone = e;
      stops = λ h. inr (unknown, refl);
      holds = λ g h. subst (λ x. contains g x ≡ true) (sym k) h;
    }

    caught-IsTurn :
        (t : Batch) (f : Failure) (b : Bool)
        → deleted is_sure t.log ≡ deleted is_sure s.log
        → t.blocked ≡ s.blocked
        → IsTurn m s (caught w m f t b)
    unfolding dead_letter
    caught-IsTurn t f true e k = sent-IsTurn t f (w.sqs _ _) e k
    caught-IsTurn t f false e k = backed-IsTurn t false e k

    thrown-IsTurn :
        (t : Batch) (f : Failure) → IsAttempt m s (t, some f) → IsTurn m s (recover w m (t, some f))
    thrown-IsTurn t f (done e k n) = absurd cc
    thrown-IsTurn t f (not_taken b e k n) =
        subst (λ f. IsTurn m s (caught w m f t (is_permanent f))) (sym (some-injective f unknown n))
          (backed-IsTurn t b e k)
    thrown-IsTurn t f (failed x e k n) = caught-IsTurn t f (is_permanent f) e k

    recovered-IsTurn : (t : Step) → IsAttempt m s t → IsTurn m s (recover w m t)
    recovered-IsTurn (t, some f) a = thrown-IsTurn t f a
    recovered-IsTurn (t, none) (done e k n) = record {
      is_gone = true;
      gone = e;
      stops = λ h. absurd (ground arith);
      holds = λ g h. subst (λ x. contains g x ≡ true) (sym k) h;
    }
    recovered-IsTurn (t, none) (not_taken b e k n) = absurd cc
    recovered-IsTurn (t, none) (failed f e k n) = absurd cc

    -- A message behind one of its group that is left stays.
    pub turn-IsTurn :
        (b : Bool)
        → contains (group_of m) s.blocked ≡ b
        → (r : IsTurn m s (turn w m s b)) × (b ≡ true → r.is_gone ≡ false)
    unfolding attempt back_off
    turn-IsTurn true e =
        let (r, stays) = visible-IsTurn s false _ (w.sqs _ _) refl e (λ g h. h) in (r, λ h. stays)
    turn-IsTurn false e =
        (recovered-IsTurn (attempt w m s) (parsed-IsAttempt (parse w m)), λ h. absurd cc)
