-- ===== src/Worker/Sqs/Order.antt =====
-- The order in which a batch deletes the messages of a group.
use ankusa.Prelude.{
  Bool, true, false, ◌≡◌, ◌⊎◌, inl, inr, refl, sym, ap, ◌∙◌, subst, arith, Option, none, some, List,
  [], ◌∷◌, ◌++◌, append_assoc, append-nil, Text, text_eq, text_eq_sound, if◌then◌else◌,
}
use ankusa.Json.{Json}
use ankusa.Worker.Raw.{Failure}
use ankusa.Worker.Sqs.{SqsMessage, Batch, World}
use ankusa.Worker.Sqs.Turn.{deleted, IsTurn, with_gone, turn-IsTurn}
use ankusa.Worker.Sqs.Run.{
  Step, group_of, contains, process_one, then_rest, process_messages, process_batch, fresh,
}

-- The messages of a group.
abbrev pub in_group : Text → List SqsMessage → List SqsMessage
in_group g [] = []
in_group g (m ∷ ms) = let rest = in_group g ms in if text_eq g (group_of m) then m ∷ rest else rest

in_group-append :
    (g : Text) (xs ys : List SqsMessage) → in_group g (xs ++ ys) ≡ in_group g xs ++ in_group g ys
in_group-append g [] ys = refl
in_group-append g (m ∷ xs) ys = ground (arith, in_group-append g xs ys)

module _ (is_sure : Bool) where
  -- Since `s`, the messages of the group that are gone are the first of those in `ms`; none is, if the
  -- group is blocked.
  pub record IsOrdered (g : Text) (ms : List SqsMessage) (s t : Batch) : Type 0 where
    pub gone : List SqsMessage
    pub rest : List SqsMessage
    pub since : in_group g (deleted is_sure t.log) ≡ in_group g (deleted is_sure s.log) ++ gone
    pub split : gone ++ rest ≡ in_group g ms
    pub held : contains g s.blocked ≡ true → gone ≡ []

  not_thrown :
      (m : SqsMessage) (t : Batch)
      → (contains (group_of m) t.blocked ≡ true)
        ⊎ ((f : Failure) × (◌≡◌ {A = Option Failure} none (some f)))
      → contains (group_of m) t.blocked ≡ true
  not_thrown m t (inl k) = k
  not_thrown m t (inr (f, e)) = absurd cc

  module _ (g : Text) where
    own_append :
        (m : SqsMessage) (xs : List SqsMessage)
        → text_eq g (group_of m) ≡ true
        → in_group g (xs ++ (m ∷ [])) ≡ in_group g xs ++ (m ∷ [])
    own_append m xs same = in_group-append g xs (m ∷ []) ∙ rw same refl

    other_append :
        (m : SqsMessage) (xs : List SqsMessage)
        → text_eq g (group_of m) ≡ false
        → in_group g (xs ++ (m ∷ [])) ≡ in_group g xs
    other_append m xs other = in_group-append g xs (m ∷ []) ∙ rw other (append-nil (in_group g xs))

    -- A message of another group changes nothing.
    other_gone :
        (m : SqsMessage) (s t : Batch) (is_gone : Bool)
        → text_eq g (group_of m) ≡ false
        → deleted is_sure t.log ≡ with_gone is_sure is_gone m s
        → in_group g (deleted is_sure t.log) ≡ in_group g (deleted is_sure s.log)
    other_gone m s t true other e = ap (in_group g) e ∙ other_append m (deleted is_sure s.log) other
    other_gone m s t false other e = ap (in_group g) e

    other-IsOrdered :
        (m : SqsMessage) (ms : List SqsMessage) (s t u : Batch) (is_gone : Bool)
        → text_eq g (group_of m) ≡ false
        → deleted is_sure t.log ≡ with_gone is_sure is_gone m s
        → (contains g s.blocked ≡ true → contains g t.blocked ≡ true)
        → IsOrdered g ms t u
        → IsOrdered g (m ∷ ms) s u
    other-IsOrdered m ms s t u is_gone other e holds i = record {
      gone = i.gone;
      rest = i.rest;
      since = i.since ∙ ap (λ x. x ++ i.gone) (other_gone m s t is_gone other e);
      split = i.split ∙ rw other refl;
      held = λ h. i.held (holds h);
    }

    none-IsOrdered :
        (ms : List SqsMessage) (s t : Batch)
        → in_group g (deleted is_sure t.log) ≡ in_group g (deleted is_sure s.log)
        → IsOrdered g ms s t
    none-IsOrdered ms s t e = record {
      gone = [];
      rest = in_group g ms;
      since = e ∙ sym (append-nil (in_group g (deleted is_sure s.log)));
      split = refl;
      held = λ h. refl;
    }

    -- The batch ends after the turn of the message.
    of_group :
        (m : SqsMessage) (s : Batch)
        → text_eq g (group_of m) ≡ true
        → contains g s.blocked ≡ true
        → contains (group_of m) s.blocked ≡ true
    of_group m s same h =
        subst (λ x. contains x s.blocked ≡ true) (text_eq_sound g (group_of m) same) h

    last-IsOrdered :
        (m : SqsMessage) (ms : List SqsMessage) (s t : Batch) (is_gone same : Bool)
        → text_eq g (group_of m) ≡ same
        → deleted is_sure t.log ≡ with_gone is_sure is_gone m s
        → (contains (group_of m) s.blocked ≡ true → is_gone ≡ false)
        → IsOrdered g (m ∷ ms) s t
    last-IsOrdered m ms s t is_gone false other e waits =
        none-IsOrdered (m ∷ ms) s t (other_gone m s t is_gone other e)
    last-IsOrdered m ms s t false true same e waits =
        none-IsOrdered (m ∷ ms) s t (ap (in_group g) e)
    last-IsOrdered m ms s t true true same e waits = record {
      gone = m ∷ [];
      rest = in_group g ms;
      since = ap (in_group g) e ∙ own_append m (deleted is_sure s.log) same;
      split = rw same refl;
      held = λ h. absurd (ground (arith, waits (of_group m s same h)));
    }

    own-IsOrdered :
        (m : SqsMessage) (ms : List SqsMessage) (s t u : Batch) (is_gone : Bool)
        → text_eq g (group_of m) ≡ true
        → deleted is_sure t.log ≡ with_gone is_sure is_gone m s
        → (is_gone ≡ false → contains (group_of m) t.blocked ≡ true)
        → (contains (group_of m) s.blocked ≡ true → is_gone ≡ false)
        → IsOrdered g ms t u
        → IsOrdered g (m ∷ ms) s u
    own-IsOrdered m ms s t u true same e stops waits i = record {
      gone = m ∷ i.gone;
      rest = i.rest;
      since =
          i.since
          ∙ (ap (λ x. x ++ i.gone) (ap (in_group g) e ∙ own_append m (deleted is_sure s.log) same)
              ∙ append_assoc (in_group g (deleted is_sure s.log)) (m ∷ []) i.gone);
      split = ap (λ x. m ∷ x) i.split ∙ rw same refl;
      held = λ h. absurd (ground (arith, waits (of_group m s same h)));
    }
    own-IsOrdered m ms s t u false same e stops waits i = none-IsOrdered (m ∷ ms) s u (
        i.since
        ∙ (ap (λ x. in_group g (deleted is_sure t.log) ++ x)
              (i.held (
                subst (λ x. contains x t.blocked ≡ true) (sym (text_eq_sound g (group_of m) same))
                  (stops refl)))
            ∙ (append-nil (in_group g (deleted is_sure t.log)) ∙ ap (in_group g) e)))

    module _ (w : World) where
      rest-IsOrdered :
          (m : SqsMessage) (ms : List SqsMessage) (s : Batch) (t : Step) (same : Bool)
          → ((u : Batch) → IsOrdered g ms u (process_messages w ms u).0)
          → text_eq g (group_of m) ≡ same
          → (r : IsTurn is_sure m s t)
          → (contains (group_of m) s.blocked ≡ true → r.is_gone ≡ false)
          → IsOrdered g (m ∷ ms) s (then_rest t (λ u. process_messages w ms u)).0
      rest-IsOrdered m ms s (t, some f) same ih at_group r waits =
          last-IsOrdered m ms s t r.is_gone same at_group r.gone waits
      rest-IsOrdered m ms s (t, none) false ih other r waits =
          other-IsOrdered m ms s t _ r.is_gone other r.gone (r.holds g) (ih t)
      rest-IsOrdered m ms s (t, none) true ih same r waits =
          own-IsOrdered m ms s t _ r.is_gone same r.gone (λ h. not_thrown m t (r.stops h)) waits
            (ih t)

      messages-IsOrdered :
          (ms : List SqsMessage) (s : Batch) → IsOrdered g ms s (process_messages w ms s).0
      unfolding process_messages
      messages-IsOrdered [] s = none-IsOrdered [] s s refl
      messages-IsOrdered (m ∷ ms) s =
          let (r, waits) = turn-IsTurn is_sure w m s (contains (group_of m) s.blocked) refl in
          rest-IsOrdered m ms s (process_one w m s) (text_eq g (group_of m)) (messages-IsOrdered ms)
            refl r waits

  -- Of each group of a batch, those that SQS was asked to delete are the first, in their order.
  pub process_batch-IsOrdered :
      (w : World) (before : List (Option Json)) (ms : List SqsMessage) (g : Text)
      → (rest : List SqsMessage) × (in_group g (deleted is_sure (process_batch w before ms).0.log)
            ++ rest
          ≡ in_group g ms)
  unfolding process_batch
  process_batch-IsOrdered w before ms g =
      let i = messages-IsOrdered g w ms (fresh before) in
      (i.rest, ap (λ x. x ++ i.rest) i.since ∙ i.split)
