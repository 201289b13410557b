-- ===== src/Worker/Sqs/Dealt.antt =====
-- Which messages SQS is asked to delete.
use ankusa.Prelude.{
  Bool, true, false, not, ◌||◌, ◌≡◌, inl, inr, refl, sym, subst, arith, Option, List, [], ◌∷◌, ◌++◌,
  All, Any, any, ok, if◌then◌else◌, All_map, All-append,
}
use ankusa.Runtime.{Runtime}
use ankusa.Json.{Json, Props, same_value, get}
use ankusa.Worker.Raw.{Failure, Reader}
use ankusa.Worker.Sqs.{
  SqsMessage, delete_message, send_message, change_visibility, Event, handled, asked, World, parse,
  parse_value, text_or_empty,
}
use ankusa.Worker.Sqs.Run.{is_permanent}
use ankusa.Worker.Sqs.Log.{handled_ids, handled_ids-append, ids, ids_append, IsDone, IsLog}
use ankusa.Worker.Sqs.Turn.{deleted}

abbrev pub IsIn : Event → List Event → Type 0
IsIn e = Any (λ x. x ≡ e)

-- A message was handled, or was dead-lettered for a failure that no retry can help, or is of a hook that
-- was handled.
pub data IsDealt (rt : Runtime) (log : List Event) (m : SqsMessage) : Type 0 where
  was_handled : (id : Option Json) → IsIn (handled m id) log → IsDealt rt log m
  was_sent :
      (f : Failure)
      → IsIn (asked (send_message m f) true) log
      → is_permanent f ≡ true
      → IsDealt rt log m
  was_known :
      (r : Reader) (raw : Props)
      → r.rt ≡ rt
      → parse_value r (rt.parse_json (text_or_empty m.body)) ≡ ok raw
      → any (same_value (get "id" raw)) (handled_ids log) ≡ true
      → IsDealt rt log m

module _ {A : Type 0} where
  Any-append : (P : A → Type 0) (xs ys : List A) → Any P ys → Any P (xs ++ ys)
  Any-append P [] ys h = h
  Any-append P (x ∷ xs) ys h = inr (Any-append P xs ys h)

  any-append : (p : A → Bool) (xs ys : List A) → any p ys ≡ true → any p (xs ++ ys) ≡ true
  any-append p [] ys h = h
  any-append p (x ∷ xs) ys h = ground (arith, any-append p xs ys h)

  any_either :
      (p : A → Bool) (xs ys zs : List A)
      → (any p ys ≡ true → any p zs ≡ true)
      → any p (xs ++ ys) ≡ true
      → any p (xs ++ zs) ≡ true
  any_either p [] ys zs f h = f h
  any_either p (x ∷ xs) ys zs f h = ground (arith, any_either p xs ys zs f)

pub IsDealt-more :
    (rt : Runtime) (xs log : List Event) (m : SqsMessage)
    → IsDealt rt log m
    → IsDealt rt (xs ++ log) m
IsDealt-more rt xs log m (was_handled id h) = was_handled id (Any-append _ xs log h)
IsDealt-more rt xs log m (was_sent f h e) = was_sent f (Any-append _ xs log h) e
IsDealt-more rt xs log m (was_known r raw same p h) = was_known r raw same p (
    subst (λ l. any (same_value (get "id" raw)) l ≡ true) (sym (handled_ids-append xs log))
      (any-append _ (handled_ids xs) (handled_ids log) h))

-- The memory has only ids of hooks that were handled.
abbrev pub IsRemembered : List (Option Json) → List Event → Type 0
IsRemembered processed log =
    (id : Option Json)
    → any (same_value id) processed ≡ true
    → any (same_value id) (handled_ids log) ≡ true

module _ (w : World) (before : List (Option Json)) (old : List Event)
    (known : IsRemembered before old) where
  pub ids-IsRemembered : (es : List Event) → IsRemembered (ids w before es) (es ++ old)
  ids-IsRemembered es id h =
      subst (λ l. any (same_value id) l ≡ true) (sym (handled_ids-append es old))
        (any_either (same_value id) (handled_ids es) before (handled_ids old) (known id)
          (subst (λ l. any (same_value id) l ≡ true) (ids_append w before es) h))

  done-IsDealt :
      (m : SqsMessage) (es : List Event)
      → IsLog w before es
      → IsDone w before m es
      → IsDealt w.reader.rt (es ++ old) m
  unfolding parse
  done-IsDealt m es h (inl (id, earlier, e)) =
      was_handled id (subst (λ l. IsIn (handled m id) (l ++ old)) (sym e) (inl refl))
  done-IsDealt m es h (inr (inl (f, earlier, e))) =
      was_sent f (subst (λ l. IsIn (asked (send_message m f) true) (l ++ old)) (sym e) (inl refl))
        (subst (IsLog w before) e h).0.1
  done-IsDealt m es h (inr (inr (raw, p, e))) =
      was_known w.reader raw refl p (ids-IsRemembered es _ e)

  more-IsDealt :
      (e : Event) (es : List Event) (ms : List SqsMessage)
      → All (IsDealt w.reader.rt (es ++ old)) ms
      → All (IsDealt w.reader.rt (e ∷ (es ++ old))) ms
  more-IsDealt e es ms =
      All_map (IsDealt w.reader.rt (es ++ old)) (IsDealt w.reader.rt (e ∷ (es ++ old)))
        (IsDealt-more w.reader.rt (e ∷ []) (es ++ old)) ms

  deleted_one-IsDealt :
      (gone : Bool) (m : SqsMessage) (ms : List SqsMessage) (log : List Event)
      → IsDealt w.reader.rt log m
      → All (IsDealt w.reader.rt log) ms
      → All (IsDealt w.reader.rt log) (if gone then ms ++ (m ∷ []) else ms)
  deleted_one-IsDealt true m ms log d h = All-append (IsDealt w.reader.rt log) ms (m ∷ []) h (d, tt)
  deleted_one-IsDealt false m ms log d h = h

  -- Whatever SQS was asked to delete was dealt with.
  pub deleted-IsDealt :
      (is_sure : Bool) (es : List Event)
      → IsLog w before es
      → All (IsDealt w.reader.rt (es ++ old)) (deleted is_sure es)
  deleted-IsDealt is_sure [] h = tt
  deleted-IsDealt is_sure (handled m id ∷ es) (free, new, h) =
      more-IsDealt (handled m id) es (deleted is_sure es) (deleted-IsDealt is_sure es h)
  deleted-IsDealt is_sure (asked (send_message m f) taken ∷ es) (able, h) =
      more-IsDealt (asked (send_message m f) taken) es (deleted is_sure es)
        (deleted-IsDealt is_sure es h)
  deleted-IsDealt is_sure (asked (change_visibility m n) taken ∷ es) (able, h) =
      more-IsDealt (asked (change_visibility m n) taken) es (deleted is_sure es)
        (deleted-IsDealt is_sure es h)
  deleted-IsDealt is_sure (asked (delete_message m) taken ∷ es) ((free, done), h) =
      let e : Event = asked (delete_message m) taken in
      deleted_one-IsDealt (taken || not is_sure) m (deleted is_sure es) (e ∷ (es ++ old))
        (IsDealt-more w.reader.rt (e ∷ []) (es ++ old) m (done-IsDealt m es h done))
        (more-IsDealt e es (deleted is_sure es) (deleted-IsDealt is_sure es h))
