-- ===== src/Worker/JetStream/Laws.antt =====
-- How a delivery is settled, and the size of the memory of keys.
use ankusa.Prelude.{
  ℕ, ◌*◌, min, ◌+◌, ◌≤◌, Bool, true, false, ◌≡◌, ◌⊎◌, inl, inr, refl, arith, List, [], ◌∷◌, ◌++◌,
  Text, Bytes, length, length-append, Result, ok, err, Bool-cases, ltb,
}
use ankusa.Runtime.{bytes}
use ankusa.ClaimCheck.Errors.{ClaimCheckError, retryable}
use ankusa.Message.Errors.{InvalidMessageError}
use ankusa.Message.Decode.{Message, decode_message}
use ankusa.Message.Keys.{message, idempotency_key}
use ankusa.Worker.JetStream.{
  Delivery, Failure, invalid_message, claim_failure, unanswered, announcement, dead_letter_of,
  Event, announced, published, acked, termed, naked, Consumer, World, dedupe_cap, has_key, add_key,
  trim, remember, resolve_body, is_permanent, nak, dead_letter, failed_for, fail, after,
  handle_body, handle_key, handle_message, handle,
}

abbrev pub kept : Bool → Text → List Text → List Text
kept true key seen = seen
kept false key seen = remember key seen

module _ (w : World) (m : Delivery) where
  -- The message does not decode, or its body is not to be had and no retry can help.
  abbrev pub IsRefused : Failure → Type 0
  IsRefused (invalid_message e) = decode_message w.rt (bytes m.content) ≡ err e
  IsRefused (claim_failure e) =
      (msg : Message) × (decode_message w.rt (bytes m.content) ≡ ok msg)
      × (resolve_body w msg ≡ err e)
      × (retryable e ≡ false)
  IsRefused unanswered = ⊥

  -- At most one request, which was not answered: the announcement of the decoded hook, as a known one
  -- or with its body fetched, or the dead
  -- letter of a message that is refused.
  pub data IsUntaken (s : Consumer) (tried : List Event) : Type 0 where
    nothing : tried ≡ [] → IsUntaken s tried
    unheard :
        (msg : Message) (is_duplicate : Bool)
        → decode_message w.rt (bytes m.content) ≡ ok msg
        → has_key (idempotency_key (message msg) false) s.seen ≡ is_duplicate
        → (is_duplicate ≡ true) ⊎ ((body : Bytes) × (resolve_body w msg ≡ ok body))
        → tried
          ≡ announced
              (announcement w msg (idempotency_key (message msg) false) is_duplicate s.log)
              false
            ∷ []
        → IsUntaken s tried
    unpublished :
        (f : Failure)
        → IsRefused f
        → tried ≡ published (dead_letter_of w m f) false ∷ []
        → IsUntaken s tried

  -- The hook's announcement was answered, and its key is in memory.
  pub record IsAcked (s t : Consumer) : Type 0 where
    pub msg : Message
    pub is_duplicate : Bool
    pub decoded : decode_message w.rt (bytes m.content) ≡ ok msg
    pub known : has_key (idempotency_key (message msg) false) s.seen ≡ is_duplicate
    pub fetched : (is_duplicate ≡ true) ⊎ ((body : Bytes) × (resolve_body w msg ≡ ok body))
    pub done :
        t.log
        ≡ acked
          ∷ announced
              (announcement w msg (idempotency_key (message msg) false) is_duplicate s.log)
              true
          ∷ s.log
    pub memory : t.seen ≡ kept is_duplicate (idempotency_key (message msg) false) s.seen

  -- The dead letter of a refused message was taken, and the memory is as it was.
  abbrev pub IsTermed : Consumer → Consumer → Type 0
  IsTermed s t =
      (f : Failure) × IsRefused f
      × (t.log ≡ termed f ∷ published (dead_letter_of w m f) true ∷ s.log)
      × (t.seen ≡ s.seen)

  -- The delivery comes back in at most ten seconds, and the memory is as it was.
  abbrev pub IsNaked : Consumer → Consumer → Type 0
  IsNaked s t =
      (delay : ℕ) × (tried : List Event) × (t.log ≡ naked delay ∷ (tried ++ s.log))
      × (delay ≤ 10000)
      × IsUntaken s tried
      × (t.seen ≡ s.seen)

  abbrev pub IsSettled : Consumer → Consumer → Type 0
  IsSettled s t = IsAcked s t ⊎ (IsTermed s t ⊎ IsNaked s t)

  nak-IsNaked :
      (s : Consumer) (tried : List Event)
      → IsUntaken s tried
      → IsNaked s (nak m (record s { log = tried ++ s.log }))
  unfolding nak
  nak-IsNaked s tried untaken =
      (min 10000 (1000 * m.delivery_count), tried, refl, omega arith, untaken, refl)

  dead_letter-IsSettled :
      (f : Failure) (s : Consumer) (taken : Bool)
      → IsRefused f
      → IsSettled s (dead_letter w m f s taken)
  dead_letter-IsSettled f s true refused = inr (inl (f, refused, refl, refl))
  dead_letter-IsSettled f s false refused = inr (
      inr
        (nak-IsNaked s (published (dead_letter_of w m f) false ∷ []) (unpublished f refused refl)))

  failed_for-IsSettled :
      (f : Failure) (s : Consumer) (b : Bool)
      → (b ≡ true → IsRefused f)
      → IsSettled s (failed_for w m f s b)
  failed_for-IsSettled f s false refused = inr (inr (nak-IsNaked s [] (nothing refl)))
  failed_for-IsSettled f s true refused =
      dead_letter-IsSettled f s (w.takes_dead_letter s.log) (refused refl)

  after-IsSettled :
      (s : Consumer) (msg : Message) (b taken : Bool)
      → decode_message w.rt (bytes m.content) ≡ ok msg
      → has_key (idempotency_key (message msg) false) s.seen ≡ b
      → (b ≡ true) ⊎ ((body : Bytes) × (resolve_body w msg ≡ ok body))
      → IsSettled s (after w m msg (idempotency_key (message msg) false) s b taken)
  unfolding fail
  after-IsSettled s msg b false decoded known fetched = inr (
      inr (
        nak-IsNaked s
          (announced (announcement w msg (idempotency_key (message msg) false) b s.log) false ∷ [])
          (unheard msg b decoded known fetched refl)))
  after-IsSettled s msg true true decoded known fetched = inl (record {
    msg = msg;
    is_duplicate = true;
    decoded = decoded;
    known = known;
    fetched = fetched;
    done = refl;
    memory = refl;
  })
  after-IsSettled s msg false true decoded known fetched = inl (record {
    msg = msg;
    is_duplicate = false;
    decoded = decoded;
    known = known;
    fetched = fetched;
    done = refl;
    memory = refl;
  })

  body-IsSettled :
      (s : Consumer) (msg : Message) (r : Result ClaimCheckError Bytes)
      → decode_message w.rt (bytes m.content) ≡ ok msg
      → has_key (idempotency_key (message msg) false) s.seen ≡ false
      → resolve_body w msg ≡ r
      → IsSettled s (handle_body w m msg (idempotency_key (message msg) false) s r)
  unfolding fail
  body-IsSettled s msg (err e) decoded known h =
      failed_for-IsSettled (claim_failure e) s (is_permanent (claim_failure e))
        (λ final. (msg, decoded, h, ground (arith, final)))
  body-IsSettled s msg (ok body) decoded known h =
      after-IsSettled s msg false (w.takes_announcement s.log) decoded known (inr (body, h))

  key-IsSettled :
      (s : Consumer) (msg : Message) (b : Bool)
      → decode_message w.rt (bytes m.content) ≡ ok msg
      → has_key (idempotency_key (message msg) false) s.seen ≡ b
      → IsSettled s (handle_key w m msg (idempotency_key (message msg) false) s b)
  key-IsSettled s msg true decoded known =
      after-IsSettled s msg true (w.takes_announcement s.log) decoded known (inl refl)
  key-IsSettled s msg false decoded known =
      body-IsSettled s msg (resolve_body w msg) decoded known refl

  message-IsSettled :
      (s : Consumer) (r : Result InvalidMessageError Message)
      → decode_message w.rt (bytes m.content) ≡ r
      → IsSettled s (handle_message w m s r)
  unfolding fail
  message-IsSettled s (err e) h = failed_for-IsSettled (invalid_message e) s true (λ final. h)
  message-IsSettled s (ok msg) h =
      key-IsSettled s msg (has_key (idempotency_key (message msg) false) s.seen) h refl

  -- Every delivery is settled in one of three ways: it is acknowledged, right after an answered
  -- announcement of its decoded hook, whose key was known, or is new and remembered with its body
  -- fetched; or it is terminated, right after its dead letter was taken, and then it does not decode, or
  -- its body is not to be had and no retry can help; or it comes back in at most ten seconds, after at
  -- most one request, which was not answered: the announcement, or the dead letter of a message that is
  -- refused in the same way. The memory of keys changes only for a new hook.
  pub handle-IsSettled : (s : Consumer) → IsSettled s (handle w m s)
  unfolding handle
  handle-IsSettled s = message-IsSettled s (decode_message w.rt (bytes m.content)) refl

length-add_key : (key : Text) (seen : List Text) → length (add_key key seen) ≤ length seen + 1
length-add_key key seen = elim (Bool-cases (has_key key seen)) [
  | inl h ↦ rw h (omega arith)
  | inr h ↦ rw h (omega (arith, length-append seen (key ∷ [])))
]

length-trim : (seen : List Text) → length seen ≤ dedupe_cap + 1 → length (trim seen) ≤ dedupe_cap
length-trim [] h = omega arith
length-trim (key ∷ seen) h = elim (Bool-cases (ltb dedupe_cap (length (key ∷ seen)))) [
  | inl e ↦ rw e (omega (arith, h))
  | inr e ↦ rw e (ground arith)
]

-- The memory of keys stays within its cap of 20000.
remember_bound :
    (key : Text) (seen : List Text)
    → length seen ≤ dedupe_cap
    → length (remember key seen) ≤ dedupe_cap
unfolding remember
remember_bound key seen h = length-trim (add_key key seen) (omega (arith, length-add_key key seen))
