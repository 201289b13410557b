-- ===== src/Worker/JetStream/Once.antt =====
-- How often a hook that comes again is processed, while its key is in memory.
use ankusa.Prelude.{
  ℕ, ◌+◌, ◌≤◌, ◌<◌, Bool, true, false, not, ◌&&◌, ◌||◌, ◌≡◌, inl, inr, refl, sym, ap, ◌∙◌, subst,
  arith, List, [], ◌∷◌, ◌++◌, Text, text_eq, text_eq_sound, length, length-append, ltb,
  if◌then◌else◌, Bool-cases,
}
use ankusa.Message.Decode.{Message}
use ankusa.Message.Keys.{message, idempotency_key}
use ankusa.Worker.JetStream.{
  Announcement, announcement, Delivery, Event, announced, acked, termed, naked, Consumer, World,
  dedupe_cap, has_key, remember, handle,
}
use ankusa.Worker.JetStream.Laws.{IsUntaken, nothing, unheard, unpublished, handle-IsSettled, kept}
use ankusa.Worker.JetStream.Main.{no_memory, consume}

abbrev pub is_settlement : Event → Bool
is_settlement acked = true
is_settlement (termed f) = true
is_settlement (naked delay) = true
is_settlement _ = false

-- How many deliveries were settled.
abbrev pub settlements : List Event → ℕ
settlements [] = 0
settlements (e ∷ es) = (if is_settlement e then 1 else 0) + settlements es

abbrev pub is_new : Text → Event → Bool
is_new key (announced a taken) = taken && not a.duplicate && text_eq key a.idempotency_key
is_new key _ = false

-- How often a key was announced as that of a new hook, and answered.
abbrev pub processed : Text → List Event → ℕ
processed key [] = 0
processed key (e ∷ es) = (if is_new key e then 1 else 0) + processed key es

has_key_append :
    (key k : Text) (seen : List Text)
    → has_key key (seen ++ (k ∷ [])) ≡ (has_key key seen || text_eq key k)
has_key_append key k [] = ground arith
has_key_append key k (x ∷ seen) = ground (arith, has_key_append key k seen)

remember_new :
    (key : Text) (seen : List Text)
    → has_key key seen ≡ false
    → length seen < dedupe_cap
    → remember key seen ≡ seen ++ (key ∷ [])
unfolding remember
remember_new key seen fresh few =
    let shorter : ltb dedupe_cap (length (seen ++ (key ∷ []))) ≡ false =
      ground (arith, length-append seen (key ∷ []), few) in
    rw (fresh, shorter) refl

untaken :
    (w : World) (m : Delivery) (s : Consumer) (tried es : List Event)
    → IsUntaken w m s tried
    → (settlements (tried ++ es) ≡ settlements es)
      × ((key : Text) → processed key (tried ++ es) ≡ processed key es)
untaken w m s tried es (nothing e) = rw e (refl, λ key. refl)
untaken w m s tried es (unheard msg d decoded known fetched e) =
    rw e (omega arith, λ key. omega arith)
untaken w m s tried es (unpublished f refused e) = rw e (omega arith, λ key. omega arith)

record Inv (s : Consumer) (n : ℕ) : Type 0 where
  few : length s.seen ≤ n
  settled : settlements s.log ≡ n
  once : (key : Text) → processed key s.log ≡ (if has_key key s.seen then 1 else 0)

keeps :
    (s t : Consumer) (n : ℕ)
    → t.seen ≡ s.seen
    → settlements t.log ≡ settlements s.log + 1
    → ((key : Text) → processed key t.log ≡ processed key s.log)
    → Inv s n
    → Inv t (n + 1)
keeps s t n seen more same i = record {
  few = omega (arith, ap length seen, i.few);
  settled = omega (arith, more, i.settled);
  once = λ key. same key ∙ i.once key ∙ ap (λ x. if has_key key x then 1 else 0) (sym seen);
}

once_more :
    (key k : Text) (s : Consumer) (n : ℕ)
    → has_key key s.seen ≡ false
    → Inv s n
    → (if text_eq k key then 1 else 0) + processed k s.log
      ≡ (if has_key k s.seen || text_eq k key then 1 else 0)
once_more key k s n fresh i = elim (Bool-cases (text_eq k key)) [
  | inl y ↦
      let absent : has_key k s.seen ≡ false =
        subst (λ k. has_key k s.seen ≡ false) (sym (text_eq_sound k key y)) fresh in
      ground (arith, y, absent, i.once k)
  | inr differs ↦ ground (arith, differs, i.once k)
]

later_event :
    (a : Announcement) (k : Text) (s : Consumer)
    → a.duplicate ≡ false
    → processed k (acked ∷ announced a true ∷ s.log)
      ≡ (if text_eq k a.idempotency_key then 1 else 0) + processed k s.log
later_event a k s new = ground (arith, new)

acked_at :
    (w : World) (msg : Message) (s t : Consumer) (n : ℕ) (key : Text) (b : Bool)
    → n < dedupe_cap
    → Inv s n
    → has_key key s.seen ≡ b
    → t.log ≡ acked ∷ announced (announcement w msg key b s.log) true ∷ s.log
    → t.seen ≡ kept b key s.seen
    → Inv t (n + 1)
acked_at w msg s t n key true few i known log seen =
    keeps s t n seen (omega (arith, ap settlements log)) (λ k. omega (arith, ap (processed k) log))
      i
acked_at w msg s t n key false few i known log seen =
    let new : t.seen ≡ s.seen ++ (key ∷ []) =
      seen ∙ remember_new key s.seen known (omega (arith, few, i.few)) in
    record {
      few = omega (arith, ap length new, length-append s.seen (key ∷ []), i.few);
      settled = omega (arith, ap settlements log, i.settled);
      once = λ k.
          ap (processed k) log
          ∙ (later_event (announcement w msg key false s.log) k s refl
              ∙ (once_more key k s n known i
                  ∙ ap (λ x. if x then 1 else 0)
                      (sym (ap (has_key k) new ∙ has_key_append k key s.seen))));
    }

module _ (w : World) (m : Delivery) where
  handle-Inv : (s : Consumer) (n : ℕ) → n < dedupe_cap → Inv s n → Inv (handle w m s) (n + 1)
  handle-Inv s n few i = elim (handle-IsSettled w m s) [
    | inl a ↦
        acked_at w a.msg s (handle w m s) n (idempotency_key (message a.msg) false) a.is_duplicate
          few i a.known a.done a.memory
    | inr (inl (f, refused, log, seen)) ↦
        keeps s (handle w m s) n seen (omega (arith, ap settlements log))
          (λ k. omega (arith, ap (processed k) log)) i
    | inr (inr (delay, tried, log, low, h, seen)) ↦
        let (more, same) = untaken w m s tried s.log h in
        keeps s (handle w m s) n seen (omega (arith, ap settlements log, more))
          (λ k. omega (arith, ap (processed k) log, same k)) i
  ]

module _ (w : World) where
  consume-Inv :
      (ms : List Delivery) (s : Consumer) (n : ℕ)
      → n + length ms ≤ dedupe_cap
      → Inv s n
      → Inv (consume w ms s) (n + length ms)
  unfolding consume
  consume-Inv [] s n h i = subst (Inv s) (omega arith) i
  consume-Inv (m ∷ ms) s n h i = subst (Inv (consume w ms (handle w m s))) (omega arith) (
      consume-Inv ms (handle w m s) (n + 1) (omega (arith, h))
        (handle-Inv w m s n (omega (arith, h)) i))

  -- A replica that starts with an empty memory, and is given at most 20000 deliveries, settles as
  -- many as it is given, and has announced no key as that of a new hook more than once with an
  -- answer; its memory has just the keys of the hooks that were.
  pub consume_once :
      (ms : List Delivery)
      → length ms ≤ dedupe_cap
      → (settlements (consume w ms no_memory).log ≡ length ms)
        × ((key : Text)
            → processed key (consume w ms no_memory).log
              ≡ (if has_key key (consume w ms no_memory).seen then 1 else 0))
  consume_once ms h =
      let i =
        consume-Inv ms no_memory 0 (omega (arith, h))
          (record { few = omega arith; settled = refl; once = λ key. refl }) in
      (omega (arith, i.settled), i.once)
