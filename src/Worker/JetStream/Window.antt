-- ===== src/Worker/JetStream/Window.antt =====
-- What a replica's memory of keys has.
use ankusa.Prelude.{
  ℕ, zero, suc, ◌+◌, ◌-◌, ◌≤◌, ◌<◌, Bool, true, false, not, ◌&&◌, ◌≡◌, inl, inr, refl, sym, ap, ◌∙◌,
  subst, arith, List, [], ◌∷◌, ◌++◌, Text, length, length-append, drop, ltb, if◌then◌else◌,
  Bool-cases,
}
use ankusa.Message.Decode.{Message}
use ankusa.Message.Keys.{message, idempotency_key}
use ankusa.Worker.JetStream.{
  Delivery, Event, announced, published, acked, termed, naked, announcement, Consumer, World,
  dedupe_cap, has_key, evict, trim, remember, handle,
}
use ankusa.Worker.JetStream.Laws.{IsUntaken, nothing, unheard, unpublished, handle-IsSettled, kept}
use ankusa.Worker.JetStream.Main.{no_memory, consume}

-- The keys of the hooks that were announced as new and answered, the first first.
abbrev pub new_keys : List Event → List Text
new_keys [] = []
new_keys (announced a taken ∷ es) =
    let rest = new_keys es in
    if taken && not a.duplicate then rest ++ (a.idempotency_key ∷ []) else rest
new_keys (published letter taken ∷ es) = new_keys es
new_keys (acked ∷ es) = new_keys es
new_keys (termed f ∷ es) = new_keys es
new_keys (naked delay ∷ es) = new_keys es

-- The last 20000.
abbrev pub window : List Text → List Text
window keys = drop (length keys - dedupe_cap) keys

module _ {A : Type 0} where
  drop_one : (n : ℕ) (xs : List A) → drop 1 (drop n xs) ≡ drop (suc n) xs
  drop_one zero xs = refl
  drop_one (suc n) [] = refl
  drop_one (suc n) (x ∷ xs) = drop_one n xs

  drop-append : (n : ℕ) (xs ys : List A) → n ≤ length xs → drop n (xs ++ ys) ≡ drop n xs ++ ys
  drop-append zero xs ys h = refl
  drop-append (suc n) [] ys h = absurd (omega (arith, h))
  drop-append (suc n) (x ∷ xs) ys h = drop-append n xs ys (omega (arith, h))

  length-drop : (n : ℕ) (xs : List A) → n ≤ length xs → length (drop n xs) + n ≡ length xs
  length-drop zero xs h = omega arith
  length-drop (suc n) [] h = absurd (omega (arith, h))
  length-drop (suc n) (x ∷ xs) h = omega (arith, length-drop n xs (omega (arith, h)))

evict-drop : (seen : List Text) → evict seen ≡ drop 1 seen
evict-drop [] = refl
evict-drop (x ∷ seen) = refl

trim_short : (seen : List Text) → length seen ≤ dedupe_cap → trim seen ≡ seen
trim_short seen h =
    let low : ltb dedupe_cap (length seen) ≡ false = ground (arith, h) in rw low refl

trim_long : (seen : List Text) → dedupe_cap < length seen → trim seen ≡ drop 1 seen
trim_long seen h =
    let high : ltb dedupe_cap (length seen) ≡ true = ground (arith, h) in rw high (evict-drop seen)

window_short : (keys : List Text) → length keys ≤ dedupe_cap → window keys ≡ keys
window_short keys h =
    let none_over : length keys - dedupe_cap ≡ 0 = omega (arith, h) in
    ap (λ n. drop n keys) none_over

window_bound : (keys : List Text) → length (window keys) ≤ dedupe_cap
window_bound keys = omega (arith, length-drop (length keys - dedupe_cap) keys (omega arith))

trim-window :
    (keys : List Text) (key : Text) → trim (window keys ++ (key ∷ [])) ≡ window (keys ++ (key ∷ []))
trim-window keys key = elim (Bool-cases (ltb (length keys) dedupe_cap)) [
  | inl few ↦
      let low : length keys < dedupe_cap = ground (arith, few) in
      let more : length (keys ++ (key ∷ [])) ≤ dedupe_cap =
        omega (arith, low, length-append keys (key ∷ [])) in
      ap (λ x. trim (x ++ (key ∷ []))) (window_short keys (omega (arith, low)))
      ∙ (trim_short (keys ++ (key ∷ [])) more ∙ sym (window_short (keys ++ (key ∷ [])) more))
  | inr many ↦
      let high : dedupe_cap ≤ length keys = ground (arith, many) in
      let n : ℕ = length keys - dedupe_cap in
      let all : List Text = keys ++ (key ∷ []) in
      let one : length all ≡ length keys + 1 = omega (arith, length-append keys (key ∷ [])) in
      let over : dedupe_cap < length (drop n all) =
        omega (arith, high, one, length-drop n all (omega (arith, one))) in
      let next : suc n ≡ length all - dedupe_cap = omega (arith, high, one) in
      ap trim (sym (drop-append n keys (key ∷ []) (omega arith)))
      ∙ (trim_long (drop n all) over ∙ (drop_one n all ∙ ap (λ k. drop k all) next))
]

remember-window :
    (keys : List Text) (key : Text)
    → has_key key (window keys) ≡ false
    → remember key (window keys) ≡ window (keys ++ (key ∷ []))
unfolding remember
remember-window keys key fresh = rw fresh (trim-window keys key)

abbrev IsWindow : Consumer → Type 0
IsWindow s = s.seen ≡ window (new_keys s.log)

same-IsWindow :
    (s t : Consumer) → t.seen ≡ s.seen → new_keys t.log ≡ new_keys s.log → IsWindow s → IsWindow t
same-IsWindow s t seen keys i = seen ∙ (i ∙ ap window (sym keys))

module _ (w : World) (m : Delivery) where
  acked-IsWindow :
      (s t : Consumer) (msg : Message) (b : Bool) (key : Text)
      → has_key key s.seen ≡ b
      → t.log ≡ acked ∷ announced (announcement w msg key b s.log) true ∷ s.log
      → t.seen ≡ kept b key s.seen
      → IsWindow s
      → IsWindow t
  acked-IsWindow s t msg true key known log seen i = same-IsWindow s t seen (ap new_keys log) i
  acked-IsWindow s t msg false key known log seen i =
      seen
      ∙ (ap (remember key) i
          ∙ (remember-window (new_keys s.log) key (subst (λ x. has_key key x ≡ false) i known)
              ∙ ap window (sym (ap new_keys log))))

  untaken-new_keys :
      (s : Consumer) (delay : ℕ) (tried : List Event)
      → IsUntaken w m s tried
      → new_keys (naked delay ∷ (tried ++ s.log)) ≡ new_keys s.log
  untaken-new_keys s delay tried (nothing e) = ap (λ x. new_keys (x ++ s.log)) e
  untaken-new_keys s delay tried (unheard msg d decoded known fetched e) =
      ap (λ x. new_keys (x ++ s.log)) e
  untaken-new_keys s delay tried (unpublished f refused e) = ap (λ x. new_keys (x ++ s.log)) e

  handle-IsWindow : (s : Consumer) → IsWindow s → IsWindow (handle w m s)
  handle-IsWindow s i = elim (handle-IsSettled w m s) [
    | inl a ↦
        acked-IsWindow s (handle w m s) a.msg a.is_duplicate (idempotency_key (message a.msg) false)
          a.known a.done a.memory i
    | inr (inl (f, refused, log, seen)) ↦ same-IsWindow s (handle w m s) seen (ap new_keys log) i
    | inr (inr (delay, tried, log, low, u, seen)) ↦
        same-IsWindow s (handle w m s) seen (ap new_keys log ∙ untaken-new_keys s delay tried u) i
  ]

module _ (w : World) where
  consume-keeps : (ms : List Delivery) (s : Consumer) → IsWindow s → IsWindow (consume w ms s)
  unfolding consume
  consume-keeps [] s i = i
  consume-keeps (m ∷ ms) s i = consume-keeps ms (handle w m s) (handle-IsWindow w m s i)

  -- Whatever it is given, a replica that starts with an empty memory remembers just the last 20000 of the
  -- keys that it announced as those of new hooks and got an answer for, in their order; and so never more
  -- than 20000.
  pub consume-window :
      (ms : List Delivery)
      → ((consume w ms no_memory).seen ≡ window (new_keys (consume w ms no_memory).log))
        × (length (consume w ms no_memory).seen ≤ dedupe_cap)
  consume-window ms =
      let same = consume-keeps ms no_memory refl in
      (
        same,
        subst (λ x. length x ≤ dedupe_cap) (sym same)
            (window_bound (new_keys (consume w ms no_memory).log)),
      )
