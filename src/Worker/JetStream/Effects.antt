-- ===== src/Worker/JetStream/Effects.antt =====
-- What a replica's turn at a message tells the panel, copies and remembers.
use ankusa.Prelude.{
  ℕ, ◌≤◌, ◌≡◌, ◌⊎◌, inl, inr, refl, sym, ap, ◌∙◌, subst, arith, Bool, true, false, List, [], ◌∷◌,
  ◌++◌, Text, Bytes, times, All, All-append, text_eq, text_eq_refl, text_eq_sound, Bool-cases, ok,
  length, ltb, if◌then◌else◌,
}
use ankusa.Runtime.{Runtime, bytes}
use ankusa.Message.Decode.{Message, decode_message}
use ankusa.Message.Keys.{message, idempotency_key}
use ankusa.Worker.JetStream.{
  Failure, DeadLetter, announcement, dead_letter_of, Delivery, Event, announced, published, acked,
  termed, naked, Consumer, World, has_key, add_key, evict, remember, resolve_body, dedupe_cap,
}
use ankusa.Worker.JetStream.Laws.{
  IsRefused, IsUntaken, nothing, unheard, unpublished, IsSettled, kept, handle-IsSettled,
}
use ankusa.Worker.JetStream.Intact.{IsOwn, IsClaimed, resolve_body_iff}
use ankusa.Worker.JetStream.Cluster.{heard, copied, turn}

-- The key is of a hook that was stored, and whose body some replica had.
pub record IsProcessed (rt : Runtime) (stored : List Bytes) (key : Text) : Type 0 where
  pub content : Bytes
  pub msg : Message
  pub world : World
  pub body : Bytes
  pub is_stored : 1 ≤ times content stored
  pub same : world.rt ≡ rt
  pub decoded : decode_message rt (bytes content) ≡ ok msg
  pub of_key : idempotency_key (message msg) false ≡ key
  pub intact : IsOwn world msg body ⊎ IsClaimed world msg body

-- The letter has a stored message that is refused for good, for the reason that the letter gives.
pub record IsDoomed (rt : Runtime) (stored : List Bytes) (letter : DeadLetter) : Type 0 where
  pub world : World
  pub same : world.rt ≡ rt
  pub delivery : Delivery
  pub own : delivery.content ≡ letter.content
  pub is_stored : 1 ≤ times letter.content stored
  pub refused : IsRefused world delivery letter.reason

module _ (P : Text → Type 0) where
  All-has_key : (key : Text) (seen : List Text) → All P seen → has_key key seen ≡ true → P key
  All-has_key key [] h k = absurd cc
  All-has_key key (x ∷ seen) (p, h) k = elim (Bool-cases (text_eq key x)) [
    | inl e ↦ subst P (sym (text_eq_sound key x e)) p
    | inr e ↦ All-has_key key seen h (ground (arith, k, e))
  ]

  All-add_key :
      (key : Text) (seen : List Text) (b : Bool)
      → P key
      → All P seen
      → All P (if b then seen else seen ++ (key ∷ []))
  All-add_key key seen true p h = h
  All-add_key key seen false p h = All-append P seen (key ∷ []) h (p, tt)

  All-trim : (seen : List Text) (b : Bool) → All P seen → All P (if b then evict seen else seen)
  All-trim seen false h = h
  All-trim [] true h = h
  All-trim (x ∷ seen) true (p, h) = h

  All-kept :
      (b : Bool) (key : Text) (seen : List Text) → P key → All P seen → All P (kept b key seen)
  unfolding remember
  All-kept true key seen p h = h
  All-kept false key seen p h =
      All-trim (add_key key seen) (ltb dedupe_cap (length (add_key key seen)))
        (All-add_key key seen (has_key key seen) p h)

-- What is told and what is remembered is of processed hooks, and what is copied is refused.
pub record IsEffect (rt : Runtime) (stored : List Bytes) (reached : Bool) (t : Consumer)
    : Type 0 where
  pub told : All (IsProcessed rt stored) (heard reached t.log)
  pub memory : All (IsProcessed rt stored) t.seen
  pub copies : All (IsDoomed rt stored) (copied reached t.log)

module _ (rt : Runtime) (stored : List Bytes) (w : World) (same : w.rt ≡ rt) (m : Delivery)
    (is_stored : 1 ≤ times m.content stored) (seen : List Text)
    (known : All (IsProcessed rt stored) seen) where
  key-IsProcessed :
      (msg : Message) (d : Bool)
      → decode_message w.rt (bytes m.content) ≡ ok msg
      → has_key (idempotency_key (message msg) false) seen ≡ d
      → (d ≡ true) ⊎ ((body : Bytes) × (resolve_body w msg ≡ ok body))
      → IsProcessed rt stored (idempotency_key (message msg) false)
  key-IsProcessed msg d decoded at_key (inl e) =
      All-has_key (IsProcessed rt stored) (idempotency_key (message msg) false) seen known
        (at_key ∙ e)
  key-IsProcessed msg d decoded at_key (inr (body, got)) = record {
    content = m.content;
    msg = msg;
    world = w;
    body = body;
    is_stored = is_stored;
    same = same;
    decoded = subst (λ rt. decode_message rt (bytes m.content) ≡ ok msg) same decoded;
    of_key = refl;
    intact = (resolve_body_iff w msg body (bytes m.content) decoded).0 got;
  }

  of_log-IsEffect :
      (reached : Bool) (t : Consumer) (log : List Event) (now : List Text)
      → t.log ≡ log
      → t.seen ≡ now
      → All (IsProcessed rt stored) (heard reached log)
      → All (IsProcessed rt stored) now
      → All (IsDoomed rt stored) (copied reached log)
      → IsEffect rt stored reached t
  of_log-IsEffect reached t log now e k told memory copies = record {
    told = subst (λ l. All (IsProcessed rt stored) (heard reached l)) (sym e) told;
    memory = subst (All (IsProcessed rt stored)) (sym k) memory;
    copies = subst (λ l. All (IsDoomed rt stored) (copied reached l)) (sym e) copies;
  }

  one : {A : Type 0} (P : A → Type 0) (a : A) (b : Bool) → P a → All P (if b then a ∷ [] else [])
  one P a true p = (p, tt)
  one P a false p = tt

  refused-IsDoomed : (f : Failure) → IsRefused w m f → IsDoomed rt stored (dead_letter_of w m f)
  refused-IsDoomed f refused = record {
    world = w;
    same = same;
    delivery = m;
    own = refl;
    is_stored = is_stored;
    refused = refused;
  }

  untaken-IsEffect :
      (reached : Bool) (t : Consumer) (delay : ℕ) (tried : List Event)
      → t.log ≡ naked delay ∷ (tried ++ [])
      → t.seen ≡ seen
      → IsUntaken w m (record { seen = seen; log = [] }) tried
      → IsEffect rt stored reached t
  untaken-IsEffect reached t delay tried log memory (nothing e) =
      of_log-IsEffect reached t (naked delay ∷ []) seen (log ∙ ap (λ x. naked delay ∷ (x ++ [])) e)
        memory tt known tt
  untaken-IsEffect reached t delay tried log memory (unheard msg d decoded at_key fetched e) =
      let key : Text = idempotency_key (message msg) false in
      of_log-IsEffect reached t (naked delay ∷ announced (announcement w msg key d []) false ∷ [])
        seen (log ∙ ap (λ x. naked delay ∷ (x ++ [])) e) memory
        (one (IsProcessed rt stored) key reached (key-IsProcessed msg d decoded at_key fetched))
        known tt
  untaken-IsEffect reached t delay tried log memory (unpublished f refused e) =
      of_log-IsEffect reached t (naked delay ∷ published (dead_letter_of w m f) false ∷ []) seen
        (log ∙ ap (λ x. naked delay ∷ (x ++ [])) e) memory tt known
        (one (IsDoomed rt stored) (dead_letter_of w m f) reached (refused-IsDoomed f refused))

  settled-IsEffect :
      (reached : Bool) (t : Consumer)
      → IsSettled w m (record { seen = seen; log = [] }) t
      → IsEffect rt stored reached t
  settled-IsEffect reached t (inl a) =
      let key : Text = idempotency_key (message a.msg) false in
      let p : IsProcessed rt stored key =
        key-IsProcessed a.msg a.is_duplicate a.decoded a.known a.fetched in
      of_log-IsEffect reached t
        (acked ∷ announced (announcement w a.msg key a.is_duplicate []) true ∷ [])
        (kept a.is_duplicate key seen) a.done a.memory (p, tt)
        (All-kept (IsProcessed rt stored) a.is_duplicate key seen p known) tt
  settled-IsEffect reached t (inr (inl (f, refused, log, memory))) =
      of_log-IsEffect reached t (termed f ∷ published (dead_letter_of w m f) true ∷ []) seen log
        memory tt known (refused-IsDoomed f refused, tt)
  settled-IsEffect reached t (inr (inr (delay, tried, log, low, u, memory))) =
      untaken-IsEffect reached t delay tried log memory u

  pub turn-IsEffect : (reached : Bool) → IsEffect rt stored reached (turn w m seen)
  turn-IsEffect reached =
      settled-IsEffect reached (turn w m seen)
        (handle-IsSettled w m (record { seen = seen; log = [] }))

  -- What an acknowledged turn announced.
  acked-of_settled :
      (t : Consumer) (before : List Event) (reached : Bool)
      → IsSettled w m (record { seen = seen; log = [] }) t
      → t.log ≡ acked ∷ before
      → (msg : Message) × (decode_message rt (bytes m.content) ≡ ok msg)
        × (has_key (idempotency_key (message msg) false) (heard reached t.log) ≡ true)
  acked-of_settled t before reached (inl a) e = (
    a.msg,
    subst (λ rt. decode_message rt (bytes m.content) ≡ ok a.msg) same a.decoded,
    subst (λ l. has_key (idempotency_key (message a.msg) false) (heard reached l) ≡ true)
        (sym a.done) (rw (text_eq_refl (idempotency_key (message a.msg) false))),
  )
  acked-of_settled t before reached (inr (inl (f, refused, log, memory))) e = absurd cc
  acked-of_settled t before reached (inr (inr (delay, tried, log, low, u, memory))) e = absurd cc

  pub turn-acked :
      (before : List Event) (reached : Bool)
      → (turn w m seen).log ≡ acked ∷ before
      → (msg : Message) × (decode_message rt (bytes m.content) ≡ ok msg)
        × (has_key (idempotency_key (message msg) false) (heard reached (turn w m seen).log) ≡ true)
  turn-acked before reached =
      acked-of_settled (turn w m seen) before reached
        (handle-IsSettled w m (record { seen = seen; log = [] }))

  termed-of_settled :
      (t : Consumer) (f : Failure) (before : List Event) (reached : Bool)
      → IsSettled w m (record { seen = seen; log = [] }) t
      → t.log ≡ termed f ∷ before
      → (letter : DeadLetter) × (copied reached t.log ≡ letter ∷ []) × (letter.content ≡ m.content)
  termed-of_settled t f before reached (inl a) e = absurd cc
  termed-of_settled t f before reached (inr (inl (g, refused, log, memory))) e =
      (dead_letter_of w m g, ap (copied reached) log, refl)
  termed-of_settled t f before reached (inr (inr (delay, tried, log, low, u, memory))) e = absurd cc

  pub turn-termed :
      (f : Failure) (before : List Event) (reached : Bool)
      → (turn w m seen).log ≡ termed f ∷ before
      → (letter : DeadLetter) × (copied reached (turn w m seen).log ≡ letter ∷ [])
        × (letter.content ≡ m.content)
  turn-termed f before reached =
      termed-of_settled (turn w m seen) f before reached
        (handle-IsSettled w m (record { seen = seen; log = [] }))
