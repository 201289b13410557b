-- ===== src/Worker/JetStream/Drains.antt =====
-- How the replicas come to the end of the stream, once NATS answers and the gateway is not busy.
use ankusa.Prelude.{
  Run, stop, go, ◌≡◌, inl, inr, refl, sym, ap, ◌∙◌, Bool, true, false, not, some, List, [], ◌∷◌,
  Text, Bytes, Result, ok, err, Bool-cases,
}
use ankusa.Runtime.{bytes}
use ankusa.Http.{Request}
use ankusa.Message.Fields.{is_sha256}
use ankusa.ClaimCheck.Errors.{ClaimCheckError, retryable}
use ankusa.ClaimCheck.Client.{claim_request}
use ankusa.ClaimCheck.Client.Laws.{IsTransient, redeem_retryable_iff}
use ankusa.Message.Errors.{InvalidMessageError}
use ankusa.Message.Decode.{Message, decode_message}
use ankusa.Message.Decode.Sound.{IsMessage, decode_message-IsMessage}
use ankusa.Message.Keys.{message, idempotency_key}
use ankusa.Worker.JetStream.{
  Delivery, Failure, invalid_message, claim_failure, Event, announced, published, announcement,
  dead_letter, dead_letter_of, failed_for, acked, termed, Consumer, World, has_key, resolve_body,
  fail, after, handle_body, handle_key, handle_message, handle,
}
use ankusa.Worker.JetStream.Intact.{claimed-resolved, own-resolved, claim_body-redeem}
use ankusa.Worker.JetStream.Cluster.{Cluster, StepAt, acknowledge, terminate, turn}

-- NATS answers every request, and the gateway never answers that it is to be asked again.
pub record IsCalm (w : World) : Type 0 where
  pub announces : (log : List Event) → w.takes_announcement log ≡ true
  pub copies : (log : List Event) → w.takes_dead_letter log ≡ true
  pub serves : (r : Request) → ¬ IsTransient (w.gateway r)

-- The delivery does not come again.
pub data IsSettling (log : List Event) : Type 0 where
  acknowledged : (before : List Event) → log ≡ acked ∷ before → IsSettling log
  terminated : (f : Failure) (before : List Event) → log ≡ termed f ∷ before → IsSettling log

module _ (w : World) (calm : IsCalm w) where
  -- A body that is not to be had now never is.
  not_retryable :
      (msg : Message) (e : ClaimCheckError)
      → IsMessage w.rt msg
      → resolve_body w msg ≡ err e
      → retryable e ≡ false
  not_retryable msg e good h = elim (Bool-cases (retryable e)) [
    | inr final ↦ final
    | inl again ↦ elim good.form [
      | inl i ↦ absurd (inline_error i.content i.body)
      | inr c ↦
          let i = c.claimed in
          let whole : is_sha256 i.digest ≡ true = good.digest i.digest i.digested in
          let same =
            claimed-resolved w msg [] i.urn i.digest i.no_body i.claim i.digested
            ∙ claim_body-redeem w i.urn i.digest i.ref i.parses whole in
          absurd (
            calm.serves (claim_request i.ref) (
              (redeem_retryable_iff w.rt w.gateway i.urn i.digest i.ref e i.parses whole
                  (sym same ∙ h)).0
                again))
    ]
  ]
    where
      inline_error : (content : Bytes) → msg.body ≡ some content → ⊥
      inline_error content own = cc (own-resolved w msg [] content own, h)

  module _ (m : Delivery) where
    dead_letter-IsSettling :
        (f : Failure) (s : Consumer) (taken : Bool)
        → taken ≡ true
        → IsSettling (dead_letter w m f s taken).log
    dead_letter-IsSettling f s true h =
        terminated f (published (dead_letter_of w m f) true ∷ s.log) refl
    dead_letter-IsSettling f s false h = absurd cc

    failed_for-IsSettling :
        (f : Failure) (s : Consumer) (b : Bool) → b ≡ true → IsSettling (failed_for w m f s b).log
    failed_for-IsSettling f s true h =
        dead_letter-IsSettling f s (w.takes_dead_letter s.log) (calm.copies s.log)
    failed_for-IsSettling f s false h = absurd cc

    after-IsSettling :
        (msg : Message) (key : Text) (s : Consumer) (d taken : Bool)
        → taken ≡ true
        → IsSettling (after w m msg key s d taken).log
    after-IsSettling msg key s true true h =
        acknowledged (announced (announcement w msg key true s.log) true ∷ s.log) refl
    after-IsSettling msg key s false true h =
        acknowledged (announced (announcement w msg key false s.log) true ∷ s.log) refl
    after-IsSettling msg key s d false h = absurd cc

    body-IsSettling :
        (msg : Message) (key : Text) (s : Consumer) (r : Result ClaimCheckError Bytes)
        → IsMessage w.rt msg
        → resolve_body w msg ≡ r
        → IsSettling (handle_body w m msg key s r).log
    unfolding fail
    body-IsSettling msg key s (ok body) good h =
        after-IsSettling msg key s false (w.takes_announcement s.log) (calm.announces s.log)
    body-IsSettling msg key s (err e) good h =
        failed_for-IsSettling (claim_failure e) s (not (retryable e))
          (ap not (not_retryable msg e good h))

    key-IsSettling :
        (msg : Message) (key : Text) (s : Consumer) (is_seen : Bool)
        → IsMessage w.rt msg
        → IsSettling (handle_key w m msg key s is_seen).log
    key-IsSettling msg key s true good =
        after-IsSettling msg key s true (w.takes_announcement s.log) (calm.announces s.log)
    key-IsSettling msg key s false good = body-IsSettling msg key s (resolve_body w msg) good refl

    message-IsSettling :
        (s : Consumer) (r : Result InvalidMessageError Message)
        → decode_message w.rt (bytes m.content) ≡ r
        → IsSettling (handle_message w m s r).log
    unfolding fail
    message-IsSettling s (err e) h = failed_for-IsSettling (invalid_message e) s true refl
    message-IsSettling s (ok msg) h =
        let key : Text = idempotency_key (message msg) false in
        key-IsSettling msg key s (has_key key s.seen)
          (decode_message-IsMessage w.rt (bytes m.content) msg h)

    pub handle-IsSettling : (s : Consumer) → IsSettling (handle w m s).log
    unfolding handle
    handle-IsSettling s = message-IsSettling s (decode_message w.rt (bytes m.content)) refl

module _ (w : World) (calm : IsCalm w) where
  -- The first message of the stream goes, at the first replica.
  settle_by :
      (c : Cluster) (m : Delivery) (ms : List Bytes)
      → c.stream ≡ m.content ∷ ms
      → IsSettling (turn w m (c.memory 0)).log
      → (d : Cluster) × StepAt w c d × (d.stream ≡ ms) × (d.stored ≡ c.stored)
  settle_by c m ms from (acknowledged before e) =
      (_, (acknowledge 0 w m [] ms true before refl from e, refl), refl, refl)
  settle_by c m ms from (terminated f before e) =
      (_, (terminate 0 w m [] ms true f before refl from e, refl), refl, refl)

  settle_first :
      (c : Cluster) (m : Bytes) (ms : List Bytes)
      → c.stream ≡ m ∷ ms
      → (d : Cluster) × StepAt w c d × (d.stream ≡ ms) × (d.stored ≡ c.stored)
  settle_first c m ms from =
      let delivery : Delivery = record { content = m; seq = 0; delivery_count = 1 } in
      settle_by c delivery ms from
        (handle-IsSettling w calm delivery (record { seen = c.memory 0; log = [] }))

  drains_from :
      (ms : List Bytes) (c : Cluster)
      → c.stream ≡ ms
      → (d : Cluster) × Run (StepAt w) c d × (d.stream ≡ []) × (d.stored ≡ c.stored)
  drains_from [] c e = (c, stop, e, refl)
  drains_from (m ∷ ms) c e =
      let (d, step, left, same) = settle_first c m ms e in
      let (last, run, empty, kept) = drains_from ms d left in
      (last, go step run, empty, kept ∙ same)

  -- From every state of the replicas, reachable or not, if NATS answers each request and the gateway
  -- never answers that it is to be asked again, whatever else it answers, there are steps with these
  -- answers that empty the stream, and nothing is stored in them: no message is one that every replica
  -- leaves for ever.
  pub cluster_drains :
      (c : Cluster) → (d : Cluster) × Run (StepAt w) c d × (d.stream ≡ []) × (d.stored ≡ c.stored)
  cluster_drains c = drains_from c.stream c refl
