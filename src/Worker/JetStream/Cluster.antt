-- ===== src/Worker/JetStream/Cluster.antt =====
-- The consumers of examples/jetstream-k8s as one system: any number of replicas share the stream, the
-- control panel's ledger and the dead-letter stream, and each has its own memory of keys.
use ankusa.Prelude.{
  ℕ, ◌≤◌, ◌≡◌, ◌||◌, Bool, List, [], ◌∷◌, ◌++◌, Text, Bytes, times, eqb, if◌then◌else◌,
}
use ankusa.Runtime.{Runtime}
use ankusa.Worker.JetStream.{
  Delivery, Failure, DeadLetter, Event, announced, published, acked, termed, naked, Consumer, World,
  handle,
}

-- `stored` has what was ever published to the stream, and `stream` what is still in it. `ledger` has the
-- keys that the panel heard, `copies` what was ever published to the dead-letter stream, and `memory`
-- the keys in each replica's `seen`.
pub record Cluster : Type 0 where
  pub stored : List Bytes
  pub stream : List Bytes
  pub done : List Bytes
  pub dead : List Bytes
  pub ledger : List Text
  pub copies : List DeadLetter
  pub memory : ℕ → List Text

abbrev pub start : Cluster
start = record {
  stored = [];
  stream = [];
  done = [];
  dead = [];
  ledger = [];
  copies = [];
  memory = λ i. [];
}

-- The keys that the panel heard; `reached` tells whether it heard a request whose answer was lost.
abbrev pub heard : (reached : Bool) → List Event → List Text
heard reached [] = []
heard reached (announced a taken ∷ es) =
    let rest = heard reached es in if taken || reached then a.idempotency_key ∷ rest else rest
heard reached (published letter taken ∷ es) = heard reached es
heard reached (acked ∷ es) = heard reached es
heard reached (termed f ∷ es) = heard reached es
heard reached (naked delay ∷ es) = heard reached es

-- What came to the dead-letter stream.
abbrev pub copied : (reached : Bool) → List Event → List DeadLetter
copied reached [] = []
copied reached (published letter taken ∷ es) =
    let rest = copied reached es in if taken || reached then letter ∷ rest else rest
copied reached (announced a taken ∷ es) = copied reached es
copied reached (acked ∷ es) = copied reached es
copied reached (termed f ∷ es) = copied reached es
copied reached (naked delay ∷ es) = copied reached es

-- A replica's turn at a delivery.
abbrev pub turn : World → Delivery → List Text → Consumer
turn w m seen = handle w m (record { seen = seen; log = [] })

-- What the turn of replica `i` leaves, but for the message.
abbrev pub after_turn : (reached : Bool) → (i : ℕ) → Consumer → Cluster → Cluster
after_turn reached i t c = record c {
  ledger = heard reached t.log ++ c.ledger;
  copies = copied reached t.log ++ c.copies;
  memory = λ j. if eqb i j then t.seen else c.memory j;
}

pub data Step (rt : Runtime) (c : Cluster) : Cluster → Type 0 where
  publish : (m : Bytes) → Step rt c (record c { stored = m ∷ c.stored; stream = m ∷ c.stream })
  -- An acknowledgement reaches the stream, where the message still is.
  acknowledge :
      (i : ℕ) (w : World) (m : Delivery) (xs ys : List Bytes) (reached : Bool) (before : List Event)
      → w.rt ≡ rt
      → c.stream ≡ xs ++ (m.content ∷ ys)
      → (turn w m (c.memory i)).log ≡ acked ∷ before
      → Step rt c (record (after_turn reached i (turn w m (c.memory i)) c) {
        stream = xs ++ ys;
        done = m.content ∷ c.done;
      })
  terminate :
      (i : ℕ) (w : World) (m : Delivery) (xs ys : List Bytes) (reached : Bool) (f : Failure)
      (before : List Event)
      → w.rt ≡ rt
      → c.stream ≡ xs ++ (m.content ∷ ys)
      → (turn w m (c.memory i)).log ≡ termed f ∷ before
      → Step rt c (record (after_turn reached i (turn w m (c.memory i)) c) {
        stream = xs ++ ys;
        dead = m.content ∷ c.dead;
      })
  -- The delivery is to come again, or its settlement is lost, or another replica has settled the
  -- message before.
  leave :
      (i : ℕ) (w : World) (m : Delivery) (reached : Bool)
      → w.rt ≡ rt
      → 1 ≤ times m.content c.stored
      → Step rt c (after_turn reached i (turn w m (c.memory i)) c)
  -- A replica starts or is started again.
  restart : (i : ℕ) → Step rt c (record c { memory = λ j. if eqb i j then [] else c.memory j })

-- The steps in which the replicas meet one world and settle what is in the stream: nothing is published,
-- and no replica starts.
abbrev pub IsAt : {rt : Runtime} {c d : Cluster} → World → Step rt c d → Type 0
IsAt w (publish m) = ⊥
IsAt w (acknowledge i v m xs ys reached before same from log) = v ≡ w
IsAt w (terminate i v m xs ys reached f before same from log) = v ≡ w
IsAt w (leave i v m reached same stored) = v ≡ w
IsAt w (restart i) = ⊥

abbrev pub StepAt : World → Cluster → Cluster → Type 0
StepAt w c d = (s : Step w.rt c d) × IsAt w s

pub data Reach (rt : Runtime) : Cluster → Type 0 where
  here : Reach rt start
  later : {c d : Cluster} → Reach rt c → Step rt c d → Reach rt d
