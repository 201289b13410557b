-- ===== src/Worker/Fleet/System.antt =====
-- The fleet consumer, RabbitMQ and the table, as one system: up to 32 deliveries are in flight, their
-- handlers finish in any order, and the consumer may be killed at any point.
use ankusa.Prelude.{ℕ, ◌+◌, ◌<◌, ◌≡◌, ◌≢◌, some, List, [], ◌∷◌, ◌++◌, Bytes, length, ok}
use ankusa.Http.{Gateway}
use ankusa.Worker.Rabbit.{rejected, settlement_of}
use ankusa.Worker.Fleet.{World, Entry, Table, read, upsert}

-- `chan.prefetch(32)`
abbrev pub prefetch : ℕ
prefetch = 32

-- The deliveries of each kind: those in `flight` are being handled, those in `stored` are written and
-- not yet acknowledged. `log` has the statements that the database took, the last first.
pub record Fleet : Type 0 where
  pub published : List Bytes
  pub queue : List Bytes
  pub flight : List Bytes
  pub stored : List Bytes
  pub acked : List Bytes
  pub dead : List Bytes
  pub table : Table
  pub log : List Entry

abbrev pub start : Fleet
start = record {
  published = [];
  queue = [];
  flight = [];
  stored = [];
  acked = [];
  dead = [];
  table = [];
  log = [];
}

-- The gateway may answer otherwise at another time.
abbrev pub at : World → Gateway Bytes → World
at w g = record w { reader = record w.reader { gateway = g } }

module _ (w : World) where
  pub data Step (f : Fleet) : Fleet → Type 0 where
    publish :
        (m : Bytes) → Step f (record f { published = m ∷ f.published; queue = f.queue ++ (m ∷ []) })
    deliver :
        (m : Bytes) (rest : List Bytes)
        → f.queue ≡ m ∷ rest
        → length f.flight + length f.stored < prefetch
        → Step f (record f { queue = rest; flight = m ∷ f.flight })
    store :
        (m : Bytes) (xs ys : List Bytes) (g : Gateway Bytes) (e : Entry) (t : Table)
        → f.flight ≡ xs ++ (m ∷ ys)
        → read (at w g) m ≡ ok e
        → upsert e f.table ≡ some t
        → Step f (record f { flight = xs ++ ys; stored = m ∷ f.stored; table = t; log = e ∷ f.log })
    -- The row is written, and the answer of the database is lost: the message is put back.
    store_unanswered :
        (m : Bytes) (xs ys : List Bytes) (g : Gateway Bytes) (e : Entry) (t : Table)
        → f.flight ≡ xs ++ (m ∷ ys)
        → read (at w g) m ≡ ok e
        → upsert e f.table ≡ some t
        → Step f (record f {
          queue = f.queue ++ (m ∷ []);
          flight = xs ++ ys;
          table = t;
          log = e ∷ f.log;
        })
    acknowledge :
        (m : Bytes) (xs ys : List Bytes)
        → f.stored ≡ xs ++ (m ∷ ys)
        → Step f (record f { stored = xs ++ ys; acked = m ∷ f.acked })
    reject :
        (m : Bytes) (xs ys : List Bytes) (g : Gateway Bytes)
        → f.flight ≡ xs ++ (m ∷ ys)
        → settlement_of (read (at w g) m) ≡ rejected
        → Step f (record f { flight = xs ++ ys; dead = m ∷ f.dead })
    -- the body, the row or the database was not to be had
    requeue :
        (m : Bytes) (xs ys : List Bytes) (g : Gateway Bytes)
        → f.flight ≡ xs ++ (m ∷ ys)
        → settlement_of (read (at w g) m) ≢ rejected
        → Step f (record f { flight = xs ++ ys; queue = f.queue ++ (m ∷ []) })
    -- the consumer is killed, and RabbitMQ delivers again what was not acknowledged
    restart :
        Step f (record f { queue = (f.flight ++ f.stored) ++ f.queue; flight = []; stored = [] })

  -- The steps of a consumer that finishes what it has, with a gateway that answers in one way: nothing is
  -- published or put back, and the consumer is not killed.
  abbrev pub IsAt : {f h : Fleet} → Gateway Bytes → Step f h → Type 0
  IsAt g (publish m) = ⊥
  IsAt g (deliver m rest e few) = Unit
  IsAt g (store m xs ys used e t from got up) = used ≡ g
  IsAt g (store_unanswered m xs ys used e t from got up) = ⊥
  IsAt g (acknowledge m xs ys from) = Unit
  IsAt g (reject m xs ys used from refused) = used ≡ g
  IsAt g (requeue m xs ys used from again) = ⊥
  IsAt g restart = ⊥

  abbrev pub StepAt : Gateway Bytes → Fleet → Fleet → Type 0
  StepAt g f h = (s : Step f h) × IsAt g s

  pub data Reach : Fleet → Type 0 where
    here : Reach start
    later : {f g : Fleet} → Reach f → Step f g → Reach g
