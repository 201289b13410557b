-- ===== src/Worker/Broker.antt =====
-- What a broker with its consumers is, whichever it is: a bag of messages that each arrive, wait and
-- are settled. examples/jetstream-k8s/consumer and examples/fleet-e2e/consumer are such systems.
pub mod Client
use ankusa.Prelude.{Run, ℕ, ◌+◌, ◌≡◌, Bytes, text_eq, if◌then◌else◌}

-- How often each message was published, how often it still waits, and how often it was settled.
pub record Bag : Type 0 where
  pub published : Bytes → ℕ
  pub pending : Bytes → ℕ
  pub settled : Bytes → ℕ

-- One message, counted.
abbrev pub one : Bytes → Bytes → ℕ
one m x = if text_eq m x then 1 else 0

pub data Change (a b : Bag) : Type 0 where
  arrives :
      (m : Bytes)
      → ((x : Bytes) → b.published x ≡ one m x + a.published x)
      → ((x : Bytes) → b.pending x ≡ one m x + a.pending x)
      → ((x : Bytes) → b.settled x ≡ a.settled x)
      → Change a b
  settles :
      (m : Bytes)
      → ((x : Bytes) → b.published x ≡ a.published x)
      → ((x : Bytes) → a.pending x ≡ one m x + b.pending x)
      → ((x : Bytes) → b.settled x ≡ one m x + a.settled x)
      → Change a b
  stays :
      ((x : Bytes) → b.published x ≡ a.published x)
      → ((x : Bytes) → b.pending x ≡ a.pending x)
      → ((x : Bytes) → b.settled x ≡ a.settled x)
      → Change a b

pub record Broker : Type 1 where
  pub State : Type 0
  pub Step : State → State → Type 0
  pub start : State
  pub bag : State → Bag
  -- The steps in which what lies outside the system answers.
  pub Serving : State → State → Type 0
  pub serves : (s t : State) → Serving s t → Step s t
  -- What is there to be served can be.
  pub IsServed : State → Type 0
  pub empty :
      (x : Bytes)
      → ((bag start).published x ≡ 0) × ((bag start).pending x ≡ 0) × ((bag start).settled x ≡ 0)
  pub refines : (s t : State) → Step s t → Change (bag s) (bag t)
  pub drains :
      (s : State)
      → Run Step start s
      → IsServed s
      → (t : State) × Run Serving s t
        × ((x : Bytes) → (bag t).pending x ≡ 0)
        × ((x : Bytes) → (bag t).published x ≡ (bag s).published x)
