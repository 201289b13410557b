-- ===== src/Worker/JetStream/Invariant.antt =====
-- The invariant of the consumers and their streams, and what a turn keeps of it.
use ankusa.Prelude.{
  Any, inr, ℕ, ◌+◌, ◌≤◌, ◌≡◌, arith, Bool, true, false, List, [], ◌∷◌, ◌++◌, Text, Bytes, times,
  All, All-append, All_map, text_eq_refl, eqb, ok, if◌then◌else◌,
}
use ankusa.Runtime.{Runtime, bytes}
use ankusa.Message.Decode.{Message, decode_message}
use ankusa.Message.Keys.{message, idempotency_key}
use ankusa.Worker.JetStream.{DeadLetter, Consumer, has_key}
use ankusa.Worker.JetStream.Effects.{IsProcessed, IsDoomed, IsEffect}
use ankusa.Worker.JetStream.Cluster.{Cluster, heard, copied, after_turn}

-- Each message that was stored is in the stream, or was acknowledged or terminated.
abbrev pub IsConserved : Cluster → Type 0
IsConserved c = (m : Bytes) → times m c.stored ≡ times m c.stream + times m c.done + times m c.dead

-- The panel's ledger has the key of the decoded message.
abbrev pub IsReported : Runtime → List Text → Bytes → Type 0
IsReported rt ledger m =
    (msg : Message) × (decode_message rt (bytes m) ≡ ok msg)
    × (has_key (idempotency_key (message msg) false) ledger ≡ true)

abbrev pub IsCopied : List DeadLetter → Bytes → Type 0
IsCopied copies m = Any (λ letter. letter.content ≡ m) copies

has_key-more :
    (key : Text) (xs ys : List Text) → has_key key ys ≡ true → has_key key (xs ++ ys) ≡ true
has_key-more key [] ys h = h
has_key-more key (x ∷ xs) ys h = ground (arith, has_key-more key xs ys h)

pub has_key-first :
    (key : Text) (xs ys : List Text) → has_key key xs ≡ true → has_key key (xs ++ ys) ≡ true
has_key-first key [] ys h = absurd cc
has_key-first key (x ∷ xs) ys h = ground (arith, has_key-first key xs ys)

pub times_own : (m : Bytes) (xs ys : List Bytes) → 1 ≤ times m (xs ++ (m ∷ ys))
times_own m [] ys = ground (arith, text_eq_refl m)
times_own m (x ∷ xs) ys = omega (arith, times_own m xs ys)

module _ (rt : Runtime) where
  pub record Inv (c : Cluster) : Type 0 where
    pub conserved : IsConserved c
    pub ledger : All (IsProcessed rt c.stored) c.ledger
    pub memory : (i : ℕ) → All (IsProcessed rt c.stored) (c.memory i)
    pub done : All (IsReported rt c.ledger) c.done
    pub dead : All (IsCopied c.copies) c.dead
    pub copies : All (IsDoomed rt c.stored) c.copies

  IsProcessed-more :
      (m : Bytes) (stored : List Bytes) (key : Text)
      → IsProcessed rt stored key
      → IsProcessed rt (m ∷ stored) key
  IsProcessed-more m stored key p = record {
    content = p.content;
    msg = p.msg;
    world = p.world;
    body = p.body;
    is_stored = omega (arith, p.is_stored);
    same = p.same;
    decoded = p.decoded;
    of_key = p.of_key;
    intact = p.intact;
  }

  IsDoomed-more :
      (m : Bytes) (stored : List Bytes) (letter : DeadLetter)
      → IsDoomed rt stored letter
      → IsDoomed rt (m ∷ stored) letter
  IsDoomed-more m stored letter d = record {
    world = d.world;
    same = d.same;
    delivery = d.delivery;
    own = d.own;
    is_stored = omega (arith, d.is_stored);
    refused = d.refused;
  }

  pub All-IsDoomed-more :
      (m : Bytes) (stored : List Bytes) (letters : List DeadLetter)
      → All (IsDoomed rt stored) letters
      → All (IsDoomed rt (m ∷ stored)) letters
  All-IsDoomed-more m stored =
      All_map (IsDoomed rt stored) (IsDoomed rt (m ∷ stored)) (IsDoomed-more m stored)

  pub All-IsProcessed-more :
      (m : Bytes) (stored : List Bytes) (keys : List Text)
      → All (IsProcessed rt stored) keys
      → All (IsProcessed rt (m ∷ stored)) keys
  All-IsProcessed-more m stored =
      All_map (IsProcessed rt stored) (IsProcessed rt (m ∷ stored)) (IsProcessed-more m stored)

  IsReported-more :
      (xs ledger : List Text) (m : Bytes) → IsReported rt ledger m → IsReported rt (xs ++ ledger) m
  IsReported-more xs ledger m (msg, decoded, h) =
      (msg, decoded, has_key-more (idempotency_key (message msg) false) xs ledger h)

  IsCopied-more :
      (xs copies : List DeadLetter) (m : Bytes) → IsCopied copies m → IsCopied (xs ++ copies) m
  IsCopied-more [] copies m h = h
  IsCopied-more (x ∷ xs) copies m h = inr (IsCopied-more xs copies m h)

  pub memory-set :
      (stored : List Bytes) (c : ℕ → List Text) (now : List Text) (j : ℕ) (is_own : Bool)
      → All (IsProcessed rt stored) now
      → All (IsProcessed rt stored) (c j)
      → All (IsProcessed rt stored) (if is_own then now else c j)
  memory-set stored c now j true h k = h
  memory-set stored c now j false h k = k

  pub after_turn-Inv :
      (c : Cluster) (reached : Bool) (i : ℕ) (t : Consumer)
      → IsEffect rt c.stored reached t
      → Inv c
      → Inv (after_turn reached i t c)
  after_turn-Inv c reached i t e v = record {
    conserved = v.conserved;
    ledger = All-append (IsProcessed rt c.stored) (heard reached t.log) c.ledger e.told v.ledger;
    memory = λ j. memory-set c.stored c.memory t.seen j (eqb i j) e.memory (v.memory j);
    done =
        All_map (IsReported rt c.ledger) (IsReported rt (heard reached t.log ++ c.ledger))
          (IsReported-more (heard reached t.log) c.ledger) c.done v.done;
    dead =
        All_map (IsCopied c.copies) (IsCopied (copied reached t.log ++ c.copies))
          (IsCopied-more (copied reached t.log) c.copies) c.dead v.dead;
    copies = All-append (IsDoomed rt c.stored) (copied reached t.log) c.copies e.copies v.copies;
  }
