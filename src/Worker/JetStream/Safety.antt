-- ===== src/Worker/JetStream/Safety.antt =====
-- What holds of the consumers and their streams in every reachable state.
mod Tests
use ankusa.Prelude.{
  Any, inl, inr, ℕ, ◌+◌, ◌≤◌, ◌≡◌, ◌||◌, refl, sym, ap, ◌∙◌, subst, arith, Bool, true, false, List,
  [], ◌∷◌, ◌++◌, Text, Bytes, times, times-append, times_middle, All, All-append, All_map, text_eq,
  text_eq_refl, eqb, ok, if◌then◌else◌,
}
use ankusa.Runtime.{Runtime, bytes}
use ankusa.Message.Decode.{Message, decode_message}
use ankusa.Message.Keys.{message, idempotency_key}
use ankusa.Worker.JetStream.{
  Delivery, Failure, acked, termed, DeadLetter, Event, Consumer, World, has_key,
}
use ankusa.Worker.JetStream.Effects.{
  IsProcessed, IsDoomed, IsEffect, turn-IsEffect, turn-acked, turn-termed,
}
use ankusa.Worker.JetStream.Cluster.{
  Cluster, heard, copied, turn, after_turn, Step, publish, acknowledge, terminate, leave, restart,
  Reach, here, later,
}
use ankusa.Worker.JetStream.Invariant.{
  IsConserved, IsReported, IsCopied, has_key-first, times_own, Inv, All-IsProcessed-more,
  All-IsDoomed-more, memory-set, after_turn-Inv,
}

module _ (rt : Runtime) where
  -- A message in the stream was stored.
  is_stored :
      (c : Cluster) (m : Bytes) (xs ys : List Bytes)
      → c.stream ≡ xs ++ (m ∷ ys)
      → IsConserved c
      → 1 ≤ times m c.stored
  is_stored c m xs ys from conserved =
      omega (arith, conserved m, ap (times m) from, times_own m xs ys)

  -- The turn of replica `i` is over, and its message is gone from the stream.
  acknowledge-Inv :
      (c : Cluster) (i : ℕ) (w : World) (m : Delivery) (xs ys : List Bytes) (reached : Bool)
      (before : List Event)
      → w.rt ≡ rt
      → c.stream ≡ xs ++ (m.content ∷ ys)
      → (turn w m (c.memory i)).log ≡ acked ∷ before
      → Inv rt c
      → Inv rt (record (after_turn reached i (turn w m (c.memory i)) c) {
        stream = xs ++ ys;
        done = m.content ∷ c.done;
      })
  acknowledge-Inv c i w m xs ys reached before same from log v =
      let t : Consumer = turn w m (c.memory i) in
      let stored = is_stored c m.content xs ys from v.conserved in
      let u : Inv rt (after_turn reached i t c) =
        after_turn-Inv rt c reached i t
          (turn-IsEffect rt c.stored w same m stored (c.memory i) (v.memory i) reached) v in
      let (msg, decoded, key) =
        turn-acked rt c.stored w same m stored (c.memory i) (v.memory i) before reached log in
      record {
        conserved =
            λ x. omega (arith, v.conserved x, ap (times x) from, times_middle x m.content xs ys);
        ledger = u.ledger;
        memory = u.memory;
        done = (
          (
            msg,
            decoded,
            has_key-first (idempotency_key (message msg) false) (heard reached t.log) c.ledger key,
          ),
          u.done,
        );
        dead = u.dead;
        copies = u.copies;
      }

  terminate-Inv :
      (c : Cluster) (i : ℕ) (w : World) (m : Delivery) (xs ys : List Bytes) (reached : Bool)
      (f : Failure) (before : List Event)
      → w.rt ≡ rt
      → c.stream ≡ xs ++ (m.content ∷ ys)
      → (turn w m (c.memory i)).log ≡ termed f ∷ before
      → Inv rt c
      → Inv rt (record (after_turn reached i (turn w m (c.memory i)) c) {
        stream = xs ++ ys;
        dead = m.content ∷ c.dead;
      })
  terminate-Inv c i w m xs ys reached f before same from log v =
      let t : Consumer = turn w m (c.memory i) in
      let stored = is_stored c m.content xs ys from v.conserved in
      let u : Inv rt (after_turn reached i t c) =
        after_turn-Inv rt c reached i t
          (turn-IsEffect rt c.stored w same m stored (c.memory i) (v.memory i) reached) v in
      let (letter, copy, own) =
        turn-termed rt c.stored w same m stored (c.memory i) (v.memory i) f before reached log in
      record {
        conserved =
            λ x. omega (arith, v.conserved x, ap (times x) from, times_middle x m.content xs ys);
        ledger = u.ledger;
        memory = u.memory;
        done = u.done;
        dead = (subst (λ x. IsCopied (x ++ c.copies) m.content) (sym copy) (inl own), u.dead);
        copies = u.copies;
      }

  Step-Inv : (c d : Cluster) → Step rt c d → Inv rt c → Inv rt d
  Step-Inv c d (publish m) v = record {
    conserved = λ x. omega (arith, v.conserved x);
    ledger = All-IsProcessed-more rt m c.stored c.ledger v.ledger;
    memory = λ i. All-IsProcessed-more rt m c.stored (c.memory i) (v.memory i);
    done = v.done;
    dead = v.dead;
    copies = All-IsDoomed-more rt m c.stored c.copies v.copies;
  }
  Step-Inv c d (acknowledge i w m xs ys reached before same from log) v =
      acknowledge-Inv c i w m xs ys reached before same from log v
  Step-Inv c d (terminate i w m xs ys reached f before same from log) v =
      terminate-Inv c i w m xs ys reached f before same from log v
  Step-Inv c d (leave i w m reached same stored) v =
      after_turn-Inv rt c reached i (turn w m (c.memory i))
        (turn-IsEffect rt c.stored w same m stored (c.memory i) (v.memory i) reached) v
  Step-Inv c d (restart i) v = record {
    conserved = v.conserved;
    ledger = v.ledger;
    memory = λ j. memory-set rt c.stored c.memory [] j (eqb i j) tt (v.memory j);
    done = v.done;
    dead = v.dead;
    copies = v.copies;
  }

  Reach-Inv : (c : Cluster) → Reach rt c → Inv rt c
  Reach-Inv c here = record {
    conserved = λ m. refl;
    ledger = tt;
    memory = λ i. tt;
    done = tt;
    dead = tt;
    copies = tt;
  }
  Reach-Inv c (later {c = b} r step) = Step-Inv b c step (Reach-Inv b r)

  -- In every reachable state of the replicas, whatever they and the gateway do, whichever answers
  -- and settlements are lost, however often a message is delivered, at however many replicas at
  -- once, and however often they start again: each message that was stored is in the stream, or was
  -- acknowledged or terminated, and as often as it was stored; the panel's ledger has the key of
  -- each acknowledged one, and has only keys of stored messages whose body some replica had, checked
  -- against its digest if there is one; each terminated one was copied to the dead-letter stream;
  -- and each copy has a stored message that does not decode, or whose body was not to be had and no
  -- retry could help, and its reason is that failure.
  pub cluster_safe :
      (c : Cluster)
      → Reach rt c
      → IsConserved c
        × All (IsReported rt c.ledger) c.done
        × All (IsProcessed rt c.stored) c.ledger
        × All (IsCopied c.copies) c.dead
        × All (IsDoomed rt c.stored) c.copies
  cluster_safe c r = let v = Reach-Inv c r in (v.conserved, v.done, v.ledger, v.dead, v.copies)
