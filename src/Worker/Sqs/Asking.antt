-- ===== src/Worker/Sqs/Asking.antt =====
-- A batch and its log, by what SQS answers to what it is asked.
use ankusa.Prelude.{
  ℕ, zero, suc, ◌^◌, ◌≤◌, Bool, true, false, ◌≡◌, inl, inr, refl, subst, arith, Option, List, ◌∷◌,
  Text, text_eq, text_eq_sound, Bool-cases,
}
use ankusa.Json.{Json}
use ankusa.Worker.Raw.{Failure}
use ankusa.Worker.Sqs.{SqsMessage, Command, delete_message, send_message, asked, Batch, World}
use ankusa.Worker.Sqs.Run.{
  group_of, contains, backoff_seconds, back_off, answered, remove, remove_sent, is_permanent,
}
use ankusa.Worker.Sqs.Log.{backed, ids, IsDone, IsAskable, IsLog}

pow_pos : (n : ℕ) → 1 ≤ 2 ^ n
pow_pos zero = omega arith
pow_pos (suc n) = omega (arith, pow_pos n)

module _ (w : World) (before : List (Option Json)) where
  pub record IsBatch (s : Batch) : Type 0 where
    pub sound : IsLog w before s.log
    pub known : s.processed ≡ ids w before s.log
    pub blocking : (g : Text) → contains g s.blocked ≡ false → contains g (backed s.log) ≡ false

  -- Asking keeps a batch, whatever SQS answers.
  pub answered_keeps :
      (c : Command) (s : Batch) (b : Bool)
      → IsBatch s
      → IsAskable w before c s.log
      → ((g : Text)
          → contains g s.blocked ≡ false
          → contains g (backed (asked c b ∷ s.log)) ≡ false)
      → IsBatch (answered c s b).0
  answered_keeps c s true good able still = record {
    sound = (able, good.sound);
    known = good.known;
    blocking = still;
  }
  answered_keeps c s false good able still = record {
    sound = (able, good.sound);
    known = good.known;
    blocking = still;
  }

  pub remove_keeps :
      (m : SqsMessage) (s : Batch)
      → IsBatch s
      → contains (group_of m) (backed s.log) ≡ false
      → IsDone w before m s.log
      → IsBatch (remove w m s).0
  unfolding remove
  remove_keeps m s good free done =
      answered_keeps (delete_message m) s (w.sqs s.log (delete_message m)) good (free, done)
        good.blocking

  backoff_seconds_bounds : (n : ℕ) → (15 ≤ backoff_seconds n) × (backoff_seconds n ≤ 900)
  unfolding backoff_seconds
  backoff_seconds_bounds zero = (omega arith, omega arith)
  backoff_seconds_bounds (suc n) = (omega (arith, pow_pos n), omega arith)

  -- A group that is not blocked is another than a blocked one.
  pub still_free :
      (g h : Text) (blocked : List Text)
      → contains h blocked ≡ true
      → contains g blocked ≡ false
      → text_eq g h ≡ false
  still_free g h blocked held free = elim (Bool-cases (text_eq g h)) [
    | inl same ↦
        absurd
          (ground (arith, subst (λ x. contains x blocked ≡ false) (text_eq_sound g h same) free))
    | inr e ↦ e
  ]

  pub back_off_keeps :
      (m : SqsMessage) (s : Batch)
      → IsBatch s
      → contains (group_of m) s.blocked ≡ true
      → IsBatch (back_off w m s).0
  unfolding back_off
  back_off_keeps m s good held =
      answered_keeps _ s (w.sqs s.log _) good (backoff_seconds_bounds _)
        (λ g free. rw (still_free g (group_of m) s.blocked held free, good.blocking g free))

  pub remove_sent_keeps :
      (m : SqsMessage) (f : Failure) (s : Batch) (b : Bool)
      → IsBatch s
      → contains (group_of m) (backed s.log) ≡ false
      → is_permanent f ≡ true
      → IsBatch (remove_sent w m (answered (send_message m f) s b)).0
  remove_sent_keeps m f s true good free for_good =
      remove_keeps m _
        (answered_keeps (send_message m f) s true good (free, for_good) good.blocking) free
        (inr (inl (f, s.log, refl)))
  remove_sent_keeps m f s false good free for_good =
      answered_keeps (send_message m f) s false good (free, for_good) good.blocking
  -- What `attempt` keeps besides: it leaves no message to come back.
