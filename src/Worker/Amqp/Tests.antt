-- ===== src/Worker/Amqp/Tests.antt =====
-- A worker that is granted all, and one whose queue is refused.
use ankusa.Prelude.{◌≡◌, refl, Bool, true, false, none, [], ◌∷◌, codes}
use ankusa.Worker.Amqp.{
  Settings, settings, Ask, assert_queue, create_channel, assert_exchange, start,
}

abbrev preset : Settings
preset = settings (λ name. none) "ankusa-fleet-consumer"

abbrev is_no_queue : Ask → Bool
is_no_queue (assert_queue name) = false
is_no_queue _ = true

start_granted : (start (λ done a. true) preset 32).1 ≡ true
unfolding start
start_granted = refl

start_refused : start (λ done a. is_no_queue a) preset 32 ≡ (
  assert_queue (codes "ankusa-fleet-consumer")
      ∷ assert_exchange (codes "ankusa.events")
      ∷ create_channel
      ∷ [],
  false,
)
unfolding start
start_refused = refl
