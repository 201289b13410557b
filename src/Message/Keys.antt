-- ===== src/Message/Keys.antt =====
-- `idempotencyKey` and `isTrusted` of message/index.ts, on a message or on a delivery's headers.
mod Tests
pub mod Laws
use ankusa.Prelude.{
  Bool, true, false, not, ◌&&◌, Option, none, some, [], ◌∷◌, ◌++◌, Text, codes, text_eq,
  if◌then◌else◌,
}
use ankusa.Message.Fields.{Verification}
use ankusa.Message.Decode.{Message}
use ankusa.Webhook.Headers.{HookHeaders}

-- `Message | HookHeaders`
pub data Hook : Type 0 where
  message : Message → Hook
  delivery : HookHeaders → Hook

abbrev pub shipped_key : Hook → Option Text
shipped_key (message m) = m.idempotency_key
shipped_key (delivery h) = h.idempotency_key

abbrev pub tenant : Hook → Option Text
tenant (message m) = m.tenant_id
tenant (delivery h) = h.tenant

abbrev pub source_id : Hook → Text
source_id (message m) = m.source_id
source_id (delivery h) = h.source

abbrev pub dedupe_key : Hook → Option Text
dedupe_key (message m) = m.dedupe_key
dedupe_key (delivery h) = h.dedupe_key

abbrev pub replay_id : Hook → Option Text
replay_id (message m) = m.replay_id
replay_id (delivery h) = h.replay_id

abbrev pub id : Hook → Text
id (message m) = m.id
id (delivery h) = h.id

abbrev pub verification : Hook → Option Verification
verification (message m) = m.verification
verification (delivery h) = h.verification

-- `tenant ?? "default"`
abbrev pub tenant_or_default : Option Text → Text
tenant_or_default none = codes "default"
tenant_or_default (some t) = t

-- A non-empty dedupe key, scoped by tenant and source; else the id.
unfoldable pub computed_key : Option Text → Text → Option Text → Text → Text
computed_key tenant source none id = id
computed_key tenant source (some []) id = id
computed_key tenant source (some (c ∷ s)) id =
    tenant_or_default tenant ++ (codes ":" ++ (source ++ (codes ":" ++ (c ∷ s))))

-- The shipped key, if it is not empty; else the computed one.
unfoldable pub base_key : Option Text → Option Text → Text → Option Text → Text → Text
unfolding computed_key
base_key (some (c ∷ s)) tenant source dedupe id = c ∷ s
base_key _ tenant source dedupe id = computed_key tenant source dedupe id

-- `#replay:${replayId}`, if it is asked for and there is one.
unfoldable pub replay_suffix : Bool → Option Text → Text
replay_suffix true (some r) = codes "#replay:" ++ r
replay_suffix _ _ = []

unfoldable pub idempotency_key : Hook → Bool → Text
unfolding base_key replay_suffix
idempotency_key hook include_replay =
    base_key (shipped_key hook) (tenant hook) (source_id hook) (dedupe_key hook) (id hook)
    ++ replay_suffix include_replay (replay_id hook)

abbrev trusted : Option Verification → Bool
trusted none = false
trusted (some v) = text_eq v.status (codes "ok") && not v.flagged

unfoldable pub is_trusted : Hook → Bool
is_trusted hook = trusted (verification hook)
