-- ===== src/Message/Keys/Tests.antt =====
-- Keys of concrete hooks.
use ankusa.Prelude.{text_eq, ◌≡◌, refl, true, false, some, codes, arith}
use ankusa.Fixtures.{inline_message}
use ankusa.Message.Keys.{
  Hook, message, tenant, source_id, tenant_or_default, idempotency_key, is_trusted,
}
use ankusa.Message.Keys.Laws.{IsScoped, idempotency_key-injective}

abbrev scoped : Hook
scoped = message (record inline_message { dedupe_key = some (codes "evt:1") })

scoped-IsScoped : IsScoped scoped (codes "evt:1")
scoped-IsScoped = record {
  unshipped = refl;
  deduped = refl;
  not_empty = cc;
  tenant_plain = omega arith;
  source_plain = omega arith;
}

scoped_key : idempotency_key scoped false ≡ codes "default:demo:evt:1"
unfolding idempotency_key
scoped_key = refl

idempotency_key-injective_example :
    (tenant_or_default (tenant scoped) ≡ tenant_or_default (tenant scoped))
    × (source_id scoped ≡ source_id scoped)
    × (codes "evt:1" ≡ codes "evt:1")
idempotency_key-injective_example =
    idempotency_key-injective scoped scoped (codes "evt:1") (codes "evt:1") scoped-IsScoped
      scoped-IsScoped refl

abbrev verified : Hook
verified = message (record inline_message {
  verification = some (record { status = codes "ok"; flagged = false });
})

is_trusted_verified : is_trusted verified ≡ true
unfolding is_trusted text_eq
is_trusted_verified = refl
