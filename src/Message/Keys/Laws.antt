-- ===== src/Message/Keys/Laws.antt =====
-- What consumers rely on when they dedupe by key, and when they trust a hook.
use ankusa.Prelude.{
  ℕ, ◌≡◌, ◌≢◌, ◌↔◌, ◌∙◌, refl, sym, subst, Bool, true, false, Option, none, some, [], ◌∷◌, ◌++◌,
  Text, codes, text_eq, text_eq_sound, All, arith, append-nil,
}
use mathlib.Core.List.{append_cancel_left}
use ankusa.Message.Fields.{Verification}
use ankusa.Message.Decode.{Message}
use ankusa.Message.Keys.{
  Hook, message, shipped_key, tenant, source_id, dedupe_key, id, verification, tenant_or_default,
  computed_key, base_key, idempotency_key, is_trusted, trusted,
}

abbrev pub Lacks : ℕ → Text → Type 0
Lacks c = All (λ x. x ≢ c)

-- Equal texts that are split at the first `c` have equal parts.
split_unique :
    (c : ℕ) (s t r q : Text) → Lacks c s → Lacks c t → s ++ c ∷ r ≡ t ++ c ∷ q → (s ≡ t) × (r ≡ q)
split_unique c [] [] r q hs ht e = (refl, cc)
split_unique c [] (y ∷ t) r q hs (hy, ht) e = absurd (hy (ground arith))
split_unique c (x ∷ s) [] r q (hx, hs) ht e = absurd (hx (ground arith))
split_unique c (x ∷ s) (y ∷ t) r q (hx, hs) (hy, ht) e =
    let (same, rest) = split_unique c s t r q hs ht (ground arith) in (ground arith, rest)

-- A hook of a node that ships no key, with a dedupe key, and with no colon in its tenant and source.
pub record IsScoped (h : Hook) (dedupe : Text) : Type 0 where
  pub unshipped : shipped_key h ≡ none
  pub deduped : dedupe_key h ≡ some dedupe
  pub not_empty : dedupe ≢ []
  pub tenant_plain : Lacks b':' (tenant_or_default (tenant h))
  pub source_plain : Lacks b':' (source_id h)

computed_key-cons :
    (tenant : Option Text) (source dedupe id : Text)
    → dedupe ≢ []
    → computed_key tenant source (some dedupe) id
      ≡ tenant_or_default tenant ++ (codes ":" ++ (source ++ (codes ":" ++ dedupe)))
unfolding computed_key
computed_key-cons tenant source [] id h = absurd (h refl)
computed_key-cons tenant source (c ∷ s) id h = refl

idempotency_key-IsScoped :
    (h : Hook) (d : Text)
    → IsScoped h d
    → idempotency_key h false
      ≡ tenant_or_default (tenant h) ++ (codes ":" ++ (source_id h ++ (codes ":" ++ d)))
unfolding idempotency_key
idempotency_key-IsScoped h d s =
    rw (s.unshipped, s.deduped, append-nil)
      (computed_key-cons (tenant h) (source_id h) d (id h) s.not_empty)

-- Two such hooks have one key only if they are of one tenant, source and dedupe key.
pub idempotency_key-injective :
    (h k : Hook) (d e : Text)
    → IsScoped h d
    → IsScoped k e
    → idempotency_key h false ≡ idempotency_key k false
    → (tenant_or_default (tenant h) ≡ tenant_or_default (tenant k))
      × (source_id h ≡ source_id k)
      × (d ≡ e)
idempotency_key-injective h k d e sh sk same =
    let spelled =
      sym (idempotency_key-IsScoped h d sh) ∙ (same ∙ idempotency_key-IsScoped k e sk) in
    let (tenants, rest) = split_unique b':' _ _ _ _ sh.tenant_plain sk.tenant_plain spelled in
    let (sources, dedupes) = split_unique b':' _ _ _ _ sh.source_plain sk.source_plain rest in
    (tenants, sources, dedupes)

append-ne_nil : (s t : Text) → s ≢ [] → s ++ t ≢ []
append-ne_nil [] t h = absurd (h refl)
append-ne_nil (c ∷ s) t h = cc

computed_key-ne_nil :
    (tenant : Option Text) (source : Text) (dedupe : Option Text) (id : Text)
    → id ≢ []
    → computed_key tenant source dedupe id ≢ []
unfolding computed_key
computed_key-ne_nil tenant source none id h = h
computed_key-ne_nil tenant source (some []) id h = h
computed_key-ne_nil none source (some (c ∷ s)) id h = cc
computed_key-ne_nil (some []) source (some (c ∷ s)) id h = cc
computed_key-ne_nil (some (a ∷ t)) source (some (c ∷ s)) id h = cc

base_key-ne_nil :
    (shipped tenant : Option Text) (source : Text) (dedupe : Option Text) (id : Text)
    → id ≢ []
    → base_key shipped tenant source dedupe id ≢ []
unfolding base_key
base_key-ne_nil none tenant source dedupe id h = computed_key-ne_nil tenant source dedupe id h
base_key-ne_nil (some []) tenant source dedupe id h = computed_key-ne_nil tenant source dedupe id h
base_key-ne_nil (some (c ∷ s)) tenant source dedupe id h = cc

-- A hook with an id has a key.
pub idempotency_key-ne_nil :
    (h : Hook) (include_replay : Bool) → id h ≢ [] → idempotency_key h include_replay ≢ []
unfolding idempotency_key
idempotency_key-ne_nil h include_replay e =
    append-ne_nil _ _
      (base_key-ne_nil (shipped_key h) (tenant h) (source_id h) (dedupe_key h) (id h) e)

-- Replays of one message share its key by default, and have keys of their own when replays are
-- included.
idempotency_key_replays :
    (m : Message) (r q : Text)
    → (idempotency_key (message (record m { replay_id = some r })) false
        ≡ idempotency_key (message m) false)
      × (idempotency_key (message (record m { replay_id = some r })) true
            ≡ idempotency_key (message (record m { replay_id = some q })) true
          → r ≡ q)
unfolding idempotency_key
idempotency_key_replays m r q =
    (refl, λ e. append_cancel_left (codes "#replay:") r q (append_cancel_left _ _ _ e))

trusted_iff :
    (o : Option Verification)
    → (trusted o ≡ true) ↔ (o ≡ some (record { status = codes "ok"; flagged = false }))
unfolding text_eq
trusted_iff none = (λ e. cc, λ e. cc)
trusted_iff (some v) = (
  λ e. ground (arith, text_eq_sound v.status (codes "ok")),
  λ e. subst (λ o. trusted o ≡ true) (sym e) refl,
)

-- A hook is trusted exactly when it was verified as "ok" and is not flagged.
pub is_trusted_iff :
    (h : Hook)
    → (is_trusted h ≡ true)
      ↔ (verification h ≡ some (record { status = codes "ok"; flagged = false }))
unfolding is_trusted
is_trusted_iff h = trusted_iff (verification h)
