-- ===== src/Prelude/Runs.antt =====
-- Steps of a relation, one after the other.
module _ {ℓ κ} {A : Type ℓ} (S : A → A → Type κ) where
  pub data Run : A → A → Type (ℓ ⊔ κ) where
    stop : {a : A} → Run a a
    go : {a b c : A} → S a b → Run b c → Run a c

  pub Run-append : (a b c : A) → Run a b → Run b c → Run a c
  Run-append a b c stop r = r
  Run-append a b c (go s rest) r = go s (Run-append _ b c rest r)

  -- What each step keeps, the run keeps.
  pub Run-keeps {μ} :
      (P : A → Type μ) → ((a b : A) → S a b → P a → P b) → (a b : A) → Run a b → P a → P b
  Run-keeps P keeps a b stop p = p
  Run-keeps P keeps a b (go s rest) p = Run-keeps P keeps _ b rest (keeps a _ s p)
