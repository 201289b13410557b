-- ===== src/Http/Options.antt =====
-- What the clients of the SDK are made with: the options of `createClaimCheckClient`
-- (claim-check/client.ts), `createAdminClient` (admin/client.ts) and `createRoutesClient`
-- (routes/client.ts), which are the same, and what they ask of `createClient` of openapi-fetch.
use ankusa.Prelude.{ℕ, Option, none, some, Text, codes}
use ankusa.Http.{Gateway}

-- `HeadersInit` and the type of `fetch` are those of the platform.
pub record ClientOptions (H F : Type 0) : Type 0 where
  pub base_url : Text
  pub headers : Option H
  pub timeout_ms : Option ℕ
  pub fetch : Option F

-- What `createClient` is given, and the deadline of each request.
pub record Config (H F : Type 0) : Type 0 where
  pub base_url : Text
  pub headers : Option H
  pub fetch : Option F
  pub redirect : Text
  pub timeout_ms : ℕ

-- `timeoutMs ?? 10_000`
abbrev pub deadline : Option ℕ → ℕ
deadline none = 10000
deadline (some ms) = ms

module _ {H F : Type 0} where
  abbrev pub config_of : ClientOptions H F → Config H F
  config_of options = record {
    base_url = options.base_url;
    headers = options.headers;
    fetch = options.fetch;
    redirect = codes "manual";
    timeout_ms = deadline options.timeout_ms;
  }

  -- The options of a client with a base URL only.
  abbrev pub at_url : Text → ClientOptions H F
  at_url url = record { base_url = url; headers = none; timeout_ms = none; fetch = none }

  -- The gateway that a client asks; `create_client` is `createClient`, with `parseAs` as the type of the
  -- data.
  abbrev pub gateway_of :
      {D : Type 0} → (create_client : Config H F → Gateway D) → ClientOptions H F → Gateway D
  gateway_of create_client options = create_client (config_of options)
