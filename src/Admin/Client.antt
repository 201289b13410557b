-- ===== src/Admin/Client.antt =====
-- admin/client.ts: the requests of the operator client, and what it makes of their answers.
pub mod Laws
mod Tests
use ankusa.Prelude.{
  ℕ, String, Bool, true, false, ◌&&◌, Option, none, some, Text, codes, leb, ltb, eqb, text_eq,
  if◌then◌else◌, Result, ok, err,
}
use ankusa.Json.{Json, null, str, obj, Props, end, prop, get}
use ankusa.Http.Options.{Config, ClientOptions, gateway_of}
use ankusa.Http.{
  Method, post, patch, Request, Answer, Outcome, failed, answered, Gateway, Call, request,
}
use ankusa.Http
use ankusa.Admin.Errors.{AdminError, role_not_enabled, admin_rejected, admin_unavailable}

-- `value ?? null`
abbrev pub or_null : Option Json → Option Json
or_null (some null) = none
or_null o = o

-- `body && typeof body === "object" ? body : {}`
abbrev pub error_props : Option Json → Props
error_props (some (obj e)) = e
error_props _ = end

-- `value === text`
abbrev pub says : Option Json → Text → Bool
says (some (str t)) u = text_eq t u
says _ u = false

-- What `request` makes of an answer; the data is passed on as it is.
unfoldable pub read_answer {ℓ} :
    {D : Type ℓ} → ℕ → Option Json → Option D → Result AdminError (Option D)
read_answer status error content =
    if leb 200 status && ltb status 300
    then ok content
    else if eqb status 409 && says (get "error" (error_props error)) (codes "role_not_enabled")
    then err (role_not_enabled (get "role" (error_props error)))
    else if leb 400 status && ltb status 500
    then err (
        admin_rejected status (get "error" (error_props error))
          (or_null (get "scope" (error_props error))))
    else err admin_unavailable

unfoldable pub read_outcome : {D : Type 0} → Outcome D → Result AdminError (Option D)
unfolding read_answer
read_outcome failed = err admin_unavailable
read_outcome (answered a) = read_answer a.status a.error a.content

-- A request to a path of the listener, and one to a replay job.
abbrev pub plain : Method → String → Props → Option Json → Request
plain method template query body = record {
  method = method;
  template = template;
  path = end;
  query = query;
  body = body;
}

abbrev pub replay_request : Method → Text → Option Json → Request
replay_request method id body = record {
  method = method;
  template = "/v1/replays/{id}";
  path = prop "id" (str id) end;
  query = end;
  body = body;
}

-- The scrape is read as text.
abbrev pub metrics : Gateway Text → Call AdminError (Option Text)
metrics gateway = request gateway (plain Http.get "/metrics" end none) read_outcome

abbrev pub config : Gateway Json → Call AdminError (Option Json)
config gateway = request gateway (plain Http.get "/v1/config" end none) read_outcome

-- `params` is `end` where it is left out, here and below.
abbrev pub list_dead_letters : Gateway Json → Props → Call AdminError (Option Json)
list_dead_letters gateway params =
    request gateway (plain Http.get "/v1/dlq" params none) read_outcome

abbrev pub create_replay : Gateway Json → Json → Call AdminError (Option Json)
create_replay gateway job = request gateway (plain post "/v1/replays" end (some job)) read_outcome

abbrev pub get_replay : Gateway Json → Text → Call AdminError (Option Json)
get_replay gateway id = request gateway (replay_request Http.get id none) read_outcome

abbrev pub list_replays : Gateway Json → Call AdminError (Option Json)
list_replays gateway = request gateway (plain Http.get "/v1/replays" end none) read_outcome

abbrev pub update_replay : Gateway Json → Text → Json → Call AdminError (Option Json)
update_replay gateway id change =
    request gateway (replay_request patch id (some change)) read_outcome

abbrev pub list_quarantined : Gateway Json → Props → Call AdminError (Option Json)
list_quarantined gateway params =
    request gateway (plain Http.get "/v1/quarantine" params none) read_outcome

abbrev pub list_audit : Gateway Json → Props → Call AdminError (Option Json)
list_audit gateway params = request gateway (plain Http.get "/v1/audit" params none) read_outcome

-- Anything but a `200` with a body is an unavailable gateway.
unfoldable pub read_health : Outcome Json → Result AdminError Json
read_health failed = err admin_unavailable
read_health (answered a) = elim a.content [
  | none ↦ err admin_unavailable
  | some content ↦ if eqb a.status 200 then ok content else err admin_unavailable
]

abbrev pub health : Gateway Json → Call AdminError Json
health gateway = request gateway (plain Http.get "/health" end none) read_health

-- What `createAdminClient` returns.
pub record AdminClient : Type 0 where
  pub health : Call AdminError Json
  pub metrics : Call AdminError (Option Text)
  pub config : Call AdminError (Option Json)
  pub list_dead_letters : Props → Call AdminError (Option Json)
  pub create_replay : Json → Call AdminError (Option Json)
  pub get_replay : Text → Call AdminError (Option Json)
  pub list_replays : Call AdminError (Option Json)
  pub update_replay : Text → Json → Call AdminError (Option Json)
  pub list_quarantined : Props → Call AdminError (Option Json)
  pub list_audit : Props → Call AdminError (Option Json)

-- The gateways of `createClient`; `scrape` is that of the answers that
-- are read as text.
unfoldable pub create_admin_client : Gateway Json → (scrape : Gateway Text) → AdminClient
unfolding read_outcome read_health
create_admin_client gateway scrape = record {
  health = health gateway;
  metrics = metrics scrape;
  config = config gateway;
  list_dead_letters = list_dead_letters gateway;
  create_replay = create_replay gateway;
  get_replay = get_replay gateway;
  list_replays = list_replays gateway;
  update_replay = update_replay gateway;
  list_quarantined = list_quarantined gateway;
  list_audit = list_audit gateway;
}

abbrev pub AdminClientOptions : (H F : Type 0) → Type 0
AdminClientOptions H F = ClientOptions H F

-- `createAdminClient`, on the `createClient` that it calls.
abbrev pub admin_client :
    {H F : Type 0}
    → (create_client : (D : Type 0) → Config H F → Gateway D) → AdminClientOptions H F
    → AdminClient
admin_client create_client options =
    create_admin_client (gateway_of (create_client Json) options)
      (gateway_of (create_client Text) options)
