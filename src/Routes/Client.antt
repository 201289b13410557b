-- ===== src/Routes/Client.antt =====
-- routes/client.ts: the requests of the route-management client, and what it makes of their answers.
pub mod Laws
mod Tests
use ankusa.Prelude.{
  ℕ, Bool, ◌&&◌, ◌||◌, not, Option, none, some, [], Text, codes, leb, ltb, eqb, text_eq,
  if◌then◌else◌, Result, ok, err,
}
use ankusa.Json.{Json, null, str, obj, Props, end, prop, get}
use ankusa.Http.Options.{Config, ClientOptions, gateway_of}
use ankusa.Http.{
  Method, post, put, patch, delete, Request, Answer, Outcome, failed, answered, Gateway, Call, lift,
  request, ◌>>=◌,
}
use ankusa.Http
use ankusa.Routes.Errors.{
  Rejection, RoutesError, route_not_found, invalid_route_id, routes_rejected, routes_unavailable,
}

-- `value ?? null`
abbrev pub not_null : Option Json → Option Json
not_null (some null) = none
not_null o = o

-- `rejected(status, body)`: only an object tells more than its status.
unfoldable pub rejected : ℕ → Option Json → RoutesError
rejected status (some (obj e)) = routes_rejected status (record {
  code = get "error" e;
  field = get "field" e;
  message = get "message" e;
  conflicting_id = get "conflicting_id" e;
  max_routes = get "max_routes" e;
  scope = not_null (get "scope" e);
})
rejected status _ = routes_rejected status (record {
  code = none;
  field = none;
  message = none;
  conflicting_id = none;
  max_routes = none;
  scope = none;
})

-- What `request` makes of an answer; the data is passed on as it is.
unfoldable pub read_answer : Answer Json → Result RoutesError (Option Json)
read_answer a =
    if leb 200 a.status && ltb a.status 300
    then ok a.content
    else if eqb a.status 404
    then err route_not_found
    else if leb 400 a.status && ltb a.status 500
    then err (rejected a.status a.error)
    else err routes_unavailable

unfoldable pub read_outcome : Outcome Json → Result RoutesError (Option Json)
unfolding read_answer
read_outcome failed = err routes_unavailable
read_outcome (answered a) = read_answer a

-- `typeof id !== "string" || INVALID_ROUTE_IDS[id] === true`
unfoldable pub assert_route_id : Json → Result RoutesError Text
assert_route_id (str id) =
    if text_eq id [] || text_eq id (codes ".") || text_eq id (codes "..")
    then err (invalid_route_id (str id))
    else ok id
assert_route_id id = err (invalid_route_id id)

-- A request to the collection, and one to a route.
abbrev pub plain : Method → Props → Option Json → Request
plain method query body = record {
  method = method;
  template = "/admin/routes";
  path = end;
  query = query;
  body = body;
}

abbrev pub route_request : Method → Text → Option Json → Request
route_request method id body = record {
  method = method;
  template = "/admin/routes/{id}";
  path = prop "id" (str id) end;
  query = end;
  body = body;
}

-- The id is asserted before the request.
unfoldable pub by_id : Method → Option Json → Gateway Json → Json → Call RoutesError (Option Json)
unfolding assert_route_id read_outcome
by_id method body gateway id = do
  checked ← lift (assert_route_id id)
  request gateway (route_request method checked body) read_outcome

abbrev pub get_route : Gateway Json → Json → Call RoutesError (Option Json)
get_route = by_id Http.get none

abbrev pub replace_route : Gateway Json → Json → Json → Call RoutesError (Option Json)
replace_route gateway id input = by_id put (some input) gateway id

abbrev pub update_route : Gateway Json → Json → Json → Call RoutesError (Option Json)
update_route gateway id change = by_id patch (some change) gateway id

abbrev pub delete_route : Gateway Json → Json → Call RoutesError (Option Json)
delete_route = by_id delete none

-- `params` is `end` where it is left out.
abbrev pub list_routes : Gateway Json → Props → Call RoutesError (Option Json)
list_routes gateway params = request gateway (plain Http.get params none) read_outcome

abbrev pub create_route : Gateway Json → Json → Call RoutesError (Option Json)
create_route gateway input = request gateway (plain post end (some input)) read_outcome

abbrev pub ip_rules_request : Method → Option Json → Request
ip_rules_request method body = record {
  method = method;
  template = "/admin/ip-rules";
  path = end;
  query = end;
  body = body;
}

abbrev pub get_ip_rules : Gateway Json → Call RoutesError (Option Json)
get_ip_rules gateway = request gateway (ip_rules_request Http.get none) read_outcome

abbrev pub put_ip_rules : Gateway Json → Json → Call RoutesError (Option Json)
put_ip_rules gateway rules = request gateway (ip_rules_request put (some rules)) read_outcome

abbrev pub test_route : Gateway Json → Json → Call RoutesError (Option Json)
test_route gateway asked =
    request gateway
      (record {
        method = post;
        template = "/admin/routes/test";
        path = end;
        query = end;
        body = some asked;
      })
      read_outcome

-- Anything but a `200` with a body is an unavailable gateway.
unfoldable pub read_health : Outcome Json → Result RoutesError Json
read_health failed = err routes_unavailable
read_health (answered a) = elim a.content [
  | none ↦ err routes_unavailable
  | some content ↦ if eqb a.status 200 then ok content else err routes_unavailable
]

abbrev pub health : Gateway Json → Call RoutesError Json
health gateway =
    request gateway
      (record { method = Http.get; template = "/health"; path = end; query = end; body = none })
      read_health

-- What `createRoutesClient` returns.
pub record RoutesClient : Type 0 where
  pub health : Call RoutesError Json
  pub list_routes : Props → Call RoutesError (Option Json)
  pub create_route : Json → Call RoutesError (Option Json)
  pub get_route : Json → Call RoutesError (Option Json)
  pub replace_route : Json → Json → Call RoutesError (Option Json)
  pub update_route : Json → Json → Call RoutesError (Option Json)
  pub delete_route : Json → Call RoutesError (Option Json)
  pub get_ip_rules : Call RoutesError (Option Json)
  pub put_ip_rules : Json → Call RoutesError (Option Json)
  pub test_route : Json → Call RoutesError (Option Json)

-- The methods, on the gateway of `createClient`.
unfoldable pub create_routes_client : Gateway Json → RoutesClient
unfolding by_id read_outcome read_health
create_routes_client gateway = record {
  health = health gateway;
  list_routes = list_routes gateway;
  create_route = create_route gateway;
  get_route = get_route gateway;
  replace_route = replace_route gateway;
  update_route = update_route gateway;
  delete_route = delete_route gateway;
  get_ip_rules = get_ip_rules gateway;
  put_ip_rules = put_ip_rules gateway;
  test_route = test_route gateway;
}

abbrev pub RoutesClientOptions : (H F : Type 0) → Type 0
RoutesClientOptions H F = ClientOptions H F

-- `createRoutesClient`, on the `createClient` that it calls.
abbrev pub routes_client :
    {H F : Type 0}
    → (create_client : (D : Type 0) → Config H F → Gateway D) → RoutesClientOptions H F
    → RoutesClient
routes_client create_client options = create_routes_client (gateway_of (create_client Json) options)
