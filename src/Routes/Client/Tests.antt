-- ===== src/Routes/Client/Tests.antt =====
-- A listener that answers, and one that does not.
use ankusa.Prelude.{◌≡◌, ◌↔◌, refl, true, ok, err, some, none, codes, text_eq}
use ankusa.Json.{Json, null, str, get}
use ankusa.Http.{Answer, Outcome, failed, answered, Gateway, Request}
use ankusa.Http
use ankusa.Routes.Errors.{routes_unavailable, retryable}
use ankusa.Routes.Client.{
  by_id, assert_route_id, read_outcome, rejected, create_route, route_request,
}
use ankusa.Routes.Client.Laws.{IsRouteId, IsTransient, by_id_retryable_iff}

unfoldable client : Unit {0}
unfolding by_id assert_route_id read_outcome rejected text_eq get
client = tt

abbrev created : Answer Json
created = record { content = some null; error = none; status = 201 }

abbrev silent : Gateway Json
silent r = failed

get_route-silent : (by_id Http.get none silent (str (codes "r1"))).0 ≡ err routes_unavailable
unfolding client
get_route-silent = refl

create_route-created : (create_route (λ r. answered created) null).0 ≡ ok (some null)
unfolding client
create_route-created = refl

by_id_retryable_iff_example : (retryable routes_unavailable ≡ true) ↔ (
    (u : IsRouteId (str (codes "r1"))) × IsTransient (silent (route_request Http.get u.text none)))
by_id_retryable_iff_example =
    by_id_retryable_iff Http.get none silent (str (codes "r1")) routes_unavailable get_route-silent
