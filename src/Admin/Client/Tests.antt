-- ===== src/Admin/Client/Tests.antt =====
-- A node without the role that a request needs, and one that is down.
use ankusa.Prelude.{◌≡◌, refl, err, some, none, codes, text_eq}
use ankusa.Json.{Json, str, obj, end, prop, get}
use ankusa.Http.{Answer, failed, answered}
use ankusa.Admin.Errors.{role_not_enabled, admin_unavailable}
use ankusa.Admin.Client.{read_outcome, get_replay}

abbrev lacking : Answer Json
lacking = record {
  content = none;
  error =
      some (
        obj (prop "error" (str (codes "role_not_enabled")) (prop "role" (str (codes "sink")) end)));
  status = 409;
}

get_replay-lacking :
    (get_replay (λ r. answered lacking) (codes "1")).0
    ≡ err (role_not_enabled (some (str (codes "sink"))))
unfolding read_outcome get text_eq
get_replay-lacking = refl

silent_error : read_outcome {D = Json} failed ≡ err admin_unavailable
unfolding read_outcome
silent_error = refl
