-- ===== src/Admin/Client/Laws.antt =====
-- How the operator client tells its errors apart.
use ankusa.Prelude.{
  ℕ, true, ◌≤◌, ◌<◌, ◌≡◌, ◌↔◌, ◌⊎◌, refl, none, some, Option, Text, codes, text_eq_sound,
  text_eq_refl, arith, ap, sym, ◌∙◌, err,
}
use ankusa.Json.{Json, str, obj, Props, get}
use ankusa.Http.{Answer, Outcome, failed, answered}
use ankusa.Admin.Errors.{AdminError, role_not_enabled, retryable}
use ankusa.Admin.Client.{read_answer, read_outcome, error_props, says}

-- The node is to be asked again: no answer, or one that is neither a 2xx nor a 4xx.
abbrev pub IsTransient : {D : Type 0} → Outcome D → Type 0
IsTransient failed = Unit
IsTransient (answered a) =
    ((a.status < 200) ⊎ (300 ≤ a.status)) × ((a.status < 400) ⊎ (500 ≤ a.status))

says_sound : (o : Option Json) (t : Text) → says o t ≡ true → o ≡ some (str t)
says_sound (some (str s)) t h = ap (λ x. some (str x)) (text_eq_sound s t h)
says_sound none t h = absurd (ground arith)
says_sound (some _) t h = absurd (ground arith)

-- Only an object says anything.
said_by :
    (o : Option Json) (v : Json)
    → get "error" (error_props o) ≡ some v
    → (e : Props) × (o ≡ some (obj e)) × (error_props o ≡ e)
unfolding get
said_by (some (obj e)) v h = (e, refl, refl)
said_by none v h = absurd (ground arith)
said_by (some _) v h = absurd (ground arith)

module _ {D : Type 0} where
  -- An error is to be retried exactly when the outcome of the request is transient.
  admin_retryable_iff :
      (o : Outcome D) (e : AdminError)
      → read_outcome o ≡ err e
      → (retryable e ≡ true) ↔ IsTransient o
  unfolding read_outcome
  admin_retryable_iff failed e h = (λ t. tt, λ t. ground arith)
  admin_retryable_iff (answered a) e h = (λ t. ground arith, λ t. ground arith)

  role_lacking :
      (status : ℕ) (error : Option Json) (content : Option D) (role : Option Json)
      → read_answer status error content ≡ err (role_not_enabled role)
      → (status ≡ 409)
        × (says (get "error" (error_props error)) (codes "role_not_enabled") ≡ true)
        × (get "role" (error_props error) ≡ role)
  unfolding read_answer
  role_lacking status error content role h = ground arith

  -- The node lacks a role exactly when it answers a 409 whose body is an object that says so; the
  -- error has the role of that body.
  role_not_enabled_iff :
      (a : Answer D) (role : Option Json)
      → (read_outcome (answered a) ≡ err (role_not_enabled role)) ↔ (
          (a.status ≡ 409)
          × (e : Props) × (a.error ≡ some (obj e))
          × (get "error" e ≡ some (str (codes "role_not_enabled")))
          × (get "role" e ≡ role))
  unfolding read_outcome
  role_not_enabled_iff a role = (
    λ h.
        let (status, named, of) = role_lacking a.status a.error a.content role h in
        let says_so =
          says_sound (get "error" (error_props a.error)) (codes "role_not_enabled") named in
        let (e, body, props) = said_by a.error (str (codes "role_not_enabled")) says_so in
        (status, e, body, ap (get "error") (sym props) ∙ says_so, ap (get "role") (sym props) ∙ of),
    λ (status, e, body, says_so, of).
        rw (body, says_so, of, status, text_eq_refl (codes "role_not_enabled")),
  )
