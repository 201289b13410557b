-- ===== src/Routes/Client/Laws.antt =====
-- What the operations of the routes client send, and how they tell its errors apart.
use ankusa.Prelude.{
  ℕ, Bool, ◌||◌, if◌then◌else◌, subst, false, ◌≤◌, ◌<◌, ◌≡◌, ◌≢◌, ◌↔◌, ◌⊎◌, inl, inr, refl, true,
  none, some, Option, [], ◌∷◌, Text, codes, text_eq, text_eq_sound, text_eq_refl, arith, ok, err,
  Result-cases, Bool-cases,
}
use ankusa.Json.{Json, str}
use ankusa.Http.{Method, put, patch, delete, Answer, Outcome, failed, answered, Gateway, Call}
use ankusa.Http
use ankusa.Routes.Errors.{RoutesError, invalid_route_id, retryable}
use ankusa.Routes.Client.{
  read_outcome, rejected, assert_route_id, route_request, by_id, get_route, replace_route,
  update_route, delete_route,
}

-- The listener is to be asked again: no answer, or one that is neither a 2xx nor a 4xx.
abbrev pub IsTransient : Outcome Json → Type 0
IsTransient failed = Unit
IsTransient (answered a) =
    ((a.status < 200) ⊎ (300 ≤ a.status)) × ((a.status < 400) ⊎ (500 ≤ a.status))

-- An id that a URL parser leaves alone.
pub record IsRouteId (id : Json) : Type 0 where
  pub text : Text
  pub is_text : id ≡ str text
  pub nonempty : text ≢ []
  pub no_dot : text ≢ codes "."
  pub no_dots : text ≢ codes ".."

rejected_not_retryable :
    (status : ℕ) (body : Option Json) → retryable (rejected status body) ≡ false
unfolding rejected
rejected_not_retryable status body = ground arith

unrejected :
    (status : ℕ) (body : Option Json) (e : RoutesError)
    → rejected status body ≡ e
    → retryable e ≢ true
unrejected status body e h t = ground (arith, rejected_not_retryable status body)

read_outcome_retryable :
    (o : Outcome Json) (e : RoutesError)
    → read_outcome o ≡ err e
    → (retryable e ≡ true) ↔ IsTransient o
unfolding read_outcome
read_outcome_retryable failed e h = (λ t. tt, λ t. ground arith)
read_outcome_retryable (answered a) e h =
    (λ t. ground (arith, rejected_not_retryable a.status a.error), λ t. ground arith)

unequal : (s u : Text) → text_eq s u ≡ false → s ≢ u
unequal s u h e = ground (arith, text_eq_refl u, subst (λ x. text_eq x u ≡ false) e h)

equal_not : (s u : Text) → s ≢ u → text_eq s u ≡ false
equal_not s u h = elim (Bool-cases (text_eq s u)) [
  | inl same ↦ absurd (h (text_eq_sound s u same))
  | inr e ↦ e
]

three_tests :
    (a b c : Bool) (s t : Text) (e : RoutesError)
    → (if a || b || c then err e else ok s) ≡ ok t
    → (a ≡ false) × (b ≡ false) × (c ≡ false) × (s ≡ t)
three_tests a b c s t e h = ground arith

assert_route_id_sound :
    (id : Json) (t : Text) → assert_route_id id ≡ ok t → (u : IsRouteId id) × (u.text ≡ t)
unfolding assert_route_id
assert_route_id_sound (str s) t h =
    let (a, b, c, same) =
      three_tests (text_eq s []) (text_eq s (codes ".")) (text_eq s (codes "..")) s t _ h in
    (
      record {
        text = s;
        is_text = refl;
        nonempty = unequal s [] a;
        no_dot = unequal s (codes ".") b;
        no_dots = unequal s (codes "..") c;
      },
      same,
    )
assert_route_id_sound _ t h = absurd (ground arith)

assert_route_id_complete : (id : Json) (u : IsRouteId id) → assert_route_id id ≡ ok u.text
unfolding assert_route_id
assert_route_id_complete id u = rw (
  u.is_text,
  equal_not u.text [] u.nonempty,
  equal_not u.text (codes ".") u.no_dot,
  equal_not u.text (codes "..") u.no_dots,
)

-- Every refused id is refused for itself.
assert_route_id_error :
    (id : Json) (e : RoutesError) → assert_route_id id ≡ err e → e ≡ invalid_route_id id
unfolding assert_route_id
assert_route_id_error id e h = ground arith

module _ (method : Method) (body : Option Json) (gateway : Gateway Json) (id : Json) where
  -- An id that addresses a route is asked for once.
  by_id_valid :
      (u : IsRouteId id)
      → by_id method body gateway id ≡ (
        read_outcome (gateway (route_request method u.text body)),
        route_request method u.text body ∷ [],
      )
  unfolding by_id
  by_id_valid u = rw (assert_route_id_complete id u)

  by_id_invalid : ¬ IsRouteId id → by_id method body gateway id ≡ (err (invalid_route_id id), [])
  unfolding by_id
  by_id_invalid bad = elim (Result-cases (assert_route_id id)) [
    | inl (t, h) ↦ absurd (bad (assert_route_id_sound id t h).0)
    | inr (e, h) ↦ rw (h, assert_route_id_error id e h)
  ]

  refused_after :
      (e : RoutesError) (u : IsRouteId id)
      → (by_id method body gateway id).0 ≡ err e
      → (retryable e ≡ true) ↔ IsTransient (gateway (route_request method u.text body))
  refused_after e u h =
      read_outcome_retryable (gateway (route_request method u.text body)) e
        (subst (λ (c : Call RoutesError (Option Json)). c.0 ≡ err e) (by_id_valid u) h)

  -- An error of an operation on one route is to be retried exactly when the id addresses a route and
  -- the outcome of the request of this id is transient.
  pub by_id_retryable_iff :
      (e : RoutesError)
      → (by_id method body gateway id).0 ≡ err e
      → (retryable e ≡ true)
        ↔ ((u : IsRouteId id) × IsTransient (gateway (route_request method u.text body)))
  unfolding by_id
  by_id_retryable_iff e h = (
    λ again. elim (Result-cases (assert_route_id id)) [
      | inl (t, valid) ↦
          let (u, _) = assert_route_id_sound id t valid in (u, (refused_after e u h).0 again)
      | inr (refusal, bad) ↦
          let same = assert_route_id_error id refusal bad in absurd (ground (arith, rw bad at h))
    ],
    λ (u, transient). (refused_after e u h).1 transient,
  )

-- An id that is no text, is empty, or is "." or ".." is refused by the four operations on one route,
-- without a request.
invalid_id_sends_nothing :
    (gateway : Gateway Json) (id input change : Json)
    → ¬ IsRouteId id
    → (get_route gateway id ≡ (err (invalid_route_id id), []))
      × (replace_route gateway id input ≡ (err (invalid_route_id id), []))
      × (update_route gateway id change ≡ (err (invalid_route_id id), []))
      × (delete_route gateway id ≡ (err (invalid_route_id id), []))
invalid_id_sends_nothing gateway id input change bad = (
  by_id_invalid Http.get none gateway id bad,
  by_id_invalid put (some input) gateway id bad,
  by_id_invalid patch (some change) gateway id bad,
  by_id_invalid delete none gateway id bad,
)

-- What the listener answers with a 2xx is passed on, and nothing else is.
read_outcome-ok_iff :
    (o : Outcome Json) (content : Option Json)
    → (read_outcome o ≡ ok content) ↔ (
        (a : Answer Json) × (o ≡ answered a)
        × (200 ≤ a.status)
        × (a.status < 300)
        × (a.content ≡ content))
unfolding read_outcome
read_outcome-ok_iff failed content = (λ h. cc, λ h. cc)
read_outcome-ok_iff (answered a) content = (
  λ h. (a, refl, ground arith, ground arith, ground arith),
  λ (b, same, low, high, c). ground arith,
)
