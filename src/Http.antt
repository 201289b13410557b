-- ===== src/Http.antt =====
-- HTTP calls through `openapi-fetch`, which is not part of the repository: a gateway answers each
-- request, and a client's call records the requests that it made.
pub mod Options
use ankusa.Prelude.{
  ℕ, String, Option, List, [], ◌∷◌, ◌++◌, Result, ok, err, ◌≡◌, refl, ap, append-nil,
  ◌>>=◌ as ◌then◌,
}
use ankusa.Json.{Json, Props}

pub data Method : Type 0 where
  get post put patch delete : Method

-- The arguments of `http.GET(template, {params: {path, query}, body})` and its like.
pub record Request : Type 0 where
  pub method : Method
  pub template : String
  pub path : Props
  pub query : Props
  pub body : Option Json

-- `{data, error, response}`, of which the clients read the status.
pub record Answer (D : Type 0) : Type 0 where
  pub content : Option D
  pub error : Option Json
  pub status : ℕ

-- The promise may reject: the network failed, or the deadline passed.
pub data Outcome (D : Type 0) : Type 0 where
  failed : Outcome D
  answered : Answer D → Outcome D

abbrev pub Gateway : Type 0 → Type 0
Gateway D = Request → Outcome D

-- The result of a call, and the requests that it made, in their order.
abbrev pub Call : Type 0 → Type 0 → Type 0
Call E A = Result E A × List Request

module _ {E A : Type 0} where
  -- What fails or returns without a request.
  abbrev pub lift : Result E A → Call E A
  lift r = (r, [])

module _ {D E A : Type 0} where
  -- One request, and what becomes of its outcome.
  abbrev pub request : Gateway D → Request → (Outcome D → Result E A) → Call E A
  request gateway r finish = (finish (gateway r), r ∷ [])

module _ {E A B : Type 0} where
  abbrev pub continue : Result E A → List Request → (A → Call E B) → Call E B
  continue (ok a) sent f = ((f a).0, sent ++ (f a).1)
  continue (err e) sent f = (err e, sent)

  infixl 5 ◌>>=◌
  abbrev pub ◌>>=◌ : Call E A → (A → Call E B) → Call E B
  m >>= f = continue m.0 m.1 f

module _ {E A B : Type 0} where
  -- Reading a result makes no request.
  pub continue-lift :
      (r : Result E A) (sent : List Request) (f : A → Result E B)
      → continue r sent (λ a. lift (f a)) ≡ (◌then◌ r f, sent)
  continue-lift (ok a) sent f = ap (λ l. (f a, l)) (append-nil sent)
  continue-lift (err e) sent f = refl
