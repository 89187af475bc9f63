-- ===== src/GitHub/Requests/Laws.antt =====
-- What the errors and answers of a request hold (examples/add-runner.js, modules 3986 and 3190).
use github_runner_autoscaler.Common.Dict.{lookup}
use github_runner_autoscaler.Common.{
  ◌≡◌, ◌≢◌, ◌⊎◌, ◌<◌, ◌≤◌, inl, inr, refl, arith, Text, codes, text_eq, true, ◌||◌, List, [], ◌∷◌,
  Option, some, ◌==◌, Bool-cases, Result, ok, err,
}
use github_runner_autoscaler.GitHub.Endpoint.{Request}
use github_runner_autoscaler.GitHub.Requests.{
  Response, own, assigned, HttpError, JsonView, authorization_key, redact_request, Answer, Data,
  settle, fail, read_fetched, read_data, read_response, fetch_wrapper,
}

-- A header that says no more than that there was a token.
abbrev pub IsRedacted : Option Text → Type 0
IsRedacted h = (h ≡ some (codes "token [REDACTED]")) ⊎ (h ≡ some (codes "bearer [REDACTED]"))

-- The value stands under the key.
unfoldable pub Has : {Json : Type 0} → Text → Json → List (Text × Json) → Type 0
Has key value [] = ⊥
Has key value ((k, v) ∷ more) = ((k ≡ key) × (v ≡ value)) ⊎ Has key value more

module _ {Json : Type 0} where
  -- The request in an error is the one that was sent, redacted, or a value that stands under `request`.
  abbrev pub IsAbout : Request → List (Text × Json) → HttpError Json → Type 0
  IsAbout request values e =
      (e.request ≡ own (redact_request request))
      ⊎ ((j : Json) × (e.request ≡ assigned j) × Has (codes "request") j values)

  -- The request in an error after the assignment of values is the one before, or one of the values.
  IsKept : HttpError Json → List (Text × Json) → HttpError Json → Type 0
  IsKept e values e' =
      (e'.request ≡ e.request)
      ⊎ ((j : Json) × (e'.request ≡ assigned j) × Has (codes "request") j values)

-- A response whose status is an error, with a JSON body.
abbrev pub FailsWith : {Json : Type 0} → (Text → Result Text Json) → Response → Json → Type 0
FailsWith parse_json r body =
    (t : Text) × (400 ≤ r.status) × (r.content ≡ ok t) × (parse_json t ≡ ok body)

module _ {Json : Type 0} (parse_json : Text → Result Text Json) (view : JsonView Json) where
  -- Every error is about the request, redacted, but for what such a response puts in its place.
  abbrev pub IsOrigin : Request → Result Text Response → HttpError Json → Type 0
  IsOrigin request fetched e =
      (e.request ≡ own (redact_request request))
      ⊎ ((r : Response) × (body : Json) × (j : Json) × (fetched ≡ ok r)
          × FailsWith parse_json r body
          × (e.request ≡ assigned j)
          × Has (codes "request") j (view.properties body))

  abbrev error_of : HttpError Json → Result (HttpError Json) (Answer Json) → HttpError Json
  error_of d (ok a) = d
  error_of d (err e) = e

  -- The authorization header of the request that an error keeps is redacted.
  abbrev pub KeepsRedacted : HttpError Json → Type 0
  KeepsRedacted e =
      (r : Request) × (e.request ≡ own r) × IsRedacted (lookup authorization_key r.headers)

  -- The error comes of a response with an error's status, and its request is the value of the property
  -- `request` of the JSON body.
  abbrev pub TakesRequest : Result Text Response → HttpError Json → Type 0
  TakesRequest fetched e =
      (r : Response) × (body : Json) × (j : Json) × (fetched ≡ ok r)
      × FailsWith parse_json r body
      × (e.request ≡ assigned j)
      × Has (codes "request") j (view.properties body)

  settle-ok :
      (request : Request) (r : Response) (d : Result Text (Data Json)) (a : Answer Json)
      → settle parse_json view request r d ≡ ok a
      → (a.status ≡ r.status) × (a.url ≡ r.url)
  settle-ok request r (ok d) a h = (ground (arith, h), ground (arith, h))
  settle-ok request r (err m) a h = absurd (ground (arith, h))

  fail-ok :
      (request : Request) (r : Response) (c : Result Text Text) (a : Answer Json)
      → fail parse_json view request r c ≡ ok a
      → ⊥
  fail-ok request r (ok t) a h = ground (arith, h)
  fail-ok request r (err m) a h = ground (arith, h)

  -- What is known of a response that makes an answer.
  abbrev pub IsAnswered : Request → Response → Answer Json → Type 0
  IsAnswered request r a =
      (a.status ≡ r.status)
      × (a.url ≡ r.url)
      × (r.status < 400)
      × ((text_eq request.method (codes "HEAD") ≡ true) ⊎ (r.status ≢ 304))

  read_response-ok :
      (request : Request) (r : Response) (a : Answer Json)
      → read_response parse_json view request r ≡ ok a
      → IsAnswered request r a
  unfolding read_response
  read_response-ok request r a h = elim (Bool-cases (r.status == 204 || r.status == 205)) [
    | inl e ↦ (
      ground (arith, h, e),
      ground (arith, h, e),
      ground (arith, e),
      inr (λ q. ground (arith, e, q)),
    )
    | inr e ↦ elim (Bool-cases (text_eq request.method (codes "HEAD"))) [
      | inl m ↦ (ground (arith, h, e, m), ground (arith, h, e, m), ground (arith, h, e, m), inl m)
      | inr m ↦ (
        ground (
          arith,
          h,
          e,
          m,
          settle-ok request r (read_data parse_json view r) a,
          fail-ok request r r.content a,
        ),
        ground (
          arith,
          h,
          e,
          m,
          settle-ok request r (read_data parse_json view r) a,
          fail-ok request r r.content a,
        ),
        ground (arith, h, e, m, fail-ok request r r.content a),
        inr (λ q. ground (arith, h, e, m, q)),
      )
    ]
  ]

  read_fetched-ok :
      (request : Request) (x : Result Text Response) (a : Answer Json)
      → read_fetched parse_json view request x ≡ ok a
      → (r : Response) × (x ≡ ok r) × IsAnswered request r a
  read_fetched-ok request (ok r) a h = (r, refl, read_response-ok request r a h)
  read_fetched-ok request (err m) a h = absurd (ground (arith, h))

  -- An answer comes from a response, with its status and its URL; the status is below 400, and it
  -- is 304 only for a HEAD request.
  pub fetch_wrapper-ok :
      (fetch : Request → Result Text Response) (request : Request) (a : Answer Json)
      → fetch_wrapper parse_json view fetch request ≡ ok a
      → (r : Response) × (fetch request ≡ ok r) × IsAnswered request r a
  unfolding fetch_wrapper
  fetch_wrapper-ok fetch request a h = read_fetched-ok request (fetch request) a h
