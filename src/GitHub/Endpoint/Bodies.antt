-- ===== src/GitHub/Endpoint/Bodies.antt =====
-- Bodies and headers of requests (examples/add-runner.js, module 2995).
use github_runner_autoscaler.Common.Dict.{lookup, lookup-insert}
use github_runner_autoscaler.Common.{
  ◌≡◌, ◌⊎◌, inl, inr, ap, sym, arith, Text, codes, text_eq_refl, true, false, map, Option, none,
  some, if◌then◌else◌, Bool-cases,
}
use github_runner_autoscaler.GitHub.Template.{Context, expand}
use github_runner_autoscaler.GitHub.Endpoint.{
  Headers, Options, Body, no_body, empty_body, parameters_body, data_body, Request, upper_char,
  is_query_method, needs_body, is_defined, is_set, content_type, type_header, default_body,
  request_with, with_base, query_url, or_slash, omit, body_of, length_header, parse_options,
}
use github_runner_autoscaler.GitHub.Variables.{brace_variables, extract_url_variable_names}

-- The parameters that the URL does not name.
pub remaining : Options → Context
remaining o =
    omit o.parameters (extract_url_variable_names (brace_variables false (or_slash o.url)))

-- What is true of a request: its method is in upper case; one that queries has no body; any other has
-- the remaining parameters as its body, an empty text in place of none where the method needs a body;
-- and a body that is not that empty text comes with a content type.
pub record IsRequest (o : Options) (r : Request) : Type 0 where
  pub method : r.method ≡ map upper_char o.method
  pub body :
      r.body
      ≡ default_body r.method (if is_query_method r.method then no_body else body_of (remaining o))
  pub typed :
      ((r.body ≡ no_body) ⊎ (r.body ≡ empty_body)) ⊎ (is_set (lookup content_type r.headers) ≡ true)

type_header-set :
    (b : Body) (hs : Headers)
    → is_defined b ≡ true
    → is_set (lookup content_type (type_header b hs)) ≡ true
type_header-set b hs d = elim (Bool-cases (is_set (lookup content_type hs))) [
  | inl e ↦ rw e e
  | inr e ↦ rw (
    e,
    d,
    lookup-insert content_type content_type (codes "application/json; charset=utf-8") hs,
    text_eq_refl content_type,
  )
]

default_body-cases :
    (m : Text) (b : Body)
    → is_defined b ≡ false
    → (default_body m b ≡ no_body) ⊎ (default_body m b ≡ empty_body)
default_body-cases m no_body h = elim (Bool-cases (needs_body m)) [
  | inl e ↦ inr (rw e)
  | inr e ↦ inl (rw e)
]
default_body-cases m empty_body h = absurd (ground (arith, h))
default_body-cases m (parameters_body ps) h = absurd (ground (arith, h))
default_body-cases m (data_body p) h = absurd (ground (arith, h))

request_with-typed :
    (m : Text) (b : Body) (hs : Headers)
    → ((default_body m b ≡ no_body) ⊎ (default_body m b ≡ empty_body))
      ⊎ (is_set (lookup content_type (type_header b hs)) ≡ true)
request_with-typed m b hs = elim (Bool-cases (is_defined b)) [
  | inl e ↦ inr (type_header-set b hs e)
  | inr e ↦ inl (default_body-cases m b e)
]

abbrev value_or : Request → Option Request → Request
value_or r none = r
value_or r (some q) = q

-- What `request_with` returns.
request_with-some :
    (m : Text) (u : Option Text) (hs : Headers) (b : Body) (r : Request)
    → request_with m u hs b ≡ some r
    → (r.method ≡ m) × (r.body ≡ default_body m b) × (r.headers ≡ type_header b hs)
request_with-some m none hs b r h = absurd (ground (arith, h))
request_with-some m (some u) hs b r h =
    let same : record { method = m; url = u; headers = type_header b hs; body = default_body m b }
        ≡ r =
      ap (value_or r) h in
    (ap (λ q. q.method) (sym same), ap (λ q. q.body) (sym same), ap (λ q. q.headers) (sym same))

IsRequest-of_parts :
    (o : Options) (r : Request) (b : Body) (hs : Headers)
    → b ≡ (if is_query_method (map upper_char o.method) then no_body else body_of (remaining o))
    → (r.method ≡ map upper_char o.method)
      × (r.body ≡ default_body (map upper_char o.method) b)
      × (r.headers ≡ type_header b hs)
    → IsRequest o r
IsRequest-of_parts o r b hs e (m, d, k) = record {
  method = m;
  body = rw (d, m, e);
  typed = rw (d, k) (request_with-typed (map upper_char o.method) b hs);
}

-- A request that parse returns has the method in upper case. It has no body if it is a GET or HEAD
-- request; else it has as its body the parameters that the URL does not name, or the one called
-- `data`, and an empty text in place of none if it is a PATCH or PUT request. A body that is not
-- that empty text comes with a content type.
pub parse_options-IsRequest : (o : Options) (r : Request) → parse_options o ≡ some r → IsRequest o r
unfolding parse_options remaining
parse_options-IsRequest o r h =
    let m = map upper_char o.method in
    let url = with_base o.base_url (expand (brace_variables false (or_slash o.url)) o.parameters) in
    elim (Bool-cases (is_query_method m)) [
      | inl e ↦
          IsRequest-of_parts o r no_body o.headers (rw e)
            (request_with-some m (query_url url (remaining o)) o.headers no_body r (rw e at h))
      | inr e ↦
          IsRequest-of_parts o r (body_of (remaining o)) (length_header (remaining o) o.headers)
            (rw e)
            (request_with-some m url (length_header (remaining o) o.headers) (body_of (remaining o))
              r (rw e at h))
    ]
