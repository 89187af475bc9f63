-- ===== src/GitHub/Endpoint/Registration.antt =====
-- The request for a registration token (examples/add-runner.js, module 2995, with the route of module
-- 6752): POST /repos/{owner}/{repo}/actions/runners/registration-token.
use github_runner_autoscaler.Common.Dict.{insert, lookup}
use github_runner_autoscaler.Common.{
  ◌≡◌, refl, ap, ◌∙◌, arith, Text, codes, [], ◌∷◌, ◌++◌, some, Bool-cases, inl, inr, All, Lacks,
  split, split-append,
}
use github_runner_autoscaler.AddRunner.Encoding.RoundTrip.{IsUnit16}
use github_runner_autoscaler.AddRunner.Encoding.{code_points}
use github_runner_autoscaler.GitHub.Percent.{
  encode_unreserved, encode_reserved, append_texts, encode, is_well_formed, encode_each,
  split_escapes, encode_parts, has_escape, restore_brackets,
}
use github_runner_autoscaler.GitHub.Percent.Laws.{IsSafe, encode_unreserved-IsSafe}
use github_runner_autoscaler.GitHub.Template.{
  text, Context, expand, expand_expression, expand_pieces, lexemes, pieces,
}
use github_runner_autoscaler.GitHub.Template.Laws.{expand_expression-variable}
use github_runner_autoscaler.GitHub.Endpoint.{
  Headers, Options, no_body, Request, omit, parse_options, type_header, is_set, content_type,
}
use github_runner_autoscaler.GitHub.Variables.{
  brace_variables, extract_url_variable_names, matches_from, up_to_close, names_of, strip_front,
  strip_back,
}

-- `createRegistrationTokenForRepo`
abbrev pub registration_url : Text
registration_url = codes "/repos/{owner}/{repo}/actions/runners/registration-token"

-- The options of the call, with headers and an origin.
unfoldable pub registration_options : Text → Headers → Text → Text → Options
registration_options base_url headers owner repo = record {
  method = codes "POST";
  base_url = base_url;
  url = registration_url;
  headers = headers;
  parameters = (codes "owner", text owner) ∷ (codes "repo", text repo) ∷ [];
}

-- The path of the request, from the encoded names.
unfoldable pub registration_path : Text → Text → Text
registration_path owner repo =
    codes "/repos/" ++ (owner ++ (b'/' ∷ (repo ++ codes "/actions/runners/registration-token")))

abbrev registration_context : Text → Text → Context
registration_context owner repo = (codes "owner", text owner) ∷ (codes "repo", text repo) ∷ []

expand-parts :
    (context : Context)
    → expand registration_url context
      ≡ append_texts (some (codes "/repos/")) (
          append_texts (expand_expression context (codes "owner")) (
            append_texts (some (codes "/")) (
              append_texts
                (expand_expression context (codes "repo"))
                (some (codes "/actions/runners/registration-token")))))
unfolding expand expand_pieces lexemes pieces encode_reserved encode is_well_formed encode_each
    split_escapes encode_parts has_escape restore_brackets code_points
expand-parts context = refl

expand-registration :
    (owner repo o r : Text)
    → encode_unreserved owner ≡ some o
    → encode_unreserved repo ≡ some r
    → expand registration_url (registration_context owner repo) ≡ some (registration_path o r)
unfolding registration_path lookup
expand-registration owner repo o r ho hr =
    let context = registration_context owner repo in
    let first : expand_expression context (codes "owner") ≡ some o =
      expand_expression-variable context (codes "owner") owner
        (refl, (refl, (refl, (refl, (refl, tt))))) refl
      ∙ ho in
    let second : expand_expression context (codes "repo") ≡ some r =
      expand_expression-variable context (codes "repo") repo (refl, (refl, (refl, (refl, tt)))) refl
      ∙ hr in
    expand-parts context ∙ rw (first, second)

type_header-no_body : (hs : Headers) → type_header no_body hs ≡ hs
type_header-no_body hs = elim (Bool-cases (is_set (lookup content_type hs))) [
  | inl e ↦ rw e
  | inr e ↦ rw e
]

-- The request for a registration token.
unfoldable pub registration_request : Text → Headers → Text → Text → Request
registration_request base_url headers o r = record {
  method = codes "POST";
  url = base_url ++ registration_path o r;
  headers = insert (codes "content-length") (codes "0") headers;
  body = no_body;
}

parse-registration :
    (base_url : Text) (headers : Headers) (owner repo o r : Text)
    → encode_unreserved owner ≡ some o
    → encode_unreserved repo ≡ some r
    → parse_options (registration_options base_url headers owner repo)
      ≡ some (registration_request base_url headers o r)
unfolding parse_options registration_options registration_request brace_variables
    extract_url_variable_names omit registration_path lookup matches_from up_to_close names_of
    strip_front strip_back
parse-registration base_url headers owner repo o r ho hr =
    rw (expand-registration owner repo o r ho hr) (
      ap
        (λ hs. some (record {
          method = codes "POST";
          url = base_url ++ registration_path o r;
          headers = hs;
          body = no_body;
        }))
        (type_header-no_body (insert (codes "content-length") (codes "0") headers)))

Lacks-of_safe : (t : Text) → All IsSafe t → Lacks b'/' t
Lacks-of_safe [] h = tt
Lacks-of_safe (c ∷ t) (hc, h) = ((λ e. ground (arith, hc, e)), Lacks-of_safe t h)

-- The segments of the path are those of the route, with the encoded names in place.
segments :
    (o r : Text)
    → Lacks b'/' o
    → Lacks b'/' r
    → split b'/' (registration_path o r)
      ≡ []
        ∷ codes "repos"
        ∷ o
        ∷ r
        ∷ codes "actions"
        ∷ codes "runners"
        ∷ codes "registration-token"
        ∷ []
unfolding registration_path
segments o r ho hr = rw (
  split-append b'/' o (r ++ codes "/actions/runners/registration-token") ho,
  split-append b'/' r (codes "actions/runners/registration-token") hr,
)

-- For an owner and a repository of 16-bit code units that can be encoded, the request for a
-- registration token is a POST request without a body, with a content length of 0 and the given
-- headers, whose path has the segments of the route with the encoded names in place.
pub parse_options-registration :
    (base_url : Text) (headers : Headers) (owner repo o r : Text)
    → All IsUnit16 owner
    → All IsUnit16 repo
    → encode_unreserved owner ≡ some o
    → encode_unreserved repo ≡ some r
    → (parse_options (registration_options base_url headers owner repo)
        ≡ some (registration_request base_url headers o r))
      × (split b'/' (registration_path o r)
          ≡ []
            ∷ codes "repos"
            ∷ o
            ∷ r
            ∷ codes "actions"
            ∷ codes "runners"
            ∷ codes "registration-token"
            ∷ [])
parse_options-registration base_url headers owner repo o r uo ur ho hr = (
  parse-registration base_url headers owner repo o r ho hr,
  segments o r (Lacks-of_safe o (encode_unreserved-IsSafe owner o uo ho))
      (Lacks-of_safe r (encode_unreserved-IsSafe repo r ur hr)),
)
