-- ===== src/GitHub/Endpoint.antt =====
-- The request that options make (examples/add-runner.js, module 2995, @octokit/endpoint). The media
-- type is the default one, without a format and previews; methods are ASCII.
pub mod Registration
pub mod Bodies
use github_runner_autoscaler.Common.Dict.{insert, lookup}
use github_runner_autoscaler.Common.{
  ℕ, ◌+◌, ◌-◌, Text, codes, text_eq, is_lower, is_upper, Bool, true, false, not, ◌&&◌, ◌||◌, List,
  [], ◌∷◌, ◌++◌, map, Option, none, some, if◌then◌else◌, ◌==◌, any, join, split,
}
use github_runner_autoscaler.CommandLine.Definitions.{contains}
use github_runner_autoscaler.CommandLine.Booleans.{is_word}
use github_runner_autoscaler.GitHub.Variables.{brace_variables, extract_url_variable_names}
use github_runner_autoscaler.GitHub.Percent.{encode_uri_component, append_texts}
use github_runner_autoscaler.GitHub.Template.{
  Param, undefined, null, text, array, object, Context, expand, sequence, join_with,
}

abbrev pub Headers : Type 0
Headers = List (Text × Text)

-- The options, defaults included; `parameters` are those under any other name.
pub record Options : Type 0 where
  pub method : Text
  pub base_url : Text
  pub url : Text
  pub headers : Headers
  pub parameters : Context

pub data Body : Type 0 where
  no_body empty_body : Body
  parameters_body : Context → Body
  data_body : Param → Body

pub record Request : Type 0 where
  pub method : Text
  pub url : Text
  pub headers : Headers
  pub body : Body

abbrev pub lower_char : ℕ → ℕ
lower_char c = if is_upper c then c + 32 else c

abbrev pub upper_char : ℕ → ℕ
upper_char c = if is_lower c then c - 32 else c

-- `lowercaseKeys`; names are ASCII.
unfoldable pub lowercase_keys : List (Text × Option Text) → List (Text × Option Text)
lowercase_keys [] = []
lowercase_keys ((k, v) ∷ hs) = (map lower_char k, v) ∷ lowercase_keys hs

-- Headers given with a request, put over the default ones; undefined ones are dropped first.
unfoldable pub assign_headers : Headers → List (Text × Option Text) → Headers
assign_headers defaults [] = defaults
assign_headers defaults ((k, none) ∷ hs) = assign_headers defaults hs
assign_headers defaults ((k, some v) ∷ hs) = assign_headers (insert k v defaults) hs

unfoldable pub merge_headers : Headers → List (Text × Option Text) → Headers
merge_headers defaults given = assign_headers defaults (lowercase_keys given)

-- `omit`
unfoldable pub omit : Context → List Text → Context
omit [] names = []
omit ((k, v) ∷ ps) names =
    let rest = omit ps names in if contains names k then rest else (k, v) ∷ rest

abbrev pub field_text : Option Text → Text
field_text none = []
field_text (some t) = t

-- A parameter as a text.
abbrev pub param_text : Param → Text
param_text undefined = codes "undefined"
param_text null = codes "null"
param_text (text t) = t
param_text (array ts) = join (b',' ∷ []) (map field_text ts)
param_text (object fs) = codes "[object Object]"

abbrev pub encode_q : Param → Option Text
encode_q (text t) = join_with (b'+' ∷ []) (sequence (map encode_uri_component (split b'+' t)))
encode_q p = none

abbrev pub query_field : Text → Param → Option Text
query_field name p =
    if text_eq name (codes "q")
    then append_texts (some (codes "q=")) (encode_q p)
    else append_texts (some (name ++ (b'=' ∷ []))) (encode_uri_component (param_text p))

unfoldable pub query_fields : Context → List (Option Text)
query_fields [] = []
query_fields ((k, p) ∷ ps) = query_field k p ∷ query_fields ps

abbrev pub has_query : Text → Bool
has_query url = any (λ c. c == b'?') url

-- `addQueryParameters`
unfoldable pub add_query_parameters : Text → Context → Option Text
add_query_parameters url [] = some url
add_query_parameters url (p ∷ ps) =
    append_texts (some (url ++ ((if has_query url then b'&' else b'?') ∷ [])))
      (join_with (b'&' ∷ []) (sequence (query_fields (p ∷ ps))))

abbrev pub starts_http : Text → Bool
starts_http (c ∷ (d ∷ (e ∷ (f ∷ s)))) = c == b'h' && d == b't' && e == b't' && f == b'p'
starts_http s = false

abbrev pub or_slash : Text → Text
or_slash [] = b'/' ∷ []
or_slash (c ∷ s) = c ∷ s

abbrev pub is_query_method : Text → Bool
is_query_method method = text_eq method (codes "GET") || text_eq method (codes "HEAD")

abbrev pub needs_body : Text → Bool
needs_body method = text_eq method (codes "PATCH") || text_eq method (codes "PUT")

-- The body of a request that is neither GET nor HEAD, from the remaining parameters.
abbrev pub data_or_all : Option Param → Context → Body
data_or_all (some undefined) ps = no_body
data_or_all (some p) ps = data_body p
data_or_all none [] = no_body
data_or_all none (p ∷ ps) = parameters_body (p ∷ ps)

abbrev pub body_of : Context → Body
body_of ps = data_or_all (lookup (codes "data") ps) ps

abbrev pub is_defined : Body → Bool
is_defined no_body = false
is_defined b = true

abbrev pub is_empty_context : Context → Bool
is_empty_context [] = true
is_empty_context ps = false

abbrev pub length_header : Context → Headers → Headers
length_header ps hs =
    if is_empty_context ps then insert (codes "content-length") (codes "0") hs else hs

abbrev pub is_set : Option Text → Bool
is_set (some (c ∷ s)) = true
is_set v = false

abbrev pub content_type : Text
content_type = codes "content-type"

abbrev pub type_header : Body → Headers → Headers
type_header b hs =
    if not (is_set (lookup content_type hs)) && is_defined b
    then insert content_type (codes "application/json; charset=utf-8") hs
    else hs

abbrev pub default_body : Text → Body → Body
default_body method b = if needs_body method && not (is_defined b) then empty_body else b

abbrev pub request_with : Text → Option Text → Headers → Body → Option Request
request_with method none hs b = none
request_with method (some url) hs b = some (record {
  method = method;
  url = url;
  headers = type_header b hs;
  body = default_body method b;
})

abbrev pub with_base : Text → Option Text → Option Text
with_base base none = none
with_base base (some url) = some (if starts_http url then url else base ++ url)

abbrev pub query_url : Option Text → Context → Option Text
query_url none ps = none
query_url (some url) ps = add_query_parameters url ps

-- `parse`; nothing where a URI function throws.
unfoldable pub parse_options : Options → Option Request
parse_options o =
    let method = map upper_char o.method in
    let template = brace_variables false (or_slash o.url) in
    let url = with_base o.base_url (expand template o.parameters) in
    let remaining = omit o.parameters (extract_url_variable_names template) in
    if is_query_method method
    then request_with method (query_url url remaining) o.headers no_body
    else request_with method url (length_header remaining o.headers) (body_of remaining)
