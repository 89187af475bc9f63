-- ===== src/GitHub/Requests.antt =====
-- Sending a request and reading the response (examples/add-runner.js, modules 3986, @octokit/request,
-- and 3190, @octokit/request-error). The network and JSON are parameters. A property `__proto__` of an
-- error's JSON body, which would change the prototype of the error, is not modelled.
pub mod Laws
use github_runner_autoscaler.Common.Dict.{insert, lookup}
use github_runner_autoscaler.Common.{
  ℕ, zero, suc, Text, codes, text_eq, Bool, true, false, not, ◌&&◌, ◌||◌, List, [], ◌∷◌, ◌++◌,
  Option, none, some, if◌then◌else◌, ◌==◌, ltb, length, join, Result, ok, err, ◌<◌, ◌-◌,
}
use github_runner_autoscaler.CommandLine.Syntax.{is_line_end}
use github_runner_autoscaler.CommandLine.Booleans.{is_word}
use github_runner_autoscaler.GitHub.Endpoint.{Headers, Request}

-- A response; reading its content may fail with a message.
pub record Response : Type 0 where
  pub url : Text
  pub status : ℕ
  pub status_text : Text
  pub headers : Headers
  pub content : Result Text Text

-- A property of an error: what the constructor set, or a value of the response's JSON body that was
-- assigned over it.
pub data Property (Json A : Type 0) : Type 0 where
  own : A → Property Json A
  assigned : Json → Property Json A

-- `RequestError`; `others` are the further properties that were assigned, the latest first.
pub record HttpError (Json : Type 0) : Type 0 where
  pub message : Property Json Text
  pub status : Property Json ℕ
  pub headers : Property Json Headers
  pub request : Property Json Request
  pub others : List (Text × Json)

-- What the code reads of a JSON value: its own properties, in order (none where it is no object), its
-- text in a concatenation, if it has one, and the elements of its property `errors` as JSON text,
-- if that is an array.
pub record JsonView (Json : Type 0) : Type 0 where
  pub properties : Json → List (Text × Json)
  pub shown : Json → Option Text
  pub errors : Json → Option (List Text)

abbrev pub no_line_end : Text → Bool
no_line_end [] = true
no_line_end (c ∷ s) = not (is_line_end c) && no_line_end s

-- `replace(/ .*$/, " [REDACTED]")`
unfoldable pub redact_header : Text → Text
redact_header [] = []
redact_header (c ∷ s) =
    let rest = redact_header s in
    if c == b' ' && no_line_end s then codes " [REDACTED]" else c ∷ rest

-- The text begins with the key and a word character behind it.
abbrev pub begins_with : Text → Text → Bool
begins_with [] [] = false
begins_with [] (c ∷ s) = is_word c
begins_with (k ∷ key) [] = false
begins_with (k ∷ key) (c ∷ s) = k == c && begins_with key s

-- Where the scan of a URL stands: behind a character (a word character or not), in a key that was
-- found with so many characters of it left, or in the word behind a key.
pub data Scan : Type 0 where
  behind : Bool → Scan
  in_key : ℕ → Scan
  in_word : Scan

-- `replace(/\bkey\w+/g, "key[REDACTED]")`
unfoldable pub redact_key : Text → Scan → Text → Text
redact_key key scan [] = []
redact_key key (behind w) (c ∷ s) =
    let found = redact_key key (in_key (length key - 1)) s in
    let next = redact_key key (behind (is_word c)) s in
    if not w && begins_with key (c ∷ s) then key ++ (codes "[REDACTED]" ++ found) else c ∷ next
redact_key key (in_key (suc n)) (c ∷ s) = redact_key key (in_key n) s
redact_key key (in_key zero) (c ∷ s) =
    let more = redact_key key in_word s in
    let next = redact_key key (behind false) s in if is_word c then more else c ∷ next
redact_key key in_word (c ∷ s) =
    let more = redact_key key in_word s in
    let next = redact_key key (behind false) s in if is_word c then more else c ∷ next

abbrev pub redact_url : Text → Text
redact_url url =
    redact_key (codes "access_token=") (behind false)
      (redact_key (codes "client_secret=") (behind false) url)

abbrev pub authorization_key : Text
authorization_key = codes "authorization"

abbrev pub redact_headers : Option Text → Headers → Headers
redact_headers (some (c ∷ s)) hs = insert authorization_key (redact_header (c ∷ s)) hs
redact_headers v hs = hs

-- The request that an error keeps.
unfoldable pub redact_request : Request → Request
redact_request r = record r {
  url = redact_url r.url;
  headers = redact_headers (lookup authorization_key r.headers) r.headers;
}

module _ {Json : Type 0} where
  -- `new RequestError(message, status, { headers, request })`
  unfoldable pub request_error : Request → Headers → Text → ℕ → HttpError Json
  request_error request headers message status = record {
    message = own message;
    status = own status;
    headers = own headers;
    request = own (redact_request request);
    others = [];
  }

  abbrev pub assign_property : Text → Json → HttpError Json → HttpError Json
  assign_property key value e =
      if text_eq key (codes "message")
      then record e { message = assigned value }
      else if text_eq key (codes "status")
      then record e { status = assigned value }
      else if text_eq key (codes "headers")
      then record e { headers = assigned value }
      else if text_eq key (codes "request")
      then record e { request = assigned value }
      else record e { others = (key, value) ∷ e.others }

  -- `Object.assign(error, responseBody)`, and whether it ends: it throws at `code`, which has a getter
  -- and no setter.
  unfoldable pub assign_all : List (Text × Json) → HttpError Json → HttpError Json × Bool
  assign_all [] e = (e, true)
  assign_all ((key, value) ∷ more) e =
      let rest = assign_all more (assign_property key value e) in
      if text_eq key (codes "code") then (e, false) else rest

  abbrev pub message_text : JsonView Json → Property Json Text → Option Text
  message_text view (own t) = some t
  message_text view (assigned j) = view.shown j

  -- The errors behind the message; the error stays as it is where one of the two cannot be read.
  abbrev pub error_message : JsonView Json → Json → HttpError Json → HttpError Json
  error_message view j e = elim (view.errors j) [
    | none ↦ e
    | some es ↦ elim (message_text view e.message) [
      | none ↦ e
      | some m ↦ record e { message = own (m ++ (codes ": " ++ join (codes ", ") es)) }
    ]
  ]

  -- The `try` block, with what the text of the response parses to.
  unfoldable pub assign_body : JsonView Json → Result Text Json → HttpError Json → HttpError Json
  unfolding assign_all
  assign_body view (err m) e = e
  assign_body view (ok j) e =
      let (e', ended) = assign_all (view.properties j) e in
      if ended then error_message view j e' else e'

-- `/application\/json/.test(contentType)` and `/^text\/|charset=utf-8$/.test(contentType)`
unfoldable pub starts_with : Text → Text → Bool
starts_with [] s = true
starts_with (p ∷ ps) [] = false
starts_with (p ∷ ps) (c ∷ s) = p == c && starts_with ps s

unfoldable pub has_text : Text → Text → Bool
has_text p [] = starts_with p []
has_text p (c ∷ s) = starts_with p (c ∷ s) || has_text p s

unfoldable pub ends_with : Text → Text → Bool
ends_with p [] = text_eq p []
ends_with p (c ∷ s) = text_eq p (c ∷ s) || ends_with p s

abbrev pub is_json : Option Text → Bool
is_json none = false
is_json (some t) = has_text (codes "application/json") t

abbrev pub is_text : Option Text → Bool
is_text none = true
is_text (some []) = true
is_text (some (c ∷ s)) =
    starts_with (codes "text/") (c ∷ s) || ends_with (codes "charset=utf-8") (c ∷ s)

module _ (Json : Type 0) where
  pub data Data : Type 0 where
    no_data buffer : Data
    json : Json → Data
    plain : Text → Data

  pub record Answer : Type 0 where
    pub status : ℕ
    pub url : Text
    pub headers : Headers
    pub body : Data

module _ {Json : Type 0} (parse_json : Text → Result Text Json) (view : JsonView Json) where
  abbrev pub to_json : Result Text Json → Result Text (Data Json)
  to_json (ok j) = ok (json j)
  to_json (err m) = err m

  -- The data of a response whose status is no error; a message where reading it fails.
  abbrev pub json_data : Result Text Text → Result Text (Data Json)
  json_data (ok t) = to_json (parse_json t)
  json_data (err m) = err m

  abbrev pub text_data : Result Text Text → Result Text (Data Json)
  text_data (ok t) = ok (plain t)
  text_data (err m) = err m

  unfoldable pub read_data : Response → Result Text (Data Json)
  read_data r =
      if is_json (lookup (codes "content-type") r.headers)
      then json_data r.content
      else if is_text (lookup (codes "content-type") r.headers)
      then text_data r.content
      else ok buffer

  abbrev pub answer : Response → Data Json → Answer Json
  answer r d = record { status = r.status; url = r.url; headers = r.headers; body = d }

  -- The last `catch`: any other failure has the status 500.
  abbrev pub settle :
      Request → Response → Result Text (Data Json) → Result (HttpError Json) (Answer Json)
  settle request r (ok d) = ok (answer r d)
  settle request r (err m) = err (request_error request r.headers m 500)

  abbrev pub fail : Request → Response → Result Text Text → Result (HttpError Json) (Answer Json)
  fail request r (ok t) =
      err (assign_body view (parse_json t) (request_error request r.headers t r.status))
  fail request r (err m) = err (request_error request r.headers m 500)

  unfoldable pub read_response : Request → Response → Result (HttpError Json) (Answer Json)
  read_response request r =
      if r.status == 204 || r.status == 205
      then ok (answer r no_data)
      else if text_eq request.method (codes "HEAD")
      then (if ltb r.status 400
          then ok (answer r no_data)
          else err (request_error request r.headers r.status_text r.status))
      else if r.status == 304
      then err (request_error request r.headers (codes "Not modified") 304)
      else if ltb r.status 400
      then settle request r (read_data r)
      else fail request r r.content

  abbrev pub read_fetched : Request → Result Text Response → Result (HttpError Json) (Answer Json)
  read_fetched request (ok r) = read_response request r
  read_fetched request (err m) = err (request_error request [] m 500)

  -- `fetchWrapper`, with what `fetch` comes to.
  unfoldable pub fetch_wrapper :
      (Request → Result Text Response) → Request → Result (HttpError Json) (Answer Json)
  fetch_wrapper fetch request = read_fetched request (fetch request)
