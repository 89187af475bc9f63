-- ===== src/GitHub/Auth.antt =====
-- @octokit/auth-token (examples/add-runner.js, module 8426): the header that a token makes.
pub mod Laws
use github_runner_autoscaler.Common.{
  ℕ, Text, codes, is_digit, is_lower, is_upper, Bool, true, false, ◌&&◌, ◌||◌, List, [], ◌∷◌, ◌++◌,
  Option, none, some, if◌then◌else◌, ◌==◌, length, split, ◌+◌,
}

pub data TokenType : Type 0 where
  app installation oauth : TokenType

-- `token.split(/\./).length === 3`
abbrev pub has_three_parts : Text → Bool
has_three_parts token = length (split b'.' token) == 3

-- `\d*\.` at the front, behind a digit
pub digits_dot : Text → Bool
digits_dot [] = false
digits_dot (c ∷ s) = let rest = digits_dot s in if is_digit c then rest else c == b'.'

-- `/^v\d+\./.test(token)`
abbrev pub is_installation : Text → Bool
is_installation (c ∷ (d ∷ s)) = c == b'v' && is_digit d && digits_dot s
is_installation _ = false

-- The type that `auth` gives.
pub token_type : Text → TokenType
token_type token =
    if has_three_parts token then app else if is_installation token then installation else oauth

unfoldable pub with_authorization_prefix : Text → Text
with_authorization_prefix token =
    if has_three_parts token then codes "bearer " ++ token else codes "token " ++ token

-- ASCII letters without case, as the flag `i` compares them.
abbrev pub lower_unit : ℕ → ℕ
lower_unit c = if is_upper c then c + 32 else c

-- A word at the front, without case: what stands behind it.
abbrev pub strip_word : Text → Text → Option Text
strip_word [] s = some s
strip_word (w ∷ ws) [] = none
strip_word (w ∷ ws) (c ∷ s) = let rest = strip_word ws s in if lower_unit c == w then rest else none

unfoldable pub strip_spaces : Text → Text
strip_spaces [] = []
strip_spaces (c ∷ s) = let rest = strip_spaces s in if c == b' ' then rest else c ∷ s

-- ` +`: one space or more
abbrev pub spaces_behind : Option Text → Option Text
spaces_behind (some (c ∷ s)) = if c == b' ' then some (strip_spaces s) else none
spaces_behind _ = none

abbrev pub first_of : Option Text → Option Text → Text → Text
first_of (some s) o t = s
first_of none (some s) t = s
first_of none none t = t

-- `token.replace(/^(token|bearer) +/i, "")`
unfoldable pub without_prefix : Text → Text
without_prefix token =
    first_of (spaces_behind (strip_word (codes "token") token))
      (spaces_behind (strip_word (codes "bearer") token)) token

-- `createTokenAuth`: the token that the hook works with, or nothing where it throws.
unfoldable pub create_token_auth : Text → Option Text
create_token_auth [] = none
create_token_auth (c ∷ s) = some (without_prefix (c ∷ s))

-- The `authorization` header that the hook sets on a request, or nothing where there is none.
abbrev pub header_of : Option Text → Option Text
header_of none = none
header_of (some t) = some (with_authorization_prefix t)

unfoldable pub authorization : Text → Option Text
authorization token = header_of (create_token_auth token)
