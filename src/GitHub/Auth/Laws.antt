-- ===== src/GitHub/Auth/Laws.antt =====
-- The authorization header (examples/add-runner.js, module 8426).
use github_runner_autoscaler.Common.{
  ◌≡◌, ◌≢◌, inl, inr, refl, arith, Text, false, [], ◌∷◌, some, ◌==◌, Bool-cases,
}
use github_runner_autoscaler.GitHub.Auth.{
  has_three_parts, with_authorization_prefix, strip_spaces, without_prefix, create_token_auth,
  authorization,
}

-- The text does not begin with a space.
abbrev pub StartsTight : Text → Type 0
StartsTight [] = Unit
StartsTight (c ∷ s) = (c == b' ') ≡ false

strip_spaces_tight : (s : Text) → StartsTight s → strip_spaces s ≡ s
unfolding strip_spaces
strip_spaces_tight [] h = refl
strip_spaces_tight (c ∷ s) h = rw h

-- A prefix is taken off again, if the token does not begin with a space.
pub without-with_prefix :
    (token : Text) → StartsTight token → without_prefix (with_authorization_prefix token) ≡ token
unfolding without_prefix with_authorization_prefix
without-with_prefix token h = elim (Bool-cases (has_three_parts token)) [
  | inl e ↦ rw e (strip_spaces_tight token h)
  | inr e ↦ rw e (strip_spaces_tight token h)
]

create_of : (t : Text) → t ≢ [] → create_token_auth t ≡ some (without_prefix t)
unfolding create_token_auth
create_of [] h = absurd (h refl)
create_of (c ∷ s) h = refl

pub prefixed_ne_nil : (t : Text) → with_authorization_prefix t ≢ []
unfolding with_authorization_prefix
prefixed_ne_nil t e = elim (Bool-cases (has_three_parts t)) [
  | inl b ↦ absurd (ground (arith, b))
  | inr b ↦ absurd (ground (arith, b))
]

-- A token that carries its prefix already, `token` or `bearer` as its form has it, gives the same
-- header as the bare token, which is the token behind that prefix, if the token is not empty, does
-- not begin with a space and has no such prefix itself.
pub authorization-with_prefix :
    (t : Text)
    → t ≢ []
    → StartsTight t
    → without_prefix t ≡ t
    → (authorization (with_authorization_prefix t) ≡ authorization t)
      × (authorization t ≡ some (with_authorization_prefix t))
unfolding authorization
authorization-with_prefix t ne tight bare =
    rw
      (
        create_of t ne,
        create_of (with_authorization_prefix t) (prefixed_ne_nil t),
        without-with_prefix t tight,
        bare,
      )
      (refl, refl)
