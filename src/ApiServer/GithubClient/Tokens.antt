-- ===== src/ApiServer/GithubClient/Tokens.antt =====
-- github_client.go: what is shown of a token.
use github_runner_autoscaler.Common.{
  ℕ, zero, suc, ◌+◌, ◌≤◌, ◌<◌, ◌≡◌, refl, List, [], ◌∷◌, ◌++◌, Text, All, All-append, length, arith,
  length-append,
}
use github_runner_autoscaler.ApiServer.GithubClient.{byte_length, redact_from, tokenize_token}

abbrev pub IsAscii : Text → Type 0
IsAscii = All (λ c. c < 128)

abbrev pub stars : ℕ → Text
stars zero = []
stars (suc n) = b'*' ∷ stars n

byte_length-ascii : (s : Text) → IsAscii s → byte_length s ≡ length s
byte_length-ascii [] h = refl
byte_length-ascii (c ∷ s) (h, hs) = ground (arith, byte_length-ascii s hs)

-- At the end of a token everything is shown.
redact_end : (total i : ℕ) (s : Text) → IsAscii s → total ≤ i + 3 → redact_from total i s ≡ s
unfolding redact_from
redact_end total i [] h le = refl
redact_end total i (c ∷ s) (h, hs) le = ground (arith, redact_end total (i + 1) s hs)

redact_middle :
    (total i : ℕ) (s z : Text)
    → IsAscii s
    → IsAscii z
    → 3 ≤ i
    → total ≡ i + length s + 3
    → redact_from total i (s ++ z) ≡ stars (length s) ++ z
unfolding redact_from
redact_middle total i [] z hs hz three e = redact_end total i z hz (omega arith)
redact_middle total i (c ∷ s) z (h, hs) hz three e =
    ground (arith, redact_middle total (i + 1) s z hs hz)

-- The shown form of a token of at least six ASCII characters has its first three and its last
-- three characters, and a star in place of each other one.
pub tokenize_token_lem :
    (sum224 : Text → List ℕ) (a b c : ℕ) (s z : Text)
    → IsAscii (a ∷ (b ∷ (c ∷ s)))
    → IsAscii z
    → length z ≡ 3
    → (tokenize_token sum224 (a ∷ (b ∷ (c ∷ (s ++ z))))).1 ≡ a ∷ (b ∷ (c ∷ (stars (length s) ++ z)))
unfolding tokenize_token
tokenize_token_lem sum224 a b c s z (ha, (hb, (hc, hs))) hz three =
    let e = byte_length-ascii (s ++ z) (All-append (λ c. c < 128) s z hs hz) in
    ground (arith, e, length-append s z, redact_middle (3 + byte_length (s ++ z)) 3 s z hs hz)
