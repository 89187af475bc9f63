-- ===== src/AddRunner/Config/Laws.antt =====
-- What `GetConfig` returns and refuses (add-runner/src/config.ts).
use github_runner_autoscaler.Common.{
  ℕ, Text, ◌≡◌, ◌≢◌, ◌↔◌, ◌⊎◌, inl, inr, refl, arith, true, false, [], ◌∷◌, Option, none, some, ok,
  err, length, all, All, Result-cases,
}
use github_runner_autoscaler.AddRunner.Config.{
  Config, file, FileSystem, invalid_pat, is_space, is_pat_char, trim_start, trim_end, trim, is_pat,
  resolve_token, parse_pat, get_config, or_default, accept,
}

pat_char_not_space : (c : ℕ) → is_pat_char c ≡ true → is_space c ≡ false
pat_char_not_space c h = ground arith

trim_start_of_pat : (s : Text) → all is_pat_char s ≡ true → trim_start s ≡ s
unfolding trim_start
trim_start_of_pat [] h = refl
trim_start_of_pat (c ∷ s) h = ground (arith, pat_char_not_space c)

trim_end_of_pat : (s : Text) → all is_pat_char s ≡ true → trim_end s ≡ s
unfolding trim_end
trim_end_of_pat [] h = refl
trim_end_of_pat (c ∷ []) h = ground (arith, pat_char_not_space c)
trim_end_of_pat (c ∷ (d ∷ s)) h = ground (arith, trim_end_of_pat (d ∷ s))

pub trim_of_pat : (s : Text) → is_pat s ≡ true → trim s ≡ s
unfolding trim is_pat
trim_of_pat s h = ground (arith, trim_start_of_pat s, trim_end_of_pat s)

-- A text that matches `^[a-z0-9_]{40}$` under the flag `i`.
abbrev pub IsToken : Text → Type 0
IsToken u = (length u ≡ 40) × All (λ c. is_pat_char c ≡ true) u

all→All : (s : Text) → all is_pat_char s ≡ true → All (λ c. is_pat_char c ≡ true) s
all→All [] h = tt
all→All (c ∷ s) h = ground (arith, all→All s)

is_pat→IsToken : (u : Text) → is_pat u ≡ true → IsToken u
unfolding is_pat
is_pat→IsToken u h = ground (arith, all→All u)

-- How `parsePat` finds the token that it returns: the argument itself, or what the file holds.
abbrev pub IsFound : FileSystem → Text → Text → Type 0
IsFound fs t u =
    (trim t ≡ u)
    ⊎ ((is_pat (trim t) ≡ false) × ((c : Text) × (fs (trim t) ≡ some (file c)) × (trim c ≡ u)))

accept-eq-ok : (v u : Text) → accept v ≡ ok u → (v ≡ u) × (is_pat u ≡ true)
accept-eq-ok v u h = ground arith

resolve_token_found :
    (fs : FileSystem) (t u : Text)
    → resolve_token fs t ≡ ok u
    → (t ≡ u) ⊎ ((is_pat t ≡ false) × ((c : Text) × (fs t ≡ some (file c)) × (trim c ≡ u)))
unfolding resolve_token
resolve_token_found fs t u h = ground arith

parse_pat-IsFound :
    (fs : FileSystem) (t u : Text) → parse_pat fs t ≡ ok u → IsFound fs t u × (is_pat u ≡ true)
unfolding parse_pat
parse_pat-IsFound fs t u h = elim (Result-cases (resolve_token fs (trim t))) [
  | inl (v, e) ↦ ground (arith, e, accept-eq-ok v u, resolve_token_found fs (trim t) v)
  | inr (x, e) ↦ ground (arith, e)
]

parse_pat_of_direct :
    (fs : FileSystem) (t : Text) → is_pat (trim t) ≡ true → parse_pat fs t ≡ ok (trim t)
unfolding parse_pat resolve_token
parse_pat_of_direct fs t h = ground arith

parse_pat_of_file :
    (fs : FileSystem) (t c : Text)
    → is_pat (trim t) ≡ false
    → fs (trim t) ≡ some (file c)
    → is_pat (trim c) ≡ true
    → parse_pat fs t ≡ ok (trim c)
unfolding parse_pat resolve_token
parse_pat_of_file fs t c h k l = ground arith

-- parsePat returns a token exactly when the trimmed argument is a token, or the trimmed argument
-- is no token, names a file, and the trimmed content of that file is a token.
pub parse_pat_iff :
    (fs : FileSystem) (t u : Text) → (parse_pat fs t ≡ ok u) ↔ (IsFound fs t u × (is_pat u ≡ true))
parse_pat_iff fs t u = (parse_pat-IsFound fs t u, back)
  where
    back : IsFound fs t u × (is_pat u ≡ true) → parse_pat fs t ≡ ok u
    back (inl e, h) = rw (← e) (parse_pat_of_direct fs t (rw e h))
    back (inr (direct, (c, there, e)), h) =
        rw (← e) (parse_pat_of_file fs t c direct there (rw e h))

-- If the trimmed argument is no token and names a file whose trimmed content is no token, parsePat
-- fails with the content of the file in its error.
pub parse_pat_bad_file :
    (fs : FileSystem) (t c : Text)
    → is_pat (trim t) ≡ false
    → fs (trim t) ≡ some (file c)
    → is_pat (trim c) ≡ false
    → parse_pat fs t ≡ err (invalid_pat (trim c))
unfolding parse_pat resolve_token
parse_pat_bad_file fs t c h k l = ground arith

-- A token is read as itself, whatever the file system holds.
parse_pat_of_token : (fs : FileSystem) (u : Text) → is_pat u ≡ true → parse_pat fs u ≡ ok u
parse_pat_of_token fs u h =
    let same = trim_of_pat u h in rw same at (parse_pat_of_direct fs u (rw same h))

get_config-eq-ok :
    (fs : FileSystem) (c c' : Config)
    → get_config fs c ≡ ok c'
    → (a : Text) × (r : Text) × (parse_pat fs c.admin_pat ≡ ok a)
      × (parse_pat fs c.read_pat ≡ ok r)
      × (c' ≡ record c {
        admin_pat = a;
        read_pat = r;
        github_pat_ns = some (or_default c.github_pat_ns c.stateful_set_ns);
      })
unfolding get_config
get_config-eq-ok fs c c' h = elim (Result-cases (parse_pat fs c.admin_pat)) [
  | inl (a, ea) ↦ elim (Result-cases (parse_pat fs c.read_pat)) [
    | inl (r, er) ↦ (a, r, ea, er, ground (arith, ea, er))
    | inr (x, er) ↦ absurd (ground (arith, ea, er))
  ]
  | inr (x, ea) ↦ absurd (ground (arith, ea))
]

or_default_ne_nil : (o : Option Text) (d : Text) → (d ≡ []) ⊎ (or_default o d ≢ [])
or_default_ne_nil (some (c ∷ s)) d = inr (λ e. cc)
or_default_ne_nil o [] = inl refl
or_default_ne_nil none (c ∷ s) = inr (λ e. cc)
or_default_ne_nil (some []) (c ∷ s) = inr (λ e. cc)

-- What the rest of the command relies on.
pub record IsReady (c : Config) : Type 0 where
  pub admin_token : IsToken c.admin_pat
  pub read_token : IsToken c.read_pat
  pub namespaced :
      (ns : Text) × (c.github_pat_ns ≡ some ns) × ((c.stateful_set_ns ≡ []) ⊎ (ns ≢ []))

-- A configuration that GetConfig returns has two tokens of 40 characters of the class and a
-- namespace for the GitHub secret, which is empty only if that of the stateful set is.
pub get_config-IsReady : (fs : FileSystem) (c c' : Config) → get_config fs c ≡ ok c' → IsReady c'
get_config-IsReady fs c c' h =
    let (a, r, ea, er, e) = get_config-eq-ok fs c c' h in
    rw e (record {
      admin_token = is_pat→IsToken a (parse_pat-IsFound fs c.admin_pat a ea).1;
      read_token = is_pat→IsToken r (parse_pat-IsFound fs c.read_pat r er).1;
      namespaced = (_, refl, or_default_ne_nil c.github_pat_ns c.stateful_set_ns);
    })

or_default_idem :
    (o : Option Text) (d : Text) → or_default (some (or_default o d)) d ≡ or_default o d
or_default_idem none [] = refl
or_default_idem none (c ∷ s) = refl
or_default_idem (some []) [] = refl
or_default_idem (some []) (c ∷ s) = refl
or_default_idem (some (c ∷ s)) d = refl

-- A configuration that GetConfig returned is left as it is by GetConfig under any file system.
pub get_config_idem :
    (fs fs' : FileSystem) (c c' : Config) → get_config fs c ≡ ok c' → get_config fs' c' ≡ ok c'
get_config_idem fs fs' c c' h =
    let (a, r, ea, er, e) = get_config-eq-ok fs c c' h in
    let ga = parse_pat_of_token fs' a (parse_pat-IsFound fs c.admin_pat a ea).1 in
    let gr = parse_pat_of_token fs' r (parse_pat-IsFound fs c.read_pat r er).1 in
    rw e (unfold get_config in rw (ga, gr, or_default_idem c.github_pat_ns c.stateful_set_ns))
