-- ===== src/AddRunner/Pipeline/Registration.antt =====
-- The runs that the command starts (add-runner/src/getResources.ts).
use github_runner_autoscaler.Common.{
  ℕ, zero, suc, ◌≡◌, ◌≤◌, inl, inr, arith, err, refl, sym, ap, ◌∙◌, Text, List, [], ◌∷◌, ◌++◌,
  append_assoc, append-nil, none, some, Option-cases, ◌⊎◌, Result, ok, length,
}
use github_runner_autoscaler.AddRunner.Config.{Config}
use github_runner_autoscaler.AddRunner.Resources.{RunnerCreds, runner_name}
use github_runner_autoscaler.AddRunner.Runner.{
  Failure, run_failed, RunOptions, Files, Host, World, M, run_options, get_runner_creds, add_runner,
}
use github_runner_autoscaler.AddRunner.Runner.Laws.{
  AreCredentials, options_in, left_dirs, add_runner_dirs, add_runner-ok, add_runner_of_creds,
}
use github_runner_autoscaler.AddRunner.Pipeline.{register_from, ◌>>=◌, return}
use github_runner_autoscaler.AddRunner.Pipeline.Bind.{bind-ok, ok-injective, bind-err, bind_of_ok}
use mathlib.Core.Path.{subst, subst₂}

module _ (host : Host) (token : Text) (config : Config) where
  -- The options of the runs for the runners from `i` on, when the next temporary directory is
  -- number `made`.
  pub planned : ℕ → ℕ → ℕ → List RunOptions
  planned made i zero = []
  planned made i (suc rounds) =
      run_options host token config.owner config.repo (runner_name config.name i) config.labels
        (host.temp_dir made)
      ∷ planned (suc made) (suc i) rounds

  -- Each credential comes from what the run of the same place left.
  abbrev pub FromRuns : List RunOptions → List RunnerCreds → Type 0
  FromRuns [] [] = Unit
  FromRuns (o ∷ os) (c ∷ cs) =
      ((files : Files) × (host.run o ≡ some files) × AreCredentials files c) × FromRuns os cs
  FromRuns _ _ = ⊥

  abbrev start : ℕ → World → RunOptions
  start i w =
      options_in host token config.owner config.repo (runner_name config.name i) config.labels w

  abbrev first : ℕ → World → Result Failure RunnerCreds × World
  first i w =
      add_runner host token config.owner config.repo (runner_name config.name i) config.labels w

  first-ok :
      (i : ℕ) (w : World) (c : RunnerCreds)
      → (first i w).0 ≡ ok c
      → ((files : Files) × (host.run (start i w) ≡ some files) × AreCredentials files c)
        × ((first i w).1.open_dirs ≡ w.open_dirs)
  first-ok i w c h =
      let (files, ran, found) =
        add_runner-ok host token config.owner config.repo (runner_name config.name i) config.labels
          w c h in
      let dirs =
        (add_runner_dirs host token config.owner config.repo (runner_name config.name i)
          config.labels w).0 in
      ((files, ran, found), dirs ∙ ap (λ r. left_dirs r (host.temp_dir w.made) w.open_dirs) ran)

  -- What is known of a registration of runners from `i` on that ends in a world `v`.
  abbrev pub IsRegistered : ℕ → ℕ → World → List RunnerCreds → World → Type 0
  IsRegistered i rounds w creds v =
      (length creds ≡ rounds)
      × (v.runs ≡ w.runs ++ planned w.made i rounds)
      × (v.open_dirs ≡ w.open_dirs)
      × FromRuns (planned w.made i rounds) creds

  IsRegistered-cons :
      (i rounds : ℕ) (w : World) (c : RunnerCreds) (cs : List RunnerCreds) (v : World)
      → (first i w).0 ≡ ok c
      → IsRegistered (suc i) rounds (first i w).1 cs v
      → IsRegistered i (suc rounds) w (c ∷ cs) v
  unfolding planned
  IsRegistered-cons i rounds w c cs v h (count, ran, dirs, from) =
      let (_, more, made) =
        add_runner_dirs host token config.owner config.repo (runner_name config.name i)
          config.labels w in
      let (found, same) = first-ok i w c h in
      (
        ap suc count,
        ran
            ∙ rw (more, made)
                (append_assoc w.runs (start i w ∷ []) (planned (suc w.made) (suc i) rounds)),
        dirs ∙ same,
        (found, rw made at from),
      )

  -- If the loop over the runners returns, there are as many credentials as rounds, the runs are
  -- those of the runners in order, the open directories are the same as before, and the
  -- credentials at each place are the files that the run of that place left.
  pub register_from_ok :
      (i rounds : ℕ) (w : World) (creds : List RunnerCreds)
      → (register_from host token config i rounds w).0 ≡ ok creds
      → IsRegistered i rounds w creds (register_from host token config i rounds w).1
  unfolding register_from
  register_from_ok i zero w creds h =
      rw (← ok-injective h) (unfold planned in (refl, sym (append-nil w.runs), refl, tt))
  register_from_ok i (suc rounds) w creds h =
      let rest : RunnerCreds → M (List RunnerCreds) =
        λ c. register_from host token config (suc i) rounds >>= λ cs. return (c ∷ cs) in
      let (c, e, step) = bind-ok (first i) rest w h in
      let w' = (first i w).1 in
      let last : List RunnerCreds → M (List RunnerCreds) = λ cs. return (c ∷ cs) in
      let (cs, e', step') =
        bind-ok (register_from host token config (suc i) rounds) last w' (rw step at h) in
      let v = (register_from host token config (suc i) rounds w').1 in
      let same : c ∷ cs ≡ creds = ok-injective (sym (ap (λ r. r.0) (step ∙ step')) ∙ h) in
      subst₂ (λ ds u. IsRegistered i (suc rounds) w ds u) same (sym (ap (λ r. r.1) (step ∙ step')))
        (IsRegistered-cons i rounds w c cs v e (register_from_ok (suc i) rounds w' cs e'))

  -- The run left the five credential files.
  abbrev pub Succeeds : RunOptions → Type 0
  Succeeds o =
      (files : Files) × (c : RunnerCreds) × (host.run o ≡ some files) × AreCredentials files c

  -- The run was rejected, or a credential file that it left cannot be read; `x` says so.
  abbrev pub FailsWith : Failure → RunOptions → Type 0
  FailsWith x o =
      ((host.run o ≡ none) × (x ≡ run_failed))
      ⊎ ((files : Files) × (host.run o ≡ some files) × (get_runner_creds files ≡ err x))

  -- All runs but the last succeed, and the last one fails.
  abbrev pub LastFails : Failure → List RunOptions → Type 0
  LastFails x [] = ⊥
  LastFails x (o ∷ []) = FailsWith x o
  LastFails x (o ∷ next ∷ os) = Succeeds o × LastFails x (next ∷ os)

  -- Runner number `i + done` was the first one whose registration failed.
  abbrev pub StopsAfter : ℕ → ℕ → World → Failure → World → Type 0
  StopsAfter i rounds w x v =
      (done : ℕ) × (suc done ≤ rounds)
      × (v.runs ≡ w.runs ++ planned w.made i (suc done))
      × LastFails x (planned w.made i (suc done))

  first-err : (i : ℕ) (w : World) (x : Failure) → (first i w).0 ≡ err x → FailsWith x (start i w)
  unfolding add_runner
  first-err i w x h = elim (Option-cases (host.run (start i w))) [
    | inl rejected ↦ inl (rejected, ground (arith, rejected, h))
    | inr (files, ran) ↦ inr (files, ran, rw ran at h)
  ]

  StopsAfter-cons :
      (i rounds : ℕ) (w v : World) (c : RunnerCreds) (x : Failure)
      → (first i w).0 ≡ ok c
      → StopsAfter (suc i) rounds (first i w).1 x v
      → StopsAfter i (suc rounds) w x v
  unfolding planned
  StopsAfter-cons i rounds w v c x h (done, few, ran, last) =
      let (_, more, made) =
        add_runner_dirs host token config.owner config.repo (runner_name config.name i)
          config.labels w in
      let ((files, began, found), same) = first-ok i w c h in
      (
        suc done,
        omega arith,
        ran
            ∙ rw (more, made)
                (append_assoc w.runs (start i w ∷ []) (planned (suc w.made) (suc i) (suc done))),
        (
          (files, c, began, found),
          subst (λ m. LastFails x (planned m (suc i) (suc done))) made last,
        ),
      )

  -- If the loop over the runners fails, the runs are those of the runners before some runner of
  -- the loop and that runner's own, in order, and no later one was started: all runs but the last
  -- left the five credential files, and the last was rejected or left a file that cannot be read,
  -- which the failure says.
  pub register_from_err :
      (i rounds : ℕ) (w : World) (x : Failure)
      → (register_from host token config i rounds w).0 ≡ err x
      → StopsAfter i rounds w x (register_from host token config i rounds w).1
  unfolding register_from
  register_from_err i zero w x h = absurd (ground arith)
  register_from_err i (suc rounds) w x h =
      let rest : RunnerCreds → M (List RunnerCreds) =
        λ c. register_from host token config (suc i) rounds >>= λ cs. return (c ∷ cs) in
      elim (bind-err (first i) rest w h) [
        | inl (e, same) ↦ rw same (
            unfold planned in
            (
              0,
              omega arith,
              (add_runner_dirs host token config.owner config.repo (runner_name config.name i)
                  config.labels w).1,
              first-err i w x e,
            ))
        | inr (c, e, step) ↦
            let w' = (first i w).1 in
            let last : List RunnerCreds → M (List RunnerCreds) = λ cs. return (c ∷ cs) in
            elim (bind-err (register_from host token config (suc i) rounds) last w'
              (rw step at h)) [
                | inl (e', same) ↦ rw (ap (λ r. r.1) step ∙ same) (
                    StopsAfter-cons i rounds w (register_from host token config (suc i) rounds w').1
                      c x e (register_from_err (suc i) rounds w' x e'))
                | inr (cs, e', step') ↦ absurd (ground (arith, ap (λ r. r.0) (step ∙ step'), h))
              ]
      ]

  -- The loop over the runners returns credentials if every run leaves the five credential files.
  pub register_from_total :
      ((o : RunOptions)
        → (files : Files) × (host.run o ≡ some files)
          × ((c : RunnerCreds) × AreCredentials files c))
      → (i rounds : ℕ) (w : World)
      → (creds : List RunnerCreds) × ((register_from host token config i rounds w).0 ≡ ok creds)
  unfolding register_from
  register_from_total good i zero w = ([], refl)
  register_from_total good i (suc rounds) w =
      let (files, ran, found') = good (start i w) in
      let (c, found) = found' in
      let e =
        add_runner_of_creds host token config.owner config.repo (runner_name config.name i)
          config.labels w files c ran found in
      let w' = (first i w).1 in
      let (cs, e') = register_from_total good (suc i) rounds w' in
      let rest : RunnerCreds → M (List RunnerCreds) =
        λ c. register_from host token config (suc i) rounds >>= λ cs. return (c ∷ cs) in
      let last : List RunnerCreds → M (List RunnerCreds) = λ cs. return (c ∷ cs) in
      (
        c ∷ cs,
        ap (λ r. r.0)
            (bind_of_ok (first i) rest w e
              ∙ bind_of_ok (register_from host token config (suc i) rounds) last w' e'),
      )
