-- ===== src/AddRunner/Runner/Laws.antt =====
-- What one registration does (add-runner/src/runner.ts).
use github_runner_autoscaler.Common.{
  suc, ◌≡◌, ◌↔◌, refl, arith, Text, codes, text_eq_refl, List, [], ◌∷◌, ◌++◌, Option, none, some,
  ok, Option-cases, inl, inr,
}
use github_runner_autoscaler.AddRunner.Config.{file}
use github_runner_autoscaler.AddRunner.Resources.{RunnerCreds}
use github_runner_autoscaler.AddRunner.Runner.{
  RunOptions, Files, Host, World, get_runner_creds, add_runner, run_options,
}

-- The credentials are the content of the five files that the container leaves.
pub record AreCredentials (files : Files) (c : RunnerCreds) : Type 0 where
  pub rsaparams : files (codes ".credentials_rsaparams") ≡ some (file c.credentials_rsaparams)
  pub credentials : files (codes ".credentials") ≡ some (file c.credentials)
  pub runner : files (codes ".runner") ≡ some (file c.runner)
  pub private_key : files (codes "private.pem") ≡ some (file c.private_key)
  pub public_key : files (codes "public.pem") ≡ some (file c.public_key)

creds_sound :
    (files : Files) (c : RunnerCreds) → get_runner_creds files ≡ ok c → AreCredentials files c
unfolding get_runner_creds
creds_sound files c h = record {
  rsaparams = ground arith;
  credentials = ground arith;
  runner = ground arith;
  private_key = ground arith;
  public_key = ground arith;
}

creds_complete :
    (files : Files) (c : RunnerCreds) → AreCredentials files c → get_runner_creds files ≡ ok c
unfolding get_runner_creds
creds_complete files c a = ground arith

-- getRunnerCreds returns credentials exactly when all five files are there and are their contents.
pub get_runner_creds_iff :
    (files : Files) (c : RunnerCreds) → (get_runner_creds files ≡ ok c) ↔ AreCredentials files c
get_runner_creds_iff files c = (creds_sound files c, creds_complete files c)

-- The options of the run that `add_runner` starts in a world.
abbrev pub options_in : Host → Text → Text → Text → Text → Option Text → World → RunOptions
options_in host token owner repo name labels w =
    run_options host token owner repo name labels (host.temp_dir w.made)

abbrev pub left_dirs : Option Files → Text → List Text → List Text
left_dirs none dir ds = dir ∷ ds
left_dirs (some files) dir ds = ds

-- A call of addRunner starts exactly one run, with the options of its runner; the temporary
-- directory it makes is gone afterwards if the run resolves, also when credentials are missing,
-- and stays if the run rejects; no other directory is touched.
pub add_runner_dirs :
    (host : Host) (token owner repo name : Text) (labels : Option Text) (w : World)
    → ((add_runner host token owner repo name labels w).1.open_dirs
        ≡ left_dirs
            (host.run (options_in host token owner repo name labels w))
            (host.temp_dir w.made)
            w.open_dirs)
      × ((add_runner host token owner repo name labels w).1.runs
          ≡ w.runs ++ (options_in host token owner repo name labels w ∷ []))
      × ((add_runner host token owner repo name labels w).1.made ≡ suc w.made)
unfolding add_runner
add_runner_dirs host token owner repo name labels w =
    elim (Option-cases (host.run (options_in host token owner repo name labels w))) [
      | inl e ↦ rw e (refl, refl, refl)
      | inr (files, e) ↦ rw (e, text_eq_refl (host.temp_dir w.made)) (refl, refl, refl)
    ]

-- If addRunner returns credentials, its run resolved, and the credentials are the contents of the
-- five files that this run left.
pub add_runner-ok :
    (host : Host) (token owner repo name : Text) (labels : Option Text) (w : World)
    (c : RunnerCreds)
    → (add_runner host token owner repo name labels w).0 ≡ ok c
    → (files : Files) × (host.run (options_in host token owner repo name labels w) ≡ some files)
      × AreCredentials files c
unfolding add_runner
add_runner-ok host token owner repo name labels w c h =
    elim (Option-cases (host.run (options_in host token owner repo name labels w))) [
      | inl e ↦ absurd (ground (arith, e))
      | inr (files, e) ↦ (files, e, creds_sound files c (ground (arith, e)))
    ]

-- A run that leaves the five files is a registration.
pub add_runner_of_creds :
    (host : Host) (token owner repo name : Text) (labels : Option Text) (w : World) (files : Files)
    (c : RunnerCreds)
    → host.run (options_in host token owner repo name labels w) ≡ some files
    → AreCredentials files c
    → (add_runner host token owner repo name labels w).0 ≡ ok c
unfolding add_runner
add_runner_of_creds host token owner repo name labels w files c e a =
    rw e (creds_complete files c a)
