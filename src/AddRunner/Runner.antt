-- ===== src/AddRunner/Runner.antt =====
-- add-runner/src/runner.ts: registering one runner in a container, and reading what it leaves in a
-- temporary directory. Docker, the temporary directories and the process come as parameters.
pub mod Laws
use github_runner_autoscaler.Common.{
  ℕ, suc, ◌+◌, Text, codes, text_eq, Bool, true, false, List, [], ◌∷◌, ◌++◌, Option, none, some,
  Result, ok, err, ◌>>=◌, if◌then◌else◌, ◌==◌,
}
use github_runner_autoscaler.AddRunner.Config.{Entry, file, directory, Error}
use github_runner_autoscaler.AddRunner.Encoding.{decimal}
use github_runner_autoscaler.AddRunner.Resources.{RunnerCreds, used_labels}

-- Why the command ends early.
pub data Failure : Type 0 where
  bad_config : Error → Failure
  no_registration_token : Failure
  pull_failed : Failure
  run_failed : Failure
  missing_output : Failure
  unreadable_output : Text → Failure

-- The arguments of `docker.run`: the image, the volumes, the environment and the bindings.
pub record RunOptions : Type 0 where
  pub image : Text
  pub volumes : List Text
  pub env : List Text
  pub binds : List Text

-- What a directory holds, by file name.
abbrev pub Files : Type 0
Files = Text → Option Entry

-- What the command does not implement: `docker.pull` and `docker.run` (`none` where they reject;
-- else what the container left in the directory that is bound to /config_output), the name of the
-- n-th directory that `tmp.dirSync` makes, and the process.
pub record Host : Type 0 where
  pub pull : Text → Bool
  pub run : RunOptions → Option Files
  pub temp_dir : ℕ → Text
  pub linux : Bool
  pub uid : ℕ

-- The directories made so far, those that still exist, the runs in order, and how many containers
-- were asked to be removed.
pub record World : Type 0 where
  pub made : ℕ
  pub open_dirs : List Text
  pub runs : List RunOptions
  pub removed : ℕ

abbrev pub M : Type 0 → Type 0
M A = World → Result Failure A × World

abbrev pub image : Text
image = codes "joeshearn/action-runner-sideloaded-config"

-- `${overwriteOutputUid || ""}`
abbrev pub uid_text : Host → Text
uid_text host = if host.linux then (if host.uid == 0 then [] else decimal host.uid) else []

abbrev pub label_env : Option Text → List Text
label_env none = []
label_env (some l) = (codes "LABELS=" ++ l) ∷ []

pub run_options : Host → Text → Text → Text → Text → Option Text → Text → RunOptions
run_options host token owner repo runner_name labels dir = record {
  image = image;
  volumes = codes "/var/run/docker.sock" ∷ codes "/config_output" ∷ [];
  env =
      ((codes "REPO_URL=https://github.com/" ++ (owner ++ (b'/' ∷ repo)))
        ∷ (codes "RUNNER_NAME=" ++ runner_name)
        ∷ (codes "RUNNER_TOKEN=" ++ token)
        ∷ codes "RETURN_CONFIG=1"
        ∷ (codes "OVERWRITE_OUTPUT_UID=" ++ uid_text host)
        ∷ [])
      ++ label_env (used_labels labels);
  binds = codes "/var/run/docker.sock:/var/run/docker.sock" ∷ (dir ++ codes ":/config_output") ∷ [];
}

-- `getCred`
abbrev pub read_cred : Text → Option Entry → Result Failure Text
read_cred name none = err missing_output
read_cred name (some directory) = err (unreadable_output name)
read_cred name (some (file content)) = ok content

abbrev pub get_cred : Files → Text → Result Failure Text
get_cred files name = read_cred name (files name)

-- `getRunnerCreds`; its promise is rejected by the first file that is missing.
pub get_runner_creds : Files → Result Failure RunnerCreds
get_runner_creds files = do
  rsaparams ← get_cred files (codes ".credentials_rsaparams")
  credentials ← get_cred files (codes ".credentials")
  runner ← get_cred files (codes ".runner")
  private_key ← get_cred files (codes "private.pem")
  public_key ← get_cred files (codes "public.pem")
  ok (record {
    credentials_rsaparams = rsaparams;
    credentials = credentials;
    runner = runner;
    private_key = private_key;
    public_key = public_key;
  })

abbrev pub remove_dir : Text → List Text → List Text
remove_dir d [] = []
remove_dir d (e ∷ ds) = if text_eq e d then ds else e ∷ remove_dir d ds

-- `setup`
unfoldable pub setup : Host → M (Unit {0})
setup host w = (if host.pull image then ok tt else err pull_failed, w)

-- After the run: the container is removed, the files are read, the directory is removed, and only
-- then a missing file ends the call.
abbrev pub finish_run : Text → Option Files → M RunnerCreds
finish_run dir none w = (err run_failed, w)
finish_run dir (some files) w = (
  get_runner_creds files,
  record w { open_dirs = remove_dir dir w.open_dirs; removed = suc w.removed },
)

-- `addRunner`
unfoldable pub add_runner : Host → Text → Text → Text → Text → Option Text → M RunnerCreds
add_runner host token owner repo runner_name labels w =
    let dir = host.temp_dir w.made in
    let options = run_options host token owner repo runner_name labels dir in
    finish_run dir (host.run options) (record w {
      made = suc w.made;
      open_dirs = dir ∷ w.open_dirs;
      runs = w.runs ++ (options ∷ []);
    })
