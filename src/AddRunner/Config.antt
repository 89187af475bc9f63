-- ===== src/AddRunner/Config.antt =====
-- add-runner/src/config.ts: the command's configuration, behind the argument parser.
pub mod Laws
use github_runner_autoscaler.Common.{
  ℕ, ◌+◌, Text, codes, text_eq, is_digit, is_lower, is_upper, Bool, true, false, not, ◌&&◌, ◌||◌,
  List, [], ◌∷◌, ◌++◌, Option, none, some, Result, ok, err, ◌>>=◌, if◌then◌else◌, ◌==◌, leb, length,
  all,
}

pub record Config : Type 0 where
  pub name : Text
  pub read_pat : Text
  pub admin_pat : Text
  pub max_runners : ℕ
  pub owner : Text
  pub repo : Text
  pub labels : Option Text
  pub github_pat_ns : Option Text
  pub stateful_set_ns : Text
  pub output : Text
  pub help : Bool

-- What stands at a path. Reading anything but a file throws.
pub data Entry : Type 0 where
  file : Text → Entry
  directory : Entry

-- The file system as `fs` shows it: `none` where nothing exists.
abbrev pub FileSystem : Type 0
FileSystem = Text → Option Entry

pub data Error : Type 0 where
  invalid_pat : Text → Error
  unreadable : Text → Error

-- The white space that `String.prototype.trim` takes off.
abbrev pub is_space : ℕ → Bool
is_space c =
    (leb 9 c && leb c 13)
    || c == 32
    || c == 0xa0
    || c == 0x1680
    || (leb 0x2000 c && leb c 0x200a)
    || c == 0x2028
    || c == 0x2029
    || c == 0x202f
    || c == 0x205f
    || c == 0x3000
    || c == 0xfeff

unfoldable pub trim_start : Text → Text
trim_start [] = []
trim_start (c ∷ s) = let rest = trim_start s in if is_space c then rest else c ∷ s

-- A white character goes if nothing is left behind it.
unfoldable pub trim_end : Text → Text
trim_end [] = []
trim_end (c ∷ s) = elim (trim_end s) [ [] ↦ if is_space c then [] else c ∷ [] | d ∷ r ↦ c ∷ d ∷ r ]

unfoldable pub trim : Text → Text
trim s = trim_end (trim_start s)

-- `[a-z0-9_]` under the flag `i`
abbrev pub is_pat_char : ℕ → Bool
is_pat_char c = is_lower c || is_upper c || is_digit c || c == b'_'

-- `token.match(/^[a-z0-9_]{40}$/i)`
unfoldable pub is_pat : Text → Bool
is_pat token = length token == 40 && all is_pat_char token

abbrev pub exists : FileSystem → Text → Bool
exists fs path = elim (fs path) [ none ↦ false | some e ↦ true ]

abbrev pub read_entry : Text → Option Entry → Result Error Text
read_entry path none = err (unreadable path)
read_entry path (some directory) = err (unreadable path)
read_entry path (some (file content)) = ok content

-- `fs.readFileSync(path).toString()`
abbrev pub read_file : FileSystem → Text → Result Error Text
read_file fs path = read_entry path (fs path)

-- The token that the second test of `parsePat` sees.
unfoldable pub resolve_token : FileSystem → Text → Result Error Text
resolve_token fs token =
    if not (is_pat token) && exists fs token
    then (do content ← read_file fs token; ok (trim content))
    else ok token

-- The error names the token that was tested last.
abbrev accept : Text → Result Error Text
accept token = if is_pat token then ok token else err (invalid_pat token)

unfoldable pub parse_pat : FileSystem → Text → Result Error Text
parse_pat fs t = do token ← resolve_token fs (trim t); accept token

-- `!config.githubPatNs || config.githubPatNs == ""`
abbrev pub or_default : Option Text → Text → Text
or_default none d = d
or_default (some []) d = d
or_default (some (c ∷ s)) d = c ∷ s

-- `GetConfig` on what the argument parser returned.
unfoldable pub get_config : FileSystem → Config → Result Error Config
get_config fs config = do
  admin ← parse_pat fs config.admin_pat
  reader ← parse_pat fs config.read_pat
  ok (record config {
    admin_pat = admin;
    read_pat = reader;
    github_pat_ns = some (or_default config.github_pat_ns config.stateful_set_ns);
  })
