-- ===== src/ApiServer/Config.antt =====
-- apiserver/pkg/config/config.go: the configuration of the server from its flags.
pub mod Laws
use github_runner_autoscaler.Common.{
  ℕ, ◌≡◌, Bool, true, false, ◌&&◌, not, Option, none, some, List, [], ◌∷◌, ◌++◌, Text, codes, join,
  split, text_eq, Result, ok, err, if◌then◌else◌,
}
use github_runner_autoscaler.Common.Int.{ℤ}

-- `ArrayFlags`: each use of the flag adds a value.
abbrev pub ArrayFlags : Type 0
ArrayFlags = List Text

unfoldable pub set_flag : ArrayFlags → Text → ArrayFlags
set_flag i value = i ++ (value ∷ [])

abbrev pub flags_text : ArrayFlags → Text
flags_text i = join (b',' ∷ []) i

-- The values of the flags, as the package flag leaves them; those that may be missing are options.
pub record Flags : Type 0 where
  pub memcached_servers : Text
  pub memcached_user : Text
  pub memcached_pass : Text
  pub cache_window : Option Text
  pub cache_window_when_empty : Option Text
  pub resync_interval : Option Text
  pub kubeconfig : Text
  pub github_pat_namespace : Option Text
  pub runner_namespaces : ArrayFlags
  pub all_ns : Bool
  pub in_cluster_config : Bool

pub record ServerConfig : Type 0 where
  pub cache_window : ℤ
  pub cache_window_when_empty : ℤ
  pub resync_interval : ℤ
  pub memcached_servers : Text
  pub memcached_user : Text
  pub memcached_pass : Text
  pub github_pat_namespace : Text
  pub all_ns : Bool
  pub in_cluster_config : Bool
  pub kubeconfig : Text
  pub runner_namespaces : List Text

abbrev is_empty : List Text → Bool
is_empty [] = true
is_empty (_ ∷ _) = false

unfoldable pub validate_args : List Text → Bool → Option Text
validate_args runner_namespaces all_ns =
    if is_empty runner_namespaces && not all_ns
    then some (codes "Specify --namespace or --all-namespaces")
    else if not (is_empty runner_namespaces) && all_ns
    then some (codes "Can't specify --namespaces and --all-namespaces")
    else none

abbrev text_or_empty : Option Text → Text
text_or_empty none = []
text_or_empty (some t) = t

-- `time.ParseDuration` is a parameter.
module _ (parse_duration_text : Text → Option ℤ) where
  unfoldable pub parse_duration : Option Text → ℤ → ℤ
  parse_duration none value = value
  parse_duration (some t) value = elim (parse_duration_text t) [ none ↦ value | some d ↦ d ]

  -- The namespaces that are split first are overwritten by the values of the flag.
  unfoldable pub configured : Flags → ServerConfig → ServerConfig
  unfolding parse_duration
  configured flags c =
      let split_first : ServerConfig = record c {
        runner_namespaces = elim (flags_text flags.runner_namespaces) [
          | [] ↦ []
          | u ∷ us ↦ split b',' (u ∷ us)
        ];
      } in
      record split_first {
        memcached_servers = flags.memcached_servers;
        memcached_user = flags.memcached_user;
        memcached_pass = flags.memcached_pass;
        resync_interval = parse_duration flags.resync_interval c.resync_interval;
        cache_window = parse_duration flags.cache_window c.cache_window;
        cache_window_when_empty =
            parse_duration flags.cache_window_when_empty c.cache_window_when_empty;
        all_ns = flags.all_ns;
        in_cluster_config = flags.in_cluster_config;
        kubeconfig = flags.kubeconfig;
        github_pat_namespace = text_or_empty flags.github_pat_namespace;
        runner_namespaces = flags.runner_namespaces;
      }

  unfoldable pub setup_config : Flags → ServerConfig → Result Text ServerConfig
  unfolding configured validate_args
  setup_config flags c =
      let c' = configured flags c in
      elim (validate_args c'.runner_namespaces c'.all_ns) [ some e ↦ err e | none ↦ ok c' ]
