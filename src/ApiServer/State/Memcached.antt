-- ===== src/ApiServer/State/Memcached.antt =====
-- memcached_provider.go: the store in memcached. The client of memcached and encoding/json are
-- parameters.
pub mod Refinement
use github_runner_autoscaler.Common.{
  ℕ, ◌*◌, ◌≡◌, Bool, true, false, Option, none, some, List, [], ◌∷◌, ◌++◌, Text, text_eq, codes,
  length, take, ltb, Result, ok, err, if◌then◌else◌,
}
use github_runner_autoscaler.ApiServer.State.{
  ClientState, WorkflowInfos, StateProvider, new_client_state,
}

pub data CacheError : Type 0 where
  not_found : CacheError
  failed : Text → CacheError

-- mc.Client: a value by its key; a key, its value and the seconds until it expires.
pub record Cache (S : Type 0) : Type 0 where
  pub get : Text → S → Result CacheError Text × S
  pub set : Text → Text → ℕ → S → Option CacheError × S
  pub message : CacheError → Text

-- `json.Marshal` and `json.Unmarshal` at the two types that are stored; an error is its text.
pub record Json : Type 0 where
  pub marshal_state : ClientState → Result Text Text
  pub unmarshal_state : Text → Result Text ClientState
  pub marshal_infos : WorkflowInfos → Result Text Text
  pub unmarshal_infos : Text → Result Text WorkflowInfos

abbrev pub state_cache_time : ℕ
state_cache_time = 60 * 60

abbrev pub wf_info_cache_time : ℕ
wf_info_cache_time = 5 * 60

abbrev unreachable : Text
unreachable = codes "memcache server unreachable. aborting to avoid potential rate limitting. "

module _ {S : Type 0} (cache : Cache S) (json : Json) where
  -- What became of the read value: a value that does not parse is an error as well.
  unfoldable pub decode_state : Text → Result CacheError Text → Result Text ClientState
  decode_state key (err not_found) = ok (new_client_state key)
  decode_state key (err (failed e)) = err (unreachable ++ cache.message (failed e))
  decode_state key (ok val) = elim (json.unmarshal_state val) [
    | ok s ↦ ok s
    | err e ↦ err (unreachable ++ e)
  ]

  unfoldable pub decode_infos : Result CacheError Text → Result Text (Option WorkflowInfos)
  decode_infos (err not_found) = ok none
  decode_infos (err (failed e)) = err (cache.message (failed e))
  decode_infos (ok val) = elim (json.unmarshal_infos val) [
    | ok infos ↦ ok (some infos)
    | err e ↦ err e
  ]

  -- The error of storing a value, which may be one of encoding it.
  unfoldable pub save : Text → ℕ → Result Text Text → S → Option Text × S
  save key expiry (err e) st = (some e, st)
  save key expiry (ok val) st =
      let (r, st') = cache.set key val expiry st in
      (elim r [ none ↦ none | some e ↦ some (cache.message e) ], st')

  unfoldable pub memcached : StateProvider S
  unfolding decode_state decode_infos save
  memcached = record {
    get_state = λ key st. let (r, st') = cache.get key st in (decode_state key r, st');
    set_state = λ key s st. save key state_cache_time (json.marshal_state s) st;
    get_workflow_info = λ key st. let (r, st') = cache.get key st in (decode_infos r, st');
    set_workflow_info = λ key infos st. save key wf_info_cache_time (json.marshal_infos infos) st;
  }

-- The password of the message about a failed connection.
unfoldable pub shown_password : Text → Text
shown_password password =
    if ltb 3 (length password) then take 3 password ++ codes "******" else password

-- `NewMemcachedStateProvider`: the password may come from the environment, and the connection is tried with a random key.
unfoldable pub new_memcached :
    {S : Type 0}
    → (Text → Text → Text → Cache S)
    → Json
    → (servers username arg_password environment random : Text) → S
    → Result Text (StateProvider S) × S
unfolding shown_password
new_memcached connect json servers username arg_password environment random st =
    let password = if text_eq arg_password [] then environment else arg_password in
    let cache = connect servers username password in
    let (r, st') = cache.set (codes "test_" ++ random) (codes "ok") 1 st in
    (
      elim r [
        | none ↦ ok (memcached cache json)
        | some e ↦ err (
            codes "Could not connect to cache with '"
            ++ (servers
                ++ (codes "' '"
                    ++ (username
                        ++ (codes "' '"
                            ++ (shown_password password ++ (codes "': " ++ cache.message e)))))))
      ],
      st',
    )
