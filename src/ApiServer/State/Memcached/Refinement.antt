-- ===== src/ApiServer/State/Memcached/Refinement.antt =====
-- memcached_provider.go: the store in memcached keeps the promise of IStateProvider, while the cache
-- answers and nothing in it has expired. Names of clients and names of repositories share one
-- space of keys; they differ by the slash of `owner/repository`.
use github_runner_autoscaler.Common.{
  ℕ, ◌≡◌, refl, Bool, true, false, Option, none, some, List, ◌==◌, any, All, Text, text_eq,
  text_eq_iff, Result, ok, err, if◌then◌else◌, arith,
}
use github_runner_autoscaler.ApiServer.State.Refinement.{
  Op, Maps, specified, perform, run, replay, fresh, Refines, run-Refines,
}
use github_runner_autoscaler.ApiServer.State.Refinement.Op.{
  get_state, set_state, get_workflow_info, set_workflow_info,
}
use github_runner_autoscaler.ApiServer.State.Memcached.{
  Cache, CacheError, not_found, Json, memcached, state_cache_time, wf_info_cache_time, decode_state,
  decode_infos,
}

abbrev pub reply_of : Option Text → Result CacheError Text
reply_of none = err not_found
reply_of (some v) = ok v

-- The cache is reached, and keeps what was set.
pub record Keeps {S : Type 0} (cache : Cache S) (contents : S → Text → Option Text) : Type 0 where
  pub get_reply : (k : Text) (st : S) → (cache.get k st).0 ≡ reply_of (contents st k)
  pub contents-get : (k n : Text) (st : S) → contents (cache.get k st).1 n ≡ contents st n
  pub set_reply : (k v : Text) (e : ℕ) (st : S) → (cache.set k v e st).0 ≡ none
  pub contents-set :
      (k v n : Text) (e : ℕ) (st : S)
      → contents (cache.set k v e st).1 n ≡ (if text_eq k n then some v else contents st n)

abbrev pub has_slash : Text → Bool
has_slash = any (λ c. c == b'/')

module _ {S : Type 0} (cache : Cache S) (json : Json) (contents : S → Text → Option Text) where
  -- States stand under keys without a slash and infos under keys with one, and what is stored can
  -- be encoded and read back.
  abbrev pub KeysApart : Op → Type 0
  KeysApart (get_state k) = has_slash k ≡ false
  KeysApart (set_state k s) =
      (has_slash k ≡ false)
      × ((t : Text) × (json.marshal_state s ≡ ok t) × (json.unmarshal_state t ≡ ok s))
  KeysApart (get_workflow_info k) = has_slash k ≡ true
  KeysApart (set_workflow_info k i) =
      (has_slash k ≡ true)
      × ((t : Text) × (json.marshal_infos i ≡ ok t) × (json.unmarshal_infos t ≡ ok i))

  pub record CacheShows (st : S) (m : Maps) : Type 0 where
    pub states_held :
        (k : Text)
        → has_slash k ≡ false
        → decode_state cache json k (reply_of (contents st k)) ≡ ok (m.states k)
    pub infos_held :
        (k : Text)
        → has_slash k ≡ true
        → decode_infos cache json (reply_of (contents st k)) ≡ ok (m.infos k)

  module _ (keeps : Keeps cache contents) where
    memcached_step :
        (op : Op) (st : S) (m : Maps)
        → KeysApart op
        → CacheShows st m
        → ((perform (memcached cache json) op st).0 ≡ ok (specified op m).0)
          × CacheShows (perform (memcached cache json) op st).1 (specified op m).1
    unfolding memcached
    memcached_step (get_state k) st m slash h = (
      rw (keeps.get_reply k st, h.states_held k slash) refl,
      record {
        states_held = λ n hn. rw (keeps.contents-get k n st) (h.states_held n hn);
        infos_held = λ n hn. rw (keeps.contents-get k n st) (h.infos_held n hn);
      },
    )
    memcached_step (get_workflow_info k) st m slash h = (
      rw (keeps.get_reply k st, h.infos_held k slash) refl,
      record {
        states_held = λ n hn. rw (keeps.contents-get k n st) (h.states_held n hn);
        infos_held = λ n hn. rw (keeps.contents-get k n st) (h.infos_held n hn);
      },
    )
    memcached_step (set_state k s) st m (slash, (t, encoded, back)) h = (
      rw (encoded, keeps.set_reply k t state_cache_time st) refl,
      record {
        states_held = λ n hn.
            rw (encoded, keeps.contents-set k t n state_cache_time st)
              (ground (arith, text_eq_iff k n, h.states_held n hn, back));
        infos_held = λ n hn.
            rw (encoded, keeps.contents-set k t n state_cache_time st)
              (ground (arith, text_eq_iff k n, h.infos_held n hn));
      },
    )
    memcached_step (set_workflow_info k i) st m (slash, (t, encoded, back)) h = (
      rw (encoded, keeps.set_reply k t wf_info_cache_time st) refl,
      record {
        states_held = λ n hn.
            rw (encoded, keeps.contents-set k t n wf_info_cache_time st)
              (ground (arith, text_eq_iff k n, h.states_held n hn));
        infos_held = λ n hn.
            rw (encoded, keeps.contents-set k t n wf_info_cache_time st)
              (ground (arith, text_eq_iff k n, h.infos_held n hn, back));
      },
    )

    pub memcached-Refines : Refines (memcached cache json) CacheShows KeysApart
    memcached-Refines = record { step = memcached_step }

    -- Any run of calls of the memcached provider on an empty cache replies as a map of states, in
    -- which an unknown client has a new state, and a map of workflow infos do, while the cache is
    -- reached and keeps what was set; states have keys without a slash and infos keys with one,
    -- and what is saved can be encoded and read back.
    pub run-memcached :
        (ops : List Op) (st : S)
        → All KeysApart ops
        → ((k : Text) → contents st k ≡ none)
        → run (memcached cache json) ops st ≡ replay ops fresh
    unfolding decode_state decode_infos
    run-memcached ops st apart empty =
        run-Refines (memcached cache json) memcached-Refines ops st fresh apart
          (record { states_held = λ k _. rw (empty k) refl; infos_held = λ k _. rw (empty k) refl })
