-- ===== src/ApiServer/Workflows.antt =====
-- apiserver/pkg/config/workflows.go: the configurations of the runners, read from Kubernetes into a
-- store. The Kubernetes API and client-go's store are parameters.
pub mod Laws
use github_runner_autoscaler.Common.{
  ℕ, suc, ◌%◌, ◌≡◌, Bool, true, false, Option, none, some, List, [], ◌∷◌, ◌++◌, ◌==◌, Text, codes,
  text_eq, get_elem?, length, Result, ok, err, if◌then◌else◌,
}
use github_runner_autoscaler.ApiServer.Scaling.{Floats, Scaling, Spec, new_scaling}

-- ScaledActionRunner of the operator.
pub record Crd : Type 0 where
  pub name : Text
  pub namespace : Text
  pub spec : Spec

pub record GithubWorkflowConfig (F : Floats) : Type 0 where
  pub name : Text
  pub namespace : Text
  pub token : Text
  pub owner : Text
  pub repository : Text
  pub scaling : Scaling F

-- What the Kubernetes API answers: the data of a secret by its namespace and name, in the order in
-- which the Go map is visited, and the runners of a namespace.
pub record Kubernetes : Type 0 where
  pub secret : Text → Text → Result Text (List (Text × Text))
  pub runners : Text → Result Text (List Crd)

-- What `GetByKey` returns.
pub record Found (V : Type 0) : Type 0 where
  pub item : Option V
  pub error : Option Text

-- `cache.Store` of client-go, with values `V`.
pub record CacheStore (C V : Type 0) : Type 0 where
  pub replace : List V → C → C
  pub add : V → C → C
  pub update : V → C → C
  pub delete : V → C → C
  pub list : C → List V
  pub get_by_key : Text → C → Found V

-- `strings.Index(k, "token") == 0`
abbrev pub has_prefix : Text → Text → Bool
has_prefix [] s = true
has_prefix (_ ∷ _) [] = false
has_prefix (p ∷ ps) (c ∷ s) = if c == p then has_prefix ps s else false

-- The types of the events of a watch.
pub data Change : Type 0 where
  added modified deleted other : Change

pub record Event : Type 0 where
  pub change : Change
  pub kind : Text
  pub runner : Crd

-- The values of the fields whose names begin with `token`.
unfoldable pub token_fields : List (Text × Text) → List Text
token_fields [] = []
token_fields ((k, v) ∷ fields) =
    if has_prefix (codes "token") k then v ∷ token_fields fields else token_fields fields

-- One of the fields, by the drawn number.
unfoldable pub pick_token : ℕ → Text → Text → List Text → Result Text Text
pick_token random name namespace fields = elim (get_elem? fields (random % length fields)) [
  | some t ↦ ok t
  | none ↦ err (
      codes "no fields begining with 'token' found in secret "
      ++ (name ++ (codes " in namespace " ++ (namespace ++ codes "."))))
]

-- `getToken`, with the drawn number.
unfoldable pub get_token : Kubernetes → ℕ → Text → Text → Result Text Text
unfolding token_fields pick_token
get_token k random name namespace = elim (k.secret namespace name) [
  | err e ↦ err (
      codes "error reading secret "
      ++ (name ++ (codes " in namespace " ++ (namespace ++ (codes ". " ++ e)))))
  | ok fields ↦ pick_token random name namespace (token_fields fields)
]

-- The scale factor of a runner, or the default one.
abbrev pub factor_of : Spec → Text
factor_of spec = elim spec.scale_factor [ none ↦ codes "0.8" | some t ↦ t ]

-- The namespaces of the clients: the empty one stands for all of them.
unfoldable pub client_namespaces : List Text → List Text
client_namespaces [] = [] ∷ []
client_namespaces (ns ∷ more) = ns ∷ more

-- The runners of all clients; a client whose list fails is skipped.
unfoldable pub list_runners : Kubernetes → List Text → List Crd
list_runners k [] = []
list_runners k (ns ∷ more) = elim (k.runners ns) [
  | err e ↦ list_runners k more
  | ok items ↦ items ++ list_runners k more
]

module _ (F : Floats) where
  unfoldable pub workflow_from : Kubernetes → ℕ → Text → Crd → Result Text (GithubWorkflowConfig F)
  unfolding get_token
  workflow_from k random pat_namespace crd =
      let namespace = if text_eq pat_namespace [] then crd.namespace else pat_namespace in
      elim (get_token k random crd.spec.github_token_secret namespace) [
        | err e ↦ err e
        | ok token ↦ ok record {
          name = crd.name;
          namespace = crd.namespace;
          token = token;
          owner = crd.spec.owner;
          repository = crd.spec.repo;
          scaling = new_scaling F crd.spec (factor_of crd.spec);
        }
      ]

  -- What is to be cached, and whether the old entries are purged, after the runners from the i-th on.
  unfoldable pub to_cache :
      Kubernetes → (ℕ → ℕ) → Text → ℕ → List Crd → List (GithubWorkflowConfig F) × Bool
  unfolding workflow_from
  to_cache k random pat_namespace i [] = ([], true)
  to_cache k random pat_namespace i (r ∷ runners) =
      let (cached, purge_old) = to_cache k random pat_namespace (suc i) runners in
      elim (workflow_from k (random i) pat_namespace r) [
        | err e ↦ (cached, false)
        | ok wf ↦ (wf ∷ cached, purge_old)
      ]

  module _ {C : Type 0} (store : CacheStore C (GithubWorkflowConfig F)) where
    unfoldable pub update_all : List (GithubWorkflowConfig F) → C → C
    update_all [] c = c
    update_all (wf ∷ wfs) c = update_all wfs (store.update wf c)

    unfoldable pub copy_all_workflows : Kubernetes → (ℕ → ℕ) → Text → List Text → C → C
    unfolding client_namespaces list_runners to_cache update_all
    copy_all_workflows k random pat_namespace runner_namespaces c =
        let runners = list_runners k (client_namespaces runner_namespaces) in
        let (cached, purge_old) = to_cache k random pat_namespace 0 runners in
        if purge_old then store.replace cached c else update_all cached c

    abbrev pub get_all_workflows : C → List (GithubWorkflowConfig F)
    get_all_workflows c = store.list c

    -- An entry that is not found is no error, whatever the store reports besides.
    unfoldable pub get_workflow : Text → C → Result Text (Option (GithubWorkflowConfig F))
    get_workflow key c =
        let found = store.get_by_key key c in
        elim found.item [
          | none ↦ ok none
          | some wf ↦ elim found.error [ none ↦ ok (some wf) | some e ↦ err e ]
        ]

    -- An event of a watch: its type, the kind of its object, and the runner.
    unfoldable pub handle_event : Kubernetes → ℕ → Text → Event → C → C
    unfolding workflow_from
    handle_event k random pat_namespace e c =
        if text_eq e.kind (codes "ScaledActionRunner")
        then elim (workflow_from k random pat_namespace e.runner) [
          | err _ ↦ c
          | ok wf ↦ elim e.change [
            | added ↦ store.add wf c
            | modified ↦ store.update wf c
            | deleted ↦ store.delete wf c
            | other ↦ c
          ]
        ]
        else c
