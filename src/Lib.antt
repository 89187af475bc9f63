-- ===== src/Lib.antt =====
-- github-runner-autoscaler: the command that registers GitHub runners and writes the Kubernetes
-- resources for them, and the metrics API server by which Kubernetes scales the runners.
--
-- The command reads its arguments into a configuration, asks GitHub for a registration token, runs
-- a container for each runner, which leaves the credentials of the registered runner in a
-- temporary directory, and writes a ScaledActionRunner, the secret with the token and the secret of
-- each runner as YAML documents. It is shipped as one file, examples/add-runner.js, which holds the
-- compiled sources of add-runner/src and the packages that they use.
--
-- Common: the native numbers, texts as lists of UTF-16 code units, lists and results.
-- AddRunner (add-runner/src):
--   Options     config.ts: the options, and the call of the argument parser.
--   Config      config.ts: `get_config` is what GetConfig does with the parsed arguments,
--               `parse_pat` is parsePat; the file system is a function from paths.
--   Encoding    `btoa` of resources.ts: Buffer's UTF-8 and base64; Encoding/RoundTrip decodes them.
--   Resources   resources.ts: the documents before YAML.stringify, which is a parameter.
--   Runner      runner.ts: `add_runner`, on a state (`World`) with the temporary directories, the
--               runs and the number of removed containers; Docker, tmp and the process are `Host`.
--   Pipeline    getResources.ts, githubRegistration.ts and index.ts: the loop over the runners, the
--               call of GitHub, and `main`, as a state monad with errors.
-- CommandLine (examples/add-runner.js):
--   Syntax, Definitions, Parser, Output
--               module 8098 (command-line-args): the forms of arguments, the option definitions,
--               the parser as a step function on its state, and the values it sets.
--   Booleans    module 5344 (ts-command-line-args): Boolean options that are given with a value.
--   Parse       module 6512 (ts-command-line-args): `parse` as a whole.
-- GitHub (examples/add-runner.js):
--   Hooks       modules 3108, 3862, 9676 and 7704 (before-after-hook), as methods on a state.
--   Auth        module 8426 (@octokit/auth-token): the authorization header.
--   Percent, Template, Variables, Endpoint, Merge
--               module 2995 (@octokit/endpoint): percent encoding, URL templates, the variables of
--               a URL, the request that options make, and the merging of options over defaults.
--   Routes      module 6752 (@octokit/plugin-rest-endpoint-methods): the routes of the scope
--               `actions`, and the methods that are made of routes.
--   Requests    modules 3986 (@octokit/request) and 3190 (@octokit/request-error): what a response
--               comes to. The network and JSON are parameters.
--   Client      modules 6461 (@octokit/core) and 7823 (its log): a call through the hooks of a client
--               with a token.
-- ApiServer (apiserver/pkg): the metrics API server, in Go.
--   World       what the server works in: the clock, random draws, the calls of GitHub, the samples of
--               metrics and the store; code is a state monad in which `none` is a panic.
--   Scaling     scaling/scaling.go: `get_output` and `calculate_forced_scale`; float64 is `Floats`.
--   State       state/: the states of clients, `StateProvider` (IStateProvider), and `in_memory`;
--               State/Memcached the provider in memcached. State/Refinement has the two maps that
--               a provider promises, and when a provider refines them.
--   Client      gitclient/client.go: the client that remembers the queue of a repository.
--   GithubClient
--               gitclient/github_client.go: the calls of GitHub, tokens as they are shown, and the
--               labels of workflows.
--   Config      config/config.go: the configuration from the flags.
--   Workflows   config/workflows.go: the runners, read from Kubernetes into client-go's store.
--   Labeling    labeling/labeling.go: the labels of a run, and the runs that a selector matches.
--   Host        host/host.go and health/health.go: `query_metric`, the start and the probes.
--   Provider    k8sprovider/provider.go: the metrics that Kubernetes asks for.
-- Operator (operator): the operator, in Go.
--   Resource    api/v1alpha1/scaledactionrunner_types.go: the resource, and its defaults (`setup`).
--   Generator   sargenerator/sargenerator.go: the volumes and the variables of a stateful set;
--               Generator/Create makes one (`generate_stateful_set`).
--   StatefulSet, ScaledObject, SecretsHash
--               controllers/scaledactionrunner_controller.go: the changes to an existing stateful set
--               (`get_scaled_set_updates`) and scaled object (`assign_scaled_object_props`), and
--               the hash of the secrets. `none` is a panic.
-- AddRunner meets GitHub in the registration token: `GitHub` in Pipeline stands for the call that
-- Client/Laws is about.
-- AddRunner meets CommandLine in Options: what `parse_arguments` returns is what `get_config` takes,
-- as a record.
-- AddRunner meets ApiServer in Labeling/Matching: the keys that the command writes into a selector are
-- keys of the labels that the server gives to runs.
-- AddRunner meets Operator in Generator/Volumes: the secrets that the command writes are the volumes of
-- the runners.
-- Within ApiServer a query of Provider runs one of Host, which goes through Client to GithubClient and
-- the provider of states, and then through Scaling and Labeling.
--
-- Loops are recursions on the list or the number that they run through. Only the decimal numeral of
-- Encoding runs on fuel, one unit more than the number, which is enough since each round divides it by
-- 10. The number of runners is a natural number, where JavaScript has a double. `Number(t)` is exact below
-- 2 ^ 53 on plain digits, and an opaque value on other texts. Promises are run in the order in which
-- they are awaited. The server's queries run one at a time, and a query ends with a panic or a result;
-- the loop that connects to memcached runs through its 120 attempts. Regular expressions are written out as functions on code units.
--
-- Not modelled: the other packages in examples/add-runner.js; printed messages and the usage guide;
-- errors of the output stream; of the server its log, the endless loops that resync and watch, and its
-- start; of the operator the calls of Kubernetes, the patches of stateful sets and the generator of the
-- core; the C# program (GithubRunnerRegistration) and the container images.
pub mod Common
pub mod AddRunner
pub mod CommandLine
pub mod GitHub
pub mod ApiServer
pub mod Operator
