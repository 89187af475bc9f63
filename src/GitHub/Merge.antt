-- ===== src/GitHub/Merge.antt =====
-- Merging the options of a call over defaults (examples/add-runner.js, module 2995). A value is
-- undefined, a text, an object, or something else that is not looked into (null, a number, a Boolean,
-- an array). Keys are ASCII. The names of previews, which are arrays, are not merged here.
pub mod Laws
use github_runner_autoscaler.Common.{
  ℕ, Text, codes, text_eq, Bool, true, false, List, [], ◌∷◌, map, Option, none, some, if◌then◌else◌,
  split,
}
use github_runner_autoscaler.GitHub.Endpoint.{lower_char}

mutual
  pub data Value : Type 0 where
    undefined : Value
    text : Text → Value
    opaque : ℕ → Value
    object : Fields → Value

  pub data Fields : Type 0 where
    end : Fields
    field : Text → Value → Fields → Fields

unfoldable pub find_field : Text → Fields → Option Value
find_field k end = none
find_field k (field j v fs) = if text_eq j k then some v else find_field k fs

unfoldable pub set_field : Text → Value → Fields → Fields
set_field k v end = field k v end
set_field k v (field j w fs) = if text_eq j k then field j v fs else field j w (set_field k v fs)

-- What `Object.assign({}, value)` copies; a text counts as one without characters here.
abbrev pub fields_of : Value → Fields
fields_of (object fs) = fs
fields_of v = end

-- `mergeDeep`: the fields of `options`, one after the other, over `result`, which begins as a copy of
-- the defaults.
unfoldable mutual
  unfolding find_field set_field

  pub merge_fields : Fields → Fields → Fields → Fields
  merge_fields defaults result end = result
  merge_fields defaults result (field k v fs) =
      merge_fields defaults (set_field k (merge_value (find_field k defaults) v) result) fs

  pub merge_value : Option Value → Value → Value
  merge_value none v = v
  merge_value (some d) undefined = undefined
  merge_value (some d) (text t) = text t
  merge_value (some d) (opaque n) = opaque n
  merge_value (some d) (object fs) = object (merge_fields (fields_of d) (fields_of d) fs)

unfoldable pub merge_deep : Fields → Fields → Fields
merge_deep defaults options = merge_fields defaults defaults options

-- `Object.assign(target, source)`
unfoldable pub assign_fields : Fields → Fields → Fields
assign_fields target end = target
assign_fields target (field k v fs) = assign_fields (set_field k v target) fs

-- `removeUndefinedProperties`
unfoldable pub remove_undefined_properties : Fields → Fields
remove_undefined_properties end = end
remove_undefined_properties (field k undefined fs) = remove_undefined_properties fs
remove_undefined_properties (field k (text t) fs) =
    field k (text t) (remove_undefined_properties fs)
remove_undefined_properties (field k (opaque n) fs) =
    field k (opaque n) (remove_undefined_properties fs)
remove_undefined_properties (field k (object gs) fs) =
    field k (object gs) (remove_undefined_properties fs)

-- `lowercaseKeys` on an object.
unfoldable pub lowercase_from : Fields → Fields → Fields
lowercase_from result end = result
lowercase_from result (field k v fs) = lowercase_from (set_field (map lower_char k) v result) fs

abbrev pub headers_of : Option Value → Fields
headers_of (some (object fs)) = fs
headers_of v = end

abbrev pub headers_key : Text
headers_key = codes "headers"

-- The options with the names of their headers in lower case, and without undefined properties.
unfoldable pub normalise : Fields → Fields
normalise options = remove_undefined_properties (
    set_field headers_key
      (object (
        remove_undefined_properties
          (lowercase_from end (headers_of (find_field headers_key options)))))
      options)

-- The options that a route stands for: `METHOD url`, or a URL alone.
abbrev pub route_fields : List Text → Fields
route_fields (method ∷ ((c ∷ url) ∷ more)) =
    field (codes "method") (text method) (field (codes "url") (text (c ∷ url)) end)
route_fields (url ∷ more) = field (codes "url") (text url) end
route_fields [] = end

pub data Route : Type 0 where
  named : Text → Route
  given : Fields → Route

-- `merge`
unfoldable pub merge : Fields → Route → Fields → Fields
merge defaults (named route) options =
    merge_deep defaults (normalise (assign_fields (route_fields (split b' ' route)) options))
merge defaults (given route) options = merge_deep defaults (normalise route)
