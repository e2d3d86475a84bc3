-- ===== src/BasicAuth/Config.antt =====
-- extensions/basic_auth/plugin.{h,cc}: the rules and their extraction from the configuration.
use mathlib.Core.Option
use wasm_extensions.Prelude.{
  ℕ, ◌+◌, Bool, true, false, not, Option, none, some, is_some, List, [], ◌∷◌, ◌++◌, ◌>>=◌, length,
  take, drop, ◌-◌, if◌then◌else◌, ◌==◌, is_empty, Bytes, codes, bytes_eq,
}
use wasm_extensions.Base64.{encode, returned, overrun, assertion_failed, decode_without_padding}
use wasm_extensions.Json.{JsonLib, is_ok as read_ok, json_parse, value_as_string, array_iterate}
use wasm_extensions.BasicAuth.Strings.{AbslStrings}
use wasm_extensions.BasicAuth.Find.{insert}

-- `MATCH_TYPE`
pub data MatchType : Type 0 where
  prefix exact suffix : MatchType

-- `BasicAuthConfigRule`; `path_pattern` is `none` where it has none of the enumeration's values,
-- which is possible as long as nothing is assigned to it.
pub record BasicAuthConfigRule : Type 0 where
  pub request_path : Bytes
  pub path_pattern : Option MatchType
  pub hosts : List (MatchType × Bytes)
  pub encoded_credentials : List Bytes

-- `basic_auth_configuration_` and `realm_`.
pub record Root : Type 0 where
  pub basic_auth_configuration : Bytes → Option (List BasicAuthConfigRule)
  pub realm : Bytes

abbrev pub new_root : Root
new_root = record { basic_auth_configuration = λ method. none; realm = codes "istio" }

abbrev pub empty_rule : Option MatchType → BasicAuthConfigRule
empty_rule indeterminate = record {
  request_path = [];
  path_pattern = indeterminate;
  hosts = [];
  encoded_credentials = [];
}

-- `(*rules)[method].push_back(rule)`
unfoldable pub push_rule :
    BasicAuthConfigRule
    → (Bytes → Option (List BasicAuthConfigRule))
    → Bytes
    → Bytes
    → Option (List BasicAuthConfigRule)
push_rule rule rules method key =
    if bytes_eq method key then some (Option.get_or (rules key) [] ++ rule ∷ []) else rules key

unfoldable pub push_rules :
    BasicAuthConfigRule
    → List Bytes
    → (Bytes → Option (List BasicAuthConfigRule))
    → Bytes
    → Option (List BasicAuthConfigRule)
push_rules rule [] rules = rules
push_rules rule (method ∷ methods) rules = push_rules rule methods (push_rule rule rules method)

-- How often a field is present.
unfoldable pub count_field : Option Bytes → ℕ
count_field value = if is_some value then 1 else 0

unfoldable pub exactly_one : ℕ → Option ℕ
exactly_one count = if not (count == 1) then none else some count

-- The choice of the path pattern: the first string that is not empty.
unfoldable pub set_path : Bytes → Bytes → Bytes → BasicAuthConfigRule → BasicAuthConfigRule
set_path prefix_path exact_path suffix_path rule =
    if not (is_empty prefix_path)
    then record rule { path_pattern = some prefix; request_path = prefix_path }
    else (if not (is_empty exact_path)
        then record rule { path_pattern = some exact; request_path = exact_path }
        else (if not (is_empty suffix_path)
            then record rule { path_pattern = some suffix; request_path = suffix_path }
            else rule))

module _ (strings : AbslStrings) (lib : JsonLib) where
  open strings use {starts_with, ends_with, str_contains}
  open lib use {Json, find}

  -- A value that is read as a string: `none` where the code returns false.
  unfoldable pub string_value : Json → Option Bytes
  string_value j =
      let (value, detail) = value_as_string lib j in if read_ok detail then value else none

  -- An optional string: the outer `none` where the code returns false, the inner one for a field
  -- that is missing.
  unfoldable pub path_field : Json → Bytes → Option (Option Bytes)
  path_field configuration field = elim (find configuration field) [
    | none ↦ some none
    | some it ↦ do s ← string_value it; some (some s)
  ]

  unfoldable pub host_pattern : Bytes → MatchType × Bytes
  host_pattern host_str =
      if starts_with host_str (codes "*")
      then (suffix, drop 1 host_str)
      else (if ends_with host_str (codes "*")
          then (prefix, take (length host_str - 1) host_str)
          else (exact, host_str))

  -- The visitors of the three arrays.
  unfoldable pub visit_host : Json → List (MatchType × Bytes) → Bool × List (MatchType × Bytes)
  visit_host host hosts = elim (string_value host) [
    | none ↦ (false, hosts)
    | some host_str ↦ (true, hosts ++ host_pattern host_str ∷ [])
  ]

  unfoldable pub visit_method : Json → List Bytes → Bool × List Bytes
  visit_method method methods = elim (string_value method) [
    | none ↦ (false, methods)
    | some m ↦ (true, methods ++ m ∷ [])
  ]

  -- `word` is 2 to the width of `size_t`.
  unfoldable pub decodes : ℕ → Bytes → Bool
  decodes word s = elim (decode_without_padding word s) [
    | returned out ↦ not (is_empty out)
    | overrun ↦ false
    | assertion_failed ↦ false
  ]

  unfoldable pub add_credential : ℕ → Bytes → List Bytes → Bool × List Bytes
  add_credential word credential credentials =
      if str_contains credential (codes ":")
      then (true, insert (encode credential true) credentials)
      else (if decodes word credential
          then (true, insert credential credentials)
          else (false, credentials))

  unfoldable pub visit_credential : ℕ → Json → List Bytes → Bool × List Bytes
  visit_credential word credential credentials = elim (string_value credential) [
    | none ↦ (false, credentials)
    | some c ↦ add_credential word c credentials
  ]

  -- An array's visits: `none` where the iteration returns false.
  unfoldable pub collect : {S : Type 0} → Json → Bytes → (Json → S → Bool × S) → S → Option S
  collect configuration field visitor s =
      let (accepted, s') = array_iterate lib configuration field visitor s in
      if accepted then some s' else none

  unfoldable pub not_empty : {A : Type 0} → List A → Option (List A)
  not_empty xs = if is_empty xs then none else some xs

  -- `extractBasicAuthRule` up to its last loop: the methods and the rule, or `none` where it returns
  -- false. `indeterminate` is what `path_pattern` holds before an assignment.
  unfoldable pub extract_rule :
      ℕ → Option MatchType → Json → Option (List Bytes × BasicAuthConfigRule)
  extract_rule word indeterminate configuration = do
    prefix_path ← path_field configuration (codes "prefix")
    exact_path ← path_field configuration (codes "exact")
    suffix_path ← path_field configuration (codes "suffix")
    one ← exactly_one (count_field prefix_path + count_field exact_path + count_field suffix_path)
    hosts ← collect configuration (codes "hosts") visit_host []
    visited ← collect configuration (codes "request_methods") visit_method []
    methods ← not_empty visited
    inserted ← collect configuration (codes "credentials") (visit_credential word) []
    credentials ← not_empty inserted
    some (
      methods,
      set_path (Option.get_or prefix_path []) (Option.get_or exact_path [])
          (Option.get_or suffix_path [])
          (record (empty_rule indeterminate) { hosts = hosts; encoded_credentials = credentials }),
    )

  -- `extractBasicAuthRule`
  unfoldable pub extract_basic_auth_rule : ℕ → Option MatchType → Json → Root → Bool × Root
  extract_basic_auth_rule word indeterminate configuration root =
      elim (extract_rule word indeterminate configuration) [
        | none ↦ (false, root)
        | some (methods, rule) ↦ (
          true,
          record root {
            basic_auth_configuration = push_rules rule methods root.basic_auth_configuration;
          },
        )
      ]

  -- `configure`: the realm after the rules, and as a whole.
  unfoldable pub read_realm : Json → Root → Bool × Root
  read_realm j root = elim (find j (codes "realm")) [
    | none ↦ (true, root)
    | some it ↦ elim (string_value it) [
      | none ↦ (false, root)
      | some realm ↦ (true, record root { realm = realm })
    ]
  ]

  unfoldable pub configure : ℕ → Option MatchType → Bytes → Root → Bool × Root
  configure word indeterminate text root = elim (json_parse lib text) [
    | none ↦ (false, root)
    | some j ↦
        let (accepted, root') =
          array_iterate lib j (codes "basic_auth_rules")
            (extract_basic_auth_rule word indeterminate) root in
        if accepted then read_realm j root' else (false, root')
  ]

  -- `onConfigure`
  unfoldable pub on_configure : ℕ → Option MatchType → Bytes → Root → Bool × Root
  on_configure word indeterminate text root =
      if is_empty text then (true, root) else configure word indeterminate text root
