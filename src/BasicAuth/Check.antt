-- ===== src/BasicAuth/Check.antt =====
-- extensions/basic_auth/plugin.cc: the decision on a request.
use wasm_extensions.Prelude.{
  ℕ, ◌+◌, Bool, true, false, not, Option, none, some, List, [], ◌∷◌, ◌++◌, length, take,
  if◌then◌else◌, ltb, leb, Bytes, codes, bytes_eq,
}
use wasm_extensions.Host.{FilterHeadersStatus, continue, stop_iteration, LocalResponse}
use wasm_extensions.BasicAuth.Strings.{AbslStrings}
use wasm_extensions.BasicAuth.Find.{rfind, contains}
use wasm_extensions.BasicAuth.Config.{MatchType, prefix, exact, suffix, BasicAuthConfigRule, Root}

-- The values of `getRequestHeader`; a missing header reads as the empty string.
pub record Request : Type 0 where
  pub path : Bytes
  pub method : Bytes
  pub authority : Bytes
  pub authorization : Bytes

-- A status, and the local reply that is sent before it is returned.
abbrev pub Decision : Type 0
Decision = FilterHeadersStatus × Option LocalResponse

abbrev pub denied : Bytes → Bytes → LocalResponse
denied realm details = record {
  response_code = 401;
  response_code_details = details;
  body = [];
  headers = (codes "WWW-Authenticate", codes "Basic realm=" ++ realm) ∷ [];
}

abbrev pub denied_no_basic_auth_data : Bytes → LocalResponse
denied_no_basic_auth_data realm =
    denied realm
      (codes "Request denied by Basic Auth check. No Basic Authentication information found.")

abbrev pub denied_invalid_credentials : Bytes → LocalResponse
denied_invalid_credentials realm =
    denied realm (codes "Request denied by Basic Auth check. Invalid username and/or password")

-- `hostMatch`'s removal of a port.
unfoldable pub cut_port : ℕ → Bytes → Bytes
cut_port port_start request_host =
    if leb (port_start + 1) (length request_host)
    then take port_start request_host
    else request_host

unfoldable pub strip_port : Bytes → Bytes
strip_port request_host = elim (rfind b':' request_host) [
  | none ↦ request_host
  | some port_start ↦ elim (rfind b']' request_host) [
    | none ↦ cut_port port_start request_host
    | some v6_end_index ↦
        if ltb v6_end_index port_start then cut_port port_start request_host else request_host
  ]
]

-- How the loop of `check` goes on from a rule's status.
unfoldable pub next_rule : Decision → Decision → Decision
next_rule (stop_iteration, reply) rest = (stop_iteration, reply)
next_rule (continue, reply) rest = rest

module _ (strings : AbslStrings) where
  open strings use {starts_with, ends_with, strip_prefix}

  -- The tests by the kind of a match, for hosts and for paths.
  unfoldable pub matches : MatchType → Bytes → Bytes → Bool
  matches suffix value pattern = ends_with value pattern
  matches prefix value pattern = starts_with value pattern
  matches exact value pattern = bytes_eq value pattern

  -- The loop of `hostMatch`.
  unfoldable pub any_host : List (MatchType × Bytes) → Bytes → Bool
  any_host [] request_host = false
  any_host ((kind, pattern) ∷ hosts) request_host =
      if matches kind request_host pattern then true else any_host hosts request_host

  -- `hostMatch`
  unfoldable pub host_match : BasicAuthConfigRule → Bytes → Bool
  host_match rule request_host = elim rule.hosts [
    | [] ↦ true
    | h ∷ hs ↦ any_host rule.hosts (strip_port request_host)
  ]

  -- The test of the path.
  unfoldable pub path_match : BasicAuthConfigRule → Bytes → Bool
  path_match rule request_path = elim rule.path_pattern [
    | none ↦ false
    | some kind ↦ matches kind request_path rule.request_path
  ]

  -- `credentialsCheck`
  unfoldable pub credentials_check : Bytes → BasicAuthConfigRule → Bytes → Decision
  credentials_check realm rule authorization_header =
      if not (starts_with authorization_header (codes "Basic "))
      then (stop_iteration, some (denied_no_basic_auth_data realm))
      else (if contains (strip_prefix authorization_header (codes "Basic "))
            rule.encoded_credentials
          then (continue, none)
          else (stop_iteration, some (denied_invalid_credentials realm)))

  -- The loop of `check`.
  unfoldable pub check_rules : Bytes → Request → List BasicAuthConfigRule → Decision
  check_rules realm request [] = (continue, none)
  check_rules realm request (rule ∷ rules) =
      let rest = check_rules realm request rules in
      if not (host_match rule request.authority)
      then rest
      else (if path_match rule request.path
          then next_rule (credentials_check realm rule request.authorization) rest
          else rest)

  -- `check`, which `onRequestHeaders` calls.
  unfoldable pub check : Root → Request → Decision
  check root request = elim (root.basic_auth_configuration request.method) [
    | none ↦ (continue, none)
    | some rules ↦ check_rules root.realm request rules
  ]
