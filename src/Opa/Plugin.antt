-- ===== src/Opa/Plugin.antt =====
-- extensions/open_policy_agent/plugin.{h,cc}: the root context's configuration, the check of a
-- request against the cache, and the callback for the server's answer. The values that `getValue`
-- reads, the clock, the status of `httpCall` and `dump` of the JSON library are arguments.
use wasm_extensions.Prelude.{
  ℕ, ◌+◌, Bool, true, false, not, Option, none, some, List, [], ◌∷◌, if◌then◌else◌, Bytes, codes,
}
use wasm_extensions.Json.{
  JsonLib, is_ok as read_ok, json_parse, value_as_unsigned, value_as_string, value_as_bool,
}
use wasm_extensions.Host.{
  WasmResult, is_ok, FilterHeadersStatus, continue, stop_iteration, LocalResponse,
}
use wasm_extensions.Opa.Cache.{
  Payload, ResultCache, Result, defined, ◌>>=◌, max_num_entry, set_valid_duration, check, add,
}

-- The members of `PluginRootContext`; the two counters stand for their metrics.
pub record Root : Type 0 where
  pub cache : ResultCache
  pub cache_valid_for_sec : ℕ
  pub opa_host : Bytes
  pub opa_cluster : Bytes
  pub cache_hits : ℕ
  pub cache_misses : ℕ

-- The arguments of `httpCall`, and the hash that its callback captures.
pub record HttpCall : Type 0 where
  pub cluster : Bytes
  pub headers : List (Bytes × Bytes)
  pub body : Bytes
  pub timeout_milliseconds : ℕ
  pub payload_hash : ℕ

-- What a request or an answer of the server leads to.
pub record Outcome : Type 0 where
  pub status : FilterHeadersStatus
  pub call : Option HttpCall
  pub reply : Option LocalResponse

pub data Verdict : Type 0 where
  replied : LocalResponse → Verdict
  continue_request : Verdict

abbrev pub local_response : ℕ → Bytes → LocalResponse
local_response code details = record {
  response_code = code;
  response_code_details = details;
  body = [];
  headers = [];
}

abbrev pub denied : LocalResponse
denied = local_response 403 (codes "OPA policy check denied")

abbrev pub check_failed : LocalResponse
check_failed = local_response 500 (codes "OPA policy check failed")

abbrev pub call_failed : LocalResponse
call_failed = local_response 500 (codes "OPA policy check call failed")

-- `checkCache`: the counters after the look-up, and as a whole.
unfoldable pub count_lookup : Root → ℕ × ResultCache × Option Bool → ℕ × Root × Option Bool
count_lookup root (hash, c, some allowed) =
    (hash, record root { cache = c; cache_hits = root.cache_hits + 1 }, some allowed)
count_lookup root (hash, c, none) =
    (hash, record root { cache = c; cache_misses = root.cache_misses + 1 }, none)

unfoldable pub check_cache : (Bytes → ℕ) → Payload → ℕ → Root → Result (ℕ × Root × Option Bool)
check_cache hash_of payload timestamp root = do
  looked_up ← check max_num_entry hash_of payload timestamp root.cache
  defined (count_lookup root looked_up)

-- `addCache`
unfoldable pub add_cache : ℕ → Bool → ℕ → Root → Result Root
add_cache hash result timestamp root = do
  cache' ← add max_num_entry hash result timestamp root.cache
  defined (record root { cache = cache' })

-- The call that `check` makes on a miss; `dump` writes the object with the one member `input`.
unfoldable pub opa_call : (List (Bytes × Bytes) → Bytes) → Payload → ℕ → Root → HttpCall
opa_call dump payload hash root = record {
  cluster = root.opa_cluster;
  headers =
      (codes "content-type", codes "application/json")
      ∷ (codes ":path", codes "/v1/data/test/allow")
      ∷ (codes ":method", codes "POST")
      ∷ (codes ":authority", root.opa_host)
      ∷ [];
  body = dump (
      (codes "source_principal", payload.source_principal)
      ∷ (codes "destination_workload", payload.destination_workload)
      ∷ (codes "request_method", payload.request_method)
      ∷ (codes "request_url_path", payload.request_url_path)
      ∷ []);
  timeout_milliseconds = 5000;
  payload_hash = hash;
}

-- `check` after the look-up in the cache.
unfoldable pub after_lookup :
    (List (Bytes × Bytes) → Bytes) → WasmResult → Payload → ℕ × Root × Option Bool → Root × Outcome
after_lookup dump call_result payload (hash, root, some true) =
    (root, record { status = continue; call = none; reply = none })
after_lookup dump call_result payload (hash, root, some false) =
    (root, record { status = stop_iteration; call = none; reply = some denied })
after_lookup dump call_result payload (hash, root, none) = (
  root,
  record {
    status = stop_iteration;
    call = some (opa_call dump payload hash root);
    reply = if not (is_ok call_result) then some call_failed else none;
  },
)

-- `PluginRootContext::check`, which `onRequestHeaders` calls.
unfoldable pub check_request :
    (List (Bytes × Bytes) → Bytes)
    → (Bytes → ℕ)
    → WasmResult
    → Payload
    → ℕ
    → Root
    → Result (Root × Outcome)
check_request dump hash_of call_result payload timestamp root = do
  looked_up ← check_cache hash_of payload timestamp root
  defined (after_lookup dump call_result payload looked_up)

module _ (lib : JsonLib) where
  open lib use {Json, find}

  -- The callback's reading of the server's answer: `none` where it replies with a server error.
  unfoldable pub read_result : Bytes → Option Bool
  read_result body = elim (json_parse lib body) [
    | none ↦ none
    | some j ↦ elim (find j (codes "result")) [
      | none ↦ none
      | some it ↦
          let (value, detail) = value_as_bool lib it in if read_ok detail then value else none
    ]
  ]

  -- The callback of `httpCall`.
  unfoldable pub on_http_call_response : ℕ → Bytes → ℕ → Root → Result (Root × Verdict)
  on_http_call_response payload_hash body timestamp root = elim (read_result body) [
    | none ↦ defined (root, replied check_failed)
    | some check_result ↦ do
      root' ← add_cache payload_hash check_result timestamp root
      defined (root', (if not check_result then replied denied else continue_request))
  ]

  -- A required string: `none` where the code warns and returns false.
  unfoldable pub required_string : Json → Bytes → Option Bytes
  required_string j field = elim (find j field) [
    | none ↦ none
    | some it ↦
        let (value, detail) = value_as_string lib it in if read_ok detail then value else none
  ]

  -- The three fields in order; a member is assigned as soon as its field is read.
  unfoldable pub read_valid_sec : Json → Root → Bool × Root
  read_valid_sec j root = elim (find j (codes "check_result_cache_valid_sec")) [
    | none ↦ (true, root)
    | some it ↦
        let (value, detail) = value_as_unsigned lib it in
        elim (if read_ok detail then value else none) [
          | some seconds ↦ (true, record root { cache_valid_for_sec = seconds })
          | none ↦ (false, root)
        ]
  ]

  unfoldable pub read_cluster : Json → Root → Bool × Root
  read_cluster j root = elim (required_string j (codes "opa_cluster_name")) [
    | none ↦ (false, root)
    | some cluster ↦ read_valid_sec j (record root { opa_cluster = cluster })
  ]

  unfoldable pub read_host : Json → Root → Bool × Root
  read_host j root = elim (required_string j (codes "opa_service_host")) [
    | none ↦ (false, root)
    | some host ↦ read_cluster j (record root { opa_host = host })
  ]

  -- `parseConfiguration`
  unfoldable pub parse_configuration : Bytes → Root → Bool × Root
  parse_configuration text root = elim (json_parse lib text) [
    | none ↦ (false, root)
    | some j ↦ read_host j root
  ]

  -- `onConfigure`
  unfoldable pub on_configure : Bytes → Root → Bool × Root
  on_configure text root =
      let (parsed, root') = parse_configuration text root in
      if parsed
      then (true, record root' { cache = set_valid_duration root'.cache_valid_for_sec root'.cache })
      else (false, root')
