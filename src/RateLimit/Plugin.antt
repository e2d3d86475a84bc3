-- ===== src/RateLimit/Plugin.antt =====
-- extensions/local_rate_limit/plugin.{h,cc}: the configuration of the root context, the start of
-- the ticker, and the verdict on a request.
use wasm_extensions.Prelude.{
  ℕ, ◌*◌, ◌/◌, ◌%◌, ◌^◌, Bool, true, false, not, Option, none, some, [], if◌then◌else◌, Bytes,
  codes,
}
use wasm_extensions.Json.{JsonLib, is_ok as read_ok, json_parse, value_as_unsigned}
use wasm_extensions.Host.{FilterHeadersStatus, continue, stop_iteration, LocalResponse}
use wasm_extensions.RateLimit.Shared.{Program, returns, get_shared, set_shared, get_time}
use wasm_extensions.RateLimit.Bucket.{word64, get_token, initialize_token_bucket}

-- The members `max_tokens_`, `tokens_per_refill_` and `refill_interval_nanosec_`.
pub record Limits : Type 0 where
  pub max_tokens : ℕ
  pub tokens_per_refill : ℕ
  pub refill_interval_nanosec : ℕ

-- A program, and what is done with its result.
unfoldable pub and_then {ℓ κ} : {A : Type ℓ} {B : Type κ} → Program A → (A → Program B) → Program B
and_then (returns a) f = f a
and_then (get_shared k rest) f = get_shared k (λ r v c. and_then (rest r v c) f)
and_then (set_shared k v c rest) f = set_shared k v c (λ r. and_then (rest r) f)
and_then (get_time rest) f = get_time (λ now. and_then (rest now) f)

module _ (lib : JsonLib) where
  open lib use {Json, find}

  -- A required field that is read as a `uint64_t`: `none` where the code warns and returns false.
  unfoldable pub required_unsigned : Json → Bytes → Option ℕ
  required_unsigned j field = elim (find j field) [
    | none ↦ none
    | some it ↦
        let (value, detail) = value_as_unsigned lib it in if read_ok detail then value else none
  ]

  -- The three fields in order; a member is assigned as soon as its field is read.
  unfoldable pub read_interval : Json → Limits → Bool × Limits
  read_interval j limits = elim (required_unsigned j (codes "refill_interval_sec")) [
    | none ↦ (false, limits)
    | some seconds ↦
        (true, record limits { refill_interval_nanosec = seconds * 1000000000 % word64 })
  ]

  unfoldable pub read_refill : Json → Limits → Bool × Limits
  read_refill j limits = elim (required_unsigned j (codes "tokens_per_refill")) [
    | none ↦ (false, limits)
    | some tokens ↦ read_interval j (record limits { tokens_per_refill = tokens })
  ]

  unfoldable pub read_limits : Json → Limits → Bool × Limits
  read_limits j limits = elim (required_unsigned j (codes "max_tokens")) [
    | none ↦ (false, limits)
    | some tokens ↦ read_refill j (record limits { max_tokens = tokens })
  ]

  -- `parseConfiguration`: whether it succeeds, and the members afterwards.
  unfoldable pub parse_configuration : Bytes → Limits → Bool × Limits
  parse_configuration text limits = elim (json_parse lib text) [
    | none ↦ (false, limits)
    | some j ↦ read_limits j limits
  ]

  -- The tail of `onConfigure`: the period that is passed to the ticker as a `uint32_t`, or `none`
  -- for the result false.
  unfoldable pub start_ticker : Limits → Bool → Program (Option ℕ)
  start_ticker limits true = returns (some (limits.refill_interval_nanosec / 1000000 % 2 ^ 32))
  start_ticker limits false = returns none

  -- `onConfigure`: the members, and the host calls that follow the parsing.
  unfoldable pub on_configure : Bytes → Limits → Limits × Program (Option ℕ)
  on_configure text limits =
      let (parsed, limits') = parse_configuration text limits in
      (
        limits',
        (if parsed
            then and_then (initialize_token_bucket limits'.tokens_per_refill) (start_ticker limits')
            else returns none),
      )

-- `tooManyRequest`
abbrev pub too_many_request : LocalResponse
too_many_request = record {
  response_code = 429;
  response_code_details = codes "Too many requests";
  body = codes "rate_limited";
  headers = [];
}

-- `shouldRateLimit`
unfoldable pub should_rate_limit : Bool
should_rate_limit = true

-- `onRequestHeaders` on the result of `getToken`, and as a whole; a local response is `none` if none
-- is sent. The second operand of `&&` is evaluated only after the first.
unfoldable pub verdict : Bool → FilterHeadersStatus × Option LocalResponse
verdict token = if not token then (stop_iteration, some too_many_request) else (continue, none)

unfoldable pub on_request_headers : Program (FilterHeadersStatus × Option LocalResponse)
on_request_headers =
    if should_rate_limit
    then and_then get_token (λ token. returns (verdict token))
    else returns (continue, none)
