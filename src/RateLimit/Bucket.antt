-- ===== src/RateLimit/Bucket.antt =====
-- extensions/local_rate_limit/bucket.cc: `getToken`, `refillToken` and `initializeTokenBucket` as
-- programs of host calls. `uint64_t` arithmetic wraps at 2^64.
use wasm_extensions.Prelude.{
  ℕ, zero, suc, ◌+◌, ◌-◌, ◌%◌, ◌^◌, Bool, true, false, if◌then◌else◌, ◌==◌, ltb,
}
use wasm_extensions.Host
use wasm_extensions.Host.{WasmResult, ok, cas_mismatch, failed}
use wasm_extensions.RateLimit.Shared.{
  token_bucket, last_refilled, Program, returns, get_shared, set_shared, get_time,
}

abbrev pub word64 : ℕ
word64 = 2 ^ 64

abbrev pub add64 : ℕ → ℕ → ℕ
add64 a b = (a + b) % word64

abbrev pub sub64 : ℕ → ℕ → ℕ
sub64 a b = (a + word64 - b) % word64

abbrev pub max_get_token_retry : ℕ
max_get_token_retry = 20

-- What `getToken` does with the result of its write; `retry` is the next round of the loop.
unfoldable pub after_take : Program Bool → WasmResult → Program Bool
after_take retry ok = returns true
after_take retry cas_mismatch = retry
after_take retry (failed code) = returns false

-- What it does with the result of its read.
unfoldable pub take_one : Program Bool → WasmResult → ℕ → ℕ → Program Bool
take_one retry result token_left cas =
    if Host.is_ok result
    then (if token_left == 0
        then returns false
        else set_shared token_bucket (token_left - 1) cas (after_take retry))
    else returns false

-- The `for` loop of `getToken`, with the number of rounds left.
unfoldable pub get_token_from : ℕ → Program Bool
get_token_from zero = returns true
get_token_from (suc rounds) = get_shared token_bucket (take_one (get_token_from rounds))

-- `getToken`
abbrev pub get_token : Program Bool
get_token = get_token_from max_get_token_retry

-- `refillToken` returns nothing; `out_of_fuel` marks a loop that is cut off.
pub data Refill : Type 0 where
  finished out_of_fuel : Refill

-- The new content of the bucket.
unfoldable pub refilled : ℕ → ℕ → ℕ → ℕ
refilled tokens_per_refill max_tokens token_left =
    let sum = add64 token_left tokens_per_refill in if ltb max_tokens sum then max_tokens else sum

-- What the `while (true)` loop does with the result of its write, and of its read.
unfoldable pub after_write : Program Refill → WasmResult → Program Refill
after_write retry ok = returns finished
after_write retry cas_mismatch = retry
after_write retry (failed code) = returns finished

unfoldable pub add_tokens : ℕ → ℕ → Program Refill → WasmResult → ℕ → ℕ → Program Refill
add_tokens tokens_per_refill max_tokens retry result token_left cas =
    if Host.is_ok result
    then set_shared token_bucket (refilled tokens_per_refill max_tokens token_left) cas
        (after_write retry)
    else returns finished

-- The `while (true)` loop of `refillToken`, on fuel.
unfoldable pub refill_loop : ℕ → ℕ → ℕ → Program Refill
refill_loop zero tokens_per_refill max_tokens = returns out_of_fuel
refill_loop (suc fuel) tokens_per_refill max_tokens =
    get_shared token_bucket
      (add_tokens tokens_per_refill max_tokens (refill_loop fuel tokens_per_refill max_tokens))

-- What `refillToken` does with the result of stamping the refill time; `refill` is its loop.
unfoldable pub after_stamp : Program Refill → WasmResult → Program Refill
after_stamp refill ok = refill
after_stamp refill cas_mismatch = returns finished
after_stamp refill (failed code) = returns finished

-- What it does at the time `now`.
unfoldable pub stamp : Program Refill → ℕ → ℕ → ℕ → ℕ → Program Refill
stamp refill interval last_update last_update_cas now =
    if ltb (sub64 now last_update) interval
    then returns finished
    else set_shared last_refilled now last_update_cas (after_stamp refill)

unfoldable pub read_time : Program Refill → ℕ → WasmResult → ℕ → ℕ → Program Refill
read_time refill interval result last_update last_update_cas =
    if Host.is_ok result
    then get_time (stamp refill interval last_update last_update_cas)
    else returns finished

-- `refillToken`
unfoldable pub refill_token : ℕ → ℕ → ℕ → ℕ → Program Refill
refill_token fuel tokens_per_refill interval max_tokens =
    get_shared last_refilled (read_time (refill_loop fuel tokens_per_refill max_tokens) interval)

-- `initializeTokenBucket`, after its second write, after its first, and after its read. Its writes
-- pass no number, which the interface reads as 0.
unfoldable pub after_fill : WasmResult → Program Bool
after_fill result = returns (Host.is_ok result)

unfoldable pub after_first_stamp : ℕ → WasmResult → Program Bool
after_first_stamp initial_tokens ok = set_shared token_bucket initial_tokens 0 after_fill
after_first_stamp initial_tokens cas_mismatch = returns true
after_first_stamp initial_tokens (failed code) = returns false

unfoldable pub initialize_if_missing : ℕ → WasmResult → ℕ → ℕ → Program Bool
initialize_if_missing initial_tokens result v c =
    if Host.is_ok result
    then returns true
    else set_shared last_refilled 0 0 (after_first_stamp initial_tokens)

-- `initializeTokenBucket`
unfoldable pub initialize_token_bucket : ℕ → Program Bool
initialize_token_bucket initial_tokens =
    get_shared last_refilled (initialize_if_missing initial_tokens)
