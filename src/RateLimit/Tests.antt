-- ===== src/RateLimit/Tests.antt =====
-- Runs of the rate limit over shared data in memory.
use wasm_extensions.Prelude.{
  ◌+◌, ◌*◌, ◌≤◌, ◌≡◌, refl, ◌↔◌, true, false, none, some, List, [], ◌∷◌, arith, inl, codes,
  bytes_eq,
}
use wasm_extensions.Host.{failed, is_ok}
use wasm_extensions.Json.{value_as_unsigned, json_parse, is_ok as read_ok}
use wasm_extensions.Json.Toy.{Value, number, string, object, end, field, toy}
use wasm_extensions.RateLimit.Shared.{token_bucket, run_alone, next_call}
use wasm_extensions.RateLimit.Bucket.{
  get_token, get_token_from, take_one, after_take, refill_token, read_time, stamp, after_stamp,
  refill_loop, add_tokens, refilled, after_write, initialize_if_missing, initialize_token_bucket,
}
use wasm_extensions.RateLimit.System.{
  Settings, Event, request, tick, host_call, run, on_event, make_call, start, update,
  rest_refilling, rest_taking, count_taken, log_stamp,
}
use wasm_extensions.RateLimit.Limits.{begin, taken-le, bucket-le}
use wasm_extensions.RateLimit.Alone.{Served, get_token-Served}
use wasm_extensions.RateLimit.Refills.{Ticked, refill_token-Ticked}
use wasm_extensions.RateLimit.Contention.{iterate, run_contended, get_token_contended}
use wasm_extensions.RateLimit.Initialize.{Filled, initialize_first, initialize_late}
use wasm_extensions.RateLimit.Plugin.{
  Limits, parse_configuration, read_limits, read_refill, read_interval, required_unsigned,
  on_request_headers,
}
use wasm_extensions.RateLimit.Config.{Accepted, parse_configuration-Accepted}
use wasm_extensions.RateLimit.Requests.{Answered, on_request_headers-Answered}
use wasm_extensions.RateLimit.Memory.{Cells, memory}

-- Three tokens, and a refill at the time 0.
abbrev cells : Cells
cells = (some (3, 0), some (0, 1))

abbrev settings : Settings
settings = record {
  tokens_per_refill = 2;
  refill_interval_nanosec = 1000;
  max_tokens = 5;
  fuel = 4;
}

-- A request in VM 0 and a tick in VM 1, interleaved.
abbrev schedule : List Event
schedule =
    request 0
    ∷ tick 1
    ∷ host_call 0 10
    ∷ host_call 1 2000
    ∷ host_call 1 2000
    ∷ host_call 0 10
    ∷ host_call 1 2000
    ∷ host_call 1 2000
    ∷ host_call 1 2000
    ∷ []

taken-le_example :
    (run memory settings schedule (begin memory settings cells)).taken
    ≤ 3 + (run memory settings schedule (begin memory settings cells)).refills * 2
taken-le_example = taken-le memory settings cells 3 1 0 2 refl refl schedule

left_over :
    memory.cell (run memory settings schedule (begin memory settings cells)).store token_bucket
    ≡ some (4, 5)
unfolding begin run on_event make_call start update rest_refilling next_call refill_token read_time
    is_ok get_token_from rest_taking take_one stamp after_stamp refill_loop add_tokens refilled
    after_take after_write count_taken log_stamp
left_over = refl

bucket-le_example : 4 ≤ 5
bucket-le_example =
    bucket-le memory settings cells 3 1 0 2 refl refl schedule (omega arith) 4 5 left_over

get_token-Served_example : Served memory cells 3 (run_alone memory 7 get_token cells)
get_token-Served_example = get_token-Served memory 7 cells 3 1 refl

-- Another VM that writes two tokens to the bucket.
abbrev others : Cells → Cells
others s = (memory.set_shared_data s token_bucket 2 0).1

get_token_contended_example :
    run_contended memory others 7 get_token cells ≡ (true, iterate 20 others cells)
get_token_contended_example =
    get_token_contended memory others 7
      (λ s v c e. (2, omega arith, (memory.set_stored s token_bucket 2 0 (inl refl)).1)) cells 3 1
      (omega arith) refl

initialize_first_example :
    Filled memory 9 (run_alone memory 7 (initialize_token_bucket 9) (none, none))
initialize_first_example = initialize_first memory 7 9 (none, none) refl

not_found : is_ok (failed 1) ≡ false
unfolding is_ok
not_found = refl

initialize_late_example :
    Filled memory 9 (run_alone memory 7 (initialize_if_missing 9 (failed 1) 0 0) cells)
initialize_late_example = initialize_late memory 7 9 0 0 (failed 1) cells not_found

abbrev configuration : Value
configuration = object (
    field (codes "max_tokens") (number 10) (
      field (codes "tokens_per_refill") (string (codes "4"))
        (field (codes "refill_interval_sec") (number 60) end)))

abbrev unset : Limits
unset = record { max_tokens = 0; tokens_per_refill = 0; refill_interval_nanosec = 0 }

abbrev configured : Limits
configured = record {
  max_tokens = 10;
  tokens_per_refill = 4;
  refill_interval_nanosec = 60000000000;
}

parse_configuration-Accepted_example :
    (parse_configuration (toy configuration) [] unset ≡ (true, configured))
    ↔ Accepted (toy configuration) [] configured
parse_configuration-Accepted_example =
    parse_configuration-Accepted (toy configuration) [] unset configured

parses : parse_configuration (toy configuration) [] unset ≡ (true, configured)
unfolding parse_configuration json_parse bytes_eq value_as_unsigned read_limits required_unsigned
    read_ok read_refill read_interval
parses = refl

on_request_headers-Answered_example :
    Answered memory cells 3 (run_alone memory 7 on_request_headers cells)
on_request_headers-Answered_example = on_request_headers-Answered memory 7 cells 3 1 refl

refill_token-Ticked_example :
    Ticked memory 2000 3 0 2 1000 5 cells (run_alone memory 2000 (refill_token 4 2 1000 5) cells)
refill_token-Ticked_example = refill_token-Ticked memory 2000 3 2 1000 5 cells 3 1 0 2 refl refl
