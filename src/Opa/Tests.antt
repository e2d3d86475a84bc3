-- ===== src/Opa/Tests.antt =====
-- Runs of the cache and of the request path.
use mathlib.Core.List.{Perm, perm_middle}
use mathlib.Core.List.Perm
use wasm_extensions.Prelude.{
  ℕ, ◌+◌, ◌%◌, ◌==◌, ◌≡◌, ◌≢◌, refl, inl, inr, true, false, none, some, List, [], ◌∷◌, arith, codes,
  Bytes, bytes_eq, length, ltb, if◌then◌else◌,
}
use wasm_extensions.Host.{ok, continue}
use wasm_extensions.Json.{json_parse, value_as_bool, is_ok as read_ok}
use wasm_extensions.Json.Toy.{Value, bool, object, end, field, toy}
use wasm_extensions.Opa.Cache.{
  Payload, ResultCache, empty_cache, defined, undefined, word64, assign, through_int, push_front,
  use_hash, make_room, erase_node, pop_back, compute_hash, max_num_entry, check_hash, check, add,
}
use wasm_extensions.Opa.Touch.{IsValid, push_front-IsValid}
use wasm_extensions.Opa.Safety.{Touched, use_hash-Touched}
use wasm_extensions.Opa.Runs.{
  Fits, Call, check_at, add_at, hash_of_call, calls, empty-InStep, calls-InStep,
}
use wasm_extensions.Opa.Answers.{check_hash_added}
use wasm_extensions.Opa.Eviction.{evicted_dangles}
use wasm_extensions.Opa.Hash.{strings, check_reordered}
use wasm_extensions.Opa.Plugin.{
  Root, check_request, on_http_call_response, read_result, count_lookup, check_cache, after_lookup,
}
use wasm_extensions.Opa.Requests.{cached_outcome, asked, verdict_of, continue-cached, answer_reused}

-- A cache of one entry at most, with the hash in it.
abbrev single : ℕ → ResultCache
single hash = record {
  valid_for_nanosec = 10000000000;
  result_cache = λ h. none;
  recent = (0, hash) ∷ [];
  pos = λ j. if hash == j then some 0 else none;
  next_node = 1;
}

single-IsValid : (hash : ℕ) → IsValid 1 (single hash)
unfolding push_front assign
single-IsValid hash =
    (push_front-IsValid 1 hash [] empty_cache (record {
      linked = (empty-InStep 1).valid.linked;
      missing = refl;
      room = omega arith;
      cached = λ h answer e. absurd (cc);
      view = refl;
    })).0

five-Fits : Fits 5
unfolding through_int
five-Fits = refl

seven-Fits : Fits 7
unfolding through_int
seven-Fits = refl

use_hash-Touched_example : Touched 1 7 (single 5)
use_hash-Touched_example =
    use_hash-Touched 1 7 (single 5) (single-IsValid 5)
      (λ n h x. elim x [ inl e ↦ rw (← e.1) five-Fits | inr y ↦ absurd y ]) (omega arith)

abbrev three_calls : List Call
three_calls = add_at 5 true 100 ∷ add_at 7 false 200 ∷ check_at 5 300 ∷ []

calls-InStep_example :
    (c : ResultCache) × (calls 1 three_calls empty_cache ≡ defined c) × IsValid 1 c
unfolding hash_of_call
calls-InStep_example =
    calls-InStep 1 three_calls (omega arith) (five-Fits, (seven-Fits, (five-Fits, tt)))

check_hash_added_example :
    (c' : ResultCache) × (c'' : ResultCache) × (add 1 5 true 100 empty_cache ≡ defined c')
    × (check_hash 1 5 300 c'
        ≡ defined (c'', (if ltb 300 ((100 + 10000000000) % word64) then some true else none)))
check_hash_added_example =
    check_hash_added 1 5 true 100 300 empty_cache (omega arith) (empty-InStep 1) five-Fits refl

popped : pop_back (single 4294967296).recent ≡ defined (4294967296, [])
unfolding pop_back
popped = refl

changed : through_int 4294967296 ≢ 4294967296
unfolding through_int
changed = omega arith

evicted_dangles_example :
    (c' : ResultCache) × (use_hash 1 7 (single 4294967296) ≡ defined c')
    × (use_hash 1 4294967296 c' ≡ undefined)
evicted_dangles_example =
    evicted_dangles 1 7 4294967296 [] (single 4294967296) (single-IsValid 4294967296) refl refl
      popped changed

abbrev payload : Payload
payload = record {
  source_principal = codes "a";
  destination_workload = codes "b";
  request_method = codes "GET";
  request_url_path = codes "/echo";
}

-- Its strings, rotated by one field.
abbrev rotated : Payload
rotated = record {
  source_principal = codes "/echo";
  destination_workload = codes "a";
  request_method = codes "b";
  request_url_path = codes "GET";
}

-- The length, for a string hash.
abbrev hash_of : Bytes → ℕ
hash_of = length

rotated-perm : Perm (strings rotated) (strings payload)
rotated-perm = Perm.symm (perm_middle (codes "a" ∷ codes "b" ∷ codes "GET" ∷ []) [])

check_reordered_example :
    check 1 hash_of rotated 300 (single 5) ≡ check 1 hash_of payload 300 (single 5)
check_reordered_example = check_reordered 1 hash_of 300 rotated payload (single 5) rotated-perm

abbrev root : Root
root = record {
  cache = empty_cache;
  cache_valid_for_sec = 10;
  opa_host = codes "opa";
  opa_cluster = codes "outbound";
  cache_hits = 0;
  cache_misses = 0;
}

abbrev dump : List (Bytes × Bytes) → Bytes
dump fields = []

abbrev allowing : Value
allowing = object (field (codes "result") (bool true) end)

allows : read_result (toy allowing) [] ≡ some true
unfolding read_result json_parse bytes_eq value_as_bool read_ok
allows = refl

-- A string hash that keeps the payload's hash small.
abbrev zero_hash : Bytes → ℕ
zero_hash s = 0

zero-Fits : Fits (compute_hash zero_hash payload)
unfolding compute_hash through_int
zero-Fits = refl

answer_reused_example :
    (root' : Root) × (root'' : Root) × (on_http_call_response
        (toy allowing)
        (compute_hash zero_hash payload)
        []
        100
        root
      ≡ defined (root', verdict_of true))
    × (check_request dump zero_hash ok payload 300 root'
        ≡ defined (
          root'',
          (if ltb 300 ((100 + root.cache.valid_for_nanosec) % word64)
              then cached_outcome true
              else asked zero_hash dump ok payload root''),
        ))
answer_reused_example =
    answer_reused zero_hash dump (toy allowing) ok payload [] true 100 300 root
      (empty-InStep max_num_entry) zero-Fits refl allows

abbrev warm_root : Root
warm_root = record root {
  cache = record (single 0) { result_cache = λ j. if 0 == j then some (true, 100) else none };
}

abbrev warm_root' : Root
warm_root' = record warm_root {
  cache = record (warm_root.cache) {
    recent = (1, 0) ∷ [];
    pos = λ j. if 0 == j then some 1 else warm_root.cache.pos j;
    next_node = 2;
  };
  cache_hits = 1;
}

goes_on :
    check_request dump zero_hash ok payload 300 warm_root
    ≡ defined (warm_root', cached_outcome true)
unfolding check_request check_cache check compute_hash check_hash use_hash make_room erase_node
    push_front assign count_lookup after_lookup cached_outcome
goes_on = refl

through : (cached_outcome true).status ≡ continue
unfolding cached_outcome
through = refl

continue-cached_example :
    (hash : ℕ) × (c' : ResultCache) × (check max_num_entry zero_hash payload 300 warm_root.cache
      ≡ defined (hash, c', some true))
continue-cached_example =
    continue-cached zero_hash dump ok payload 300 warm_root warm_root' (cached_outcome true) goes_on
      through
