-- ===== src/Opa/Requests.antt =====
-- The request path of extensions/open_policy_agent/plugin.cc: who lets a request through.
use wasm_extensions.Prelude.{
  ℕ, ◌+◌, ◌%◌, ◌≡◌, refl, Bool, true, false, not, Option, none, some, arith, if◌then◌else◌, Bytes,
  List, ltb, Bool-cases, inl, inr,
}
use wasm_extensions.Json.{JsonLib}
use wasm_extensions.Host.{WasmResult, is_ok, continue, stop_iteration}
use wasm_extensions.Opa.Cache.{
  Payload, ResultCache, Result, defined, undefined, ◌>>=◌, word64, max_num_entry, compute_hash,
  check, check_hash,
}
use wasm_extensions.Opa.Runs.{Fits, InStep}
use wasm_extensions.Opa.Answers.{check_hash_added}
use wasm_extensions.Opa.Plugin.{
  Root, Outcome, Verdict, replied, continue_request, denied, call_failed, opa_call, count_lookup,
  check_cache, add_cache, after_lookup, check_request, read_result, on_http_call_response,
}

-- The outcome of a request that the cache answers.
unfoldable pub cached_outcome : Bool → Outcome
cached_outcome true = record { status = continue; call = none; reply = none }
cached_outcome false = record { status = stop_iteration; call = none; reply = some denied }

unfoldable pub verdict_of : Bool → Verdict
verdict_of result = if not result then replied denied else continue_request

stopped :
    (o : Outcome) (r : Root) {root' : Root} {o' : Outcome}
    → ◌≡◌ {A = Result (Root × Outcome)} (defined (r, o)) (defined (root', o'))
    → o'.status ≡ continue
    → o.status ≡ continue
stopped o r e s = cc

go_on :
    (dump : List (Bytes × Bytes) → Bytes) (call_result : WasmResult) (p : Payload) (root : Root)
    (found : Result (ℕ × ResultCache × Option Bool)) (root' : Root) (o : Outcome)
    → (do
      looked_up ← (do l ← found; defined (count_lookup root l))
      defined (after_lookup dump call_result p looked_up))
      ≡ defined (root', o)
    → o.status ≡ continue
    → (hash : ℕ) × (c' : ResultCache) × (found ≡ defined (hash, c', some true))
unfolding after_lookup count_lookup
go_on dump call_result p root undefined root' o e s = absurd (cc)
go_on dump call_result p root (defined (hash, c', some true)) root' o e s = (hash, c', refl)
go_on dump call_result p root (defined (hash, c', some false)) root' o e s =
    absurd (cc (stopped _ _ e s))
go_on dump call_result p root (defined (hash, c', none)) root' o e s = absurd (cc (stopped _ _ e s))

module _ (hash_of : Bytes → ℕ) (dump : List (Bytes × Bytes) → Bytes) where
  -- A request that goes on at once was found in the cache with the answer true.
  pub continue-cached :
      (call_result : WasmResult) (p : Payload) (now : ℕ) (root root' : Root) (o : Outcome)
      → check_request dump hash_of call_result p now root ≡ defined (root', o)
      → o.status ≡ continue
      → (hash : ℕ) × (c' : ResultCache) × (check max_num_entry hash_of p now root.cache
          ≡ defined (hash, c', some true))
  unfolding check_request check_cache
  continue-cached call_result p now root root' o e s =
      go_on dump call_result p root (check max_num_entry hash_of p now root.cache) root' o e s

  -- The outcome of a request that the server is asked about.
  unfoldable pub asked : WasmResult → Payload → Root → Outcome
  asked call_result p root = record {
    status = stop_iteration;
    call = some (opa_call dump p (compute_hash hash_of p) root);
    reply = if not (is_ok call_result) then some call_failed else none;
  }

  request_hit :
      (call_result : WasmResult) (p : Payload) (now : ℕ) (root : Root) (c : ResultCache)
      (result : Bool)
      → check_hash max_num_entry (compute_hash hash_of p) now root.cache ≡ defined (c, some result)
      → check_request dump hash_of call_result p now root
        ≡ defined
            (record root { cache = c; cache_hits = root.cache_hits + 1 }, cached_outcome result)
  unfolding check_request check_cache check count_lookup after_lookup cached_outcome
  request_hit call_result p now root c true hit = rw (check_request, check_cache, check, hit)
  request_hit call_result p now root c false hit = rw (check_request, check_cache, check, hit)

  request_miss :
      (call_result : WasmResult) (p : Payload) (now : ℕ) (root : Root) (c : ResultCache)
      → check_hash max_num_entry (compute_hash hash_of p) now root.cache ≡ defined (c, none)
      → check_request dump hash_of call_result p now root ≡ (
          let root' = record root { cache = c; cache_misses = root.cache_misses + 1 } in
          defined (root', asked call_result p root'))
  unfolding check_request check_cache check count_lookup after_lookup asked
  request_miss call_result p now root c miss = rw (check_request, check_cache, check, miss)

  -- For a request whose payload has no entry in a cache in step, with hashes that survive the
  -- conversion to `int`: the callback passes on exactly the server's answer. If the next use of the
  -- cache is a request with the same payload, then before the answer's validity ends (modulo 2^64) it
  -- is answered alike with no call to the server, and otherwise the server is called again.
  pub answer_reused :
      (lib : JsonLib) (call_result : WasmResult) (p : Payload) (body : Bytes) (result : Bool)
      (added now : ℕ) (root : Root)
      → InStep max_num_entry root.cache
      → Fits (compute_hash hash_of p)
      → root.cache.result_cache (compute_hash hash_of p) ≡ none
      → read_result lib body ≡ some result
      → (root' : Root) × (root'' : Root) × (on_http_call_response lib
            (compute_hash hash_of p)
            body
            added
            root
          ≡ defined (root', verdict_of result))
        × (check_request dump hash_of call_result p now root'
            ≡ defined (
              root'',
              (if ltb now ((added + root.cache.valid_for_nanosec) % word64)
                  then cached_outcome result
                  else asked call_result p root''),
            ))
  unfolding on_http_call_response add_cache verdict_of
  answer_reused lib call_result p body result added now root i fits new read =
      let (c', c'', stored, found) =
        check_hash_added max_num_entry (compute_hash hash_of p) result added now root.cache
          (omega arith) i fits new in
      elim (Bool-cases (ltb now ((added + root.cache.valid_for_nanosec) % word64))) [
        | inl young ↦ (
          record root { cache = c' },
          record root { cache = c''; cache_hits = root.cache_hits + 1 },
          rw (read, on_http_call_response, add_cache, stored),
          rw young (
              request_hit call_result p now (record root { cache = c' }) c'' result
                (rw young at found)),
        )
        | inr old ↦ (
          record root { cache = c' },
          record root { cache = c''; cache_misses = root.cache_misses + 1 },
          rw (read, on_http_call_response, add_cache, stored),
          rw old
              (request_miss call_result p now (record root { cache = c' }) c'' (rw old at found)),
        )
      ]
