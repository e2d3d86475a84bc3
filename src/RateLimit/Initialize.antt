-- ===== src/RateLimit/Initialize.antt =====
-- `initializeTokenBucket`: what the first VM and every later one finds, and the race between two
-- first ones.
use wasm_extensions.Prelude.{ℕ, ◌≡◌, refl, inl, Bool, true, false, none, some, ◌∙◌}
use wasm_extensions.Host.{WasmResult, is_ok}
use wasm_extensions.RateLimit.Shared.{
  token_bucket, last_refilled, SharedData, set_shared, run_alone,
}
use wasm_extensions.RateLimit.Bucket.{
  after_fill, after_first_stamp, initialize_if_missing, initialize_token_bucket,
}

module _ (host : SharedData) where
  open host use {
    Store, cell, newest, get_shared_data, set_shared_data, get_found, get_missing, set_stored,
  }

  -- The bucket holds the tokens, the refill time is 0, and the routine says that all went well.
  pub record Filled (initial_tokens : ℕ) (result : Bool × Store) : Type 0 where
    pub succeeded : result.0 ≡ true
    pub tokens : (c : ℕ) × (cell result.1 token_bucket ≡ some (initial_tokens, c))
    pub refill_time : (c : ℕ) × (cell result.1 last_refilled ≡ some (0, c))

  writes_both :
      (now initial_tokens : ℕ) (s : Store)
      → Filled initial_tokens
          (run_alone host now (set_shared last_refilled 0 0 (after_first_stamp initial_tokens)) s)
  unfolding run_alone after_first_stamp after_fill is_ok
  writes_both now initial_tokens s =
      let first = set_stored s last_refilled 0 0 (inl refl) in
      let s' = (set_shared_data s last_refilled 0 0).1 in
      let second = set_stored s' token_bucket initial_tokens 0 (inl refl) in
      rw (first.0, run_alone, second.0, run_alone)
        (record {
          succeeded = refl;
          tokens = (newest (set_shared_data s' token_bucket initial_tokens 0).1, second.1.now);
          refill_time = (newest s', second.1.others last_refilled (cc) ∙ first.1.now);
        })

  -- With no other VM at work, `initializeTokenBucket` fills the bucket and sets the refill time to
  -- 0 if no refill time is there.
  pub initialize_first :
      (now initial_tokens : ℕ) (s : Store)
      → cell s last_refilled ≡ none
      → Filled initial_tokens (run_alone host now (initialize_token_bucket initial_tokens) s)
  unfolding initialize_token_bucket run_alone initialize_if_missing
  initialize_first now initial_tokens s e =
      rw (run_alone, initialize_if_missing, get_missing s last_refilled e)
        (writes_both now initial_tokens s)

  -- It leaves the shared data alone, and reports success, if a refill time is there.
  pub initialize_again :
      (now initial_tokens v c : ℕ) (s : Store)
      → cell s last_refilled ≡ some (v, c)
      → run_alone host now (initialize_token_bucket initial_tokens) s ≡ (true, s)
  unfolding initialize_token_bucket run_alone initialize_if_missing is_ok
  initialize_again now initial_tokens v c s e =
      rw (run_alone, get_found s last_refilled v c e, initialize_if_missing)

  -- A VM that has found no refill time goes on to fill the bucket and to set the refill time to 0
  -- whatever other VMs have done since: its writes carry no number, so no store refuses them. A
  -- bucket that has been filled and drawn from in between is full again.
  pub initialize_late :
      (now initial_tokens v c : ℕ) (result : WasmResult) (s : Store)
      → is_ok result ≡ false
      → Filled initial_tokens
          (run_alone host now (initialize_if_missing initial_tokens result v c) s)
  unfolding initialize_if_missing
  initialize_late now initial_tokens v c result s e = rw e (writes_both now initial_tokens s)
