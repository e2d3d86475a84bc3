-- ===== src/RateLimit/Alone.antt =====
-- `getToken` with no other VM at work, and under writes that beat it every time.
use wasm_extensions.Prelude.{
  ℕ, zero, suc, ◌-◌, ◌<◌, ◌≡◌, refl, inr, Bool, true, false, none, some, arith,
}
use wasm_extensions.Host.{is_ok, ok}
use wasm_extensions.RateLimit.Shared.{
  token_bucket, SharedData, Written, Program, get_shared, set_shared, run_alone,
}
use wasm_extensions.RateLimit.Bucket.{after_take, take_one, get_token_from, get_token}

pub take_some :
    (retry : Program Bool) (v c : ℕ)
    → take_one retry ok (suc v) c ≡ set_shared token_bucket (suc v - 1) c (after_take retry)
unfolding take_one is_ok
take_some retry v c = ground arith

module _ (host : SharedData) where
  open host use {
    Store, cell, newest, get_shared_data, set_shared_data, get_found, get_missing, set_stored,
    set_mismatch,
  }

  -- A request is let through against a token, and denied at an empty bucket.
  pub data Served (s : Store) (v : ℕ) (result : Bool × Store) : Type 0 where
    allowed :
        (s' : Store)
        → 0 < v
        → result ≡ (true, s')
        → Written cell newest s s' token_bucket (v - 1)
        → Served s v result
    denied : v ≡ 0 → result ≡ (false, s) → Served s v result

  -- One round of the loop, whatever the next would do.
  first_round :
      (now : ℕ) (retry : Program Bool) (s : Store) (v c : ℕ)
      → cell s token_bucket ≡ some (v, c)
      → Served s v (run_alone host now (get_shared token_bucket (take_one retry)) s)
  unfolding take_one after_take run_alone is_ok
  first_round now retry s zero c e =
      denied refl (rw (get_found s token_bucket 0 c e, run_alone) refl)
  first_round now retry s (suc v) c e =
      let (stored, written) = set_stored s token_bucket (suc v - 1) c (inr (inr (suc v, e))) in
      allowed (set_shared_data s token_bucket (suc v - 1) c).1 (omega arith)
        (rw (get_found s token_bucket (suc v) c e, run_alone, take_some retry v c, stored)) written

  missing_round :
      (now : ℕ) (retry : Program Bool) (s : Store)
      → cell s token_bucket ≡ none
      → run_alone host now (get_shared token_bucket (take_one retry)) s ≡ (false, s)
  unfolding take_one run_alone
  missing_round now retry s e = rw (get_missing s token_bucket e, take_one, run_alone)

  -- With no other VM at work, `getToken` allows a request exactly when the bucket holds a token: it
  -- then takes one, and it leaves an empty bucket as it is.
  pub get_token-Served :
      (now : ℕ) (s : Store) (v c : ℕ)
      → cell s token_bucket ≡ some (v, c)
      → Served s v (run_alone host now get_token s)
  unfolding get_token_from
  get_token-Served now s v c e = first_round now (get_token_from 19) s v c e

  -- Where the bucket is missing, every request is denied and nothing is written.
  pub get_token_missing :
      (now : ℕ) (s : Store)
      → cell s token_bucket ≡ none
      → run_alone host now get_token s ≡ (false, s)
  unfolding get_token_from
  get_token_missing now s e = missing_round now (get_token_from 19) s e
