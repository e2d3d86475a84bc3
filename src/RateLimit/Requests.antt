-- ===== src/RateLimit/Requests.antt =====
-- The verdict of extensions/local_rate_limit/plugin.cc on a request.
use wasm_extensions.Prelude.{ℕ, ◌-◌, ◌<◌, ◌≡◌, refl, Bool, Option, none, some}
use wasm_extensions.Host.{FilterHeadersStatus, continue, stop_iteration, LocalResponse}
use wasm_extensions.RateLimit.Shared.{
  token_bucket, SharedData, Written, Program, returns, get_shared, set_shared, get_time, run_alone,
}
use wasm_extensions.RateLimit.Bucket.{get_token}
use wasm_extensions.RateLimit.Alone.{Served, allowed, denied, get_token-Served}
use wasm_extensions.RateLimit.Plugin.{
  and_then, verdict, too_many_request, should_rate_limit, on_request_headers,
}

module _ (host : SharedData) where
  open host use {Store, cell, newest, get_shared_data, set_shared_data}

  run_alone-and_then {ℓ κ} :
      {A : Type ℓ} {B : Type κ} (now : ℕ) (p : Program A) (f : A → Program B) (s : Store)
      → run_alone host now (and_then p f) s
        ≡ run_alone host now (f (run_alone host now p s).0) (run_alone host now p s).1
  unfolding run_alone and_then
  run_alone-and_then now (returns a) f s = refl
  run_alone-and_then now (get_shared k rest) f s =
      let (r, v, c) = get_shared_data s k in run_alone-and_then now (rest r v c) f s
  run_alone-and_then now (set_shared k v c rest) f s =
      let (r, s') = set_shared_data s k v c in run_alone-and_then now (rest r) f s'
  run_alone-and_then now (get_time rest) f s = run_alone-and_then now (rest now) f s

  -- A request goes on against a token, or it is stopped by a reply 429.
  pub data Answered (s : Store) (v : ℕ)
      (result : (FilterHeadersStatus × Option LocalResponse) × Store) : Type 0 where
    goes_on :
        (s' : Store)
        → 0 < v
        → result ≡ ((continue, none), s')
        → Written cell newest s s' token_bucket (v - 1)
        → Answered s v result
    stopped : v ≡ 0 → result ≡ ((stop_iteration, some too_many_request), s) → Answered s v result

  answer :
      (s : Store) (v : ℕ) (served : Bool × Store)
      → Served host s v served
      → Answered s v (verdict served.0, served.1)
  unfolding verdict
  answer s v served (allowed s' pos e w) = rw e (goes_on s' pos refl w)
  answer s v served (denied z e) = rw e (stopped z refl)

  -- With no other VM at work, a request goes on without a reply, and takes one token, exactly when
  -- the bucket holds one; at an empty bucket it is stopped by the local reply 429 and the shared
  -- data stay as they are.
  pub on_request_headers-Answered :
      (now : ℕ) (s : Store) (v c : ℕ)
      → cell s token_bucket ≡ some (v, c)
      → Answered s v (run_alone host now on_request_headers s)
  unfolding on_request_headers should_rate_limit run_alone
  on_request_headers-Answered now s v c e =
      rw (run_alone-and_then now get_token (λ token. returns (verdict token)) s)
        (answer s v (run_alone host now get_token s) (get_token-Served host now s v c e))
