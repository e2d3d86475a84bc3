-- ===== src/RateLimit/Contention.antt =====
-- `getToken` where another VM writes the bucket between its read and its write, in every round.
use wasm_extensions.Prelude.{ℕ, zero, suc, ◌-◌, ◌<◌, ◌≡◌, refl, ◌∙◌, Bool, true, some, arith}
use wasm_extensions.Host.{is_ok}
use wasm_extensions.RateLimit.Shared.{
  token_bucket, SharedData, Written, Program, returns, get_shared, set_shared, get_time,
}
use wasm_extensions.RateLimit.Bucket.{
  after_take, take_one, get_token_from, get_token, max_get_token_retry,
}
use wasm_extensions.RateLimit.Alone.{take_some}

unfoldable pub iterate {ℓ} : {A : Type ℓ} → ℕ → (A → A) → A → A
iterate zero f a = a
iterate (suc n) f a = iterate n f (f a)

module _ (host : SharedData) where
  open host use {
    Store, cell, newest, get_shared_data, set_shared_data, number_bounds, get_found, set_mismatch,
  }

  -- A program whose every write comes after a step of the other VMs.
  unfoldable pub run_contended {ℓ} :
      {A : Type ℓ} → (Store → Store) → ℕ → Program A → Store → A × Store
  run_contended others now (returns a) s = (a, s)
  run_contended others now (get_shared k rest) s =
      let (result, v, c) = get_shared_data s k in run_contended others now (rest result v c) s
  run_contended others now (set_shared k v c rest) s =
      let (result, s') = set_shared_data (others s) k v c in
      run_contended others now (rest result) s'
  run_contended others now (get_time rest) s = run_contended others now (rest now) s

  module _ (others : Store → Store) (now : ℕ)
      (busy : (s : Store) (v c : ℕ)
        → cell s token_bucket ≡ some (v, c)
        → (v' : ℕ) × (0 < v') × Written cell newest s (others s) token_bucket v') where
    lost_round :
        (retry : Program Bool) (s : Store) (v c : ℕ)
        → 0 < v
        → cell s token_bucket ≡ some (v, c)
        → run_contended others now (get_shared token_bucket (take_one retry)) s
          ≡ run_contended others now retry (others s)
    unfolding take_one after_take run_contended is_ok
    lost_round retry s zero c pos e = absurd (omega arith)
    lost_round retry s (suc v) c pos e =
        let (v', pos', w) = busy s (suc v) c e in
        let bounds = number_bounds s token_bucket (suc v) c e in
        rw (
          get_found s token_bucket (suc v) c e,
          run_contended,
          take_some retry v c,
          set_mismatch (others s) token_bucket (suc v - 1) v' c (newest (others s)) w.now
              (λ z. omega (arith, bounds)) (λ z. omega (arith, bounds, w.newer)),
        )

    lost_rounds :
        (rounds : ℕ) (s : Store) (v c : ℕ)
        → 0 < v
        → cell s token_bucket ≡ some (v, c)
        → run_contended others now (get_token_from rounds) s ≡ (true, iterate rounds others s)
    unfolding get_token_from run_contended iterate
    lost_rounds zero s v c pos e = refl
    lost_rounds (suc rounds) s v c pos e =
        let (v', pos', w) = busy s v c e in
        lost_round (get_token_from rounds) s v c pos e
        ∙ lost_rounds rounds (others s) v' (newest (others s)) pos' w.now

    -- Where other VMs write the bucket between each read and write, and leave a token in it, a
    -- request is let through after 20 rounds with no token taken: the shared data is only what the
    -- other VMs made of it.
    pub get_token_contended :
        (s : Store) (v c : ℕ)
        → 0 < v
        → cell s token_bucket ≡ some (v, c)
        → run_contended others now get_token s ≡ (true, iterate max_get_token_retry others s)
    get_token_contended s v c pos e = lost_rounds 20 s v c pos e
