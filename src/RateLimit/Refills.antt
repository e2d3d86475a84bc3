-- ===== src/RateLimit/Refills.antt =====
-- `refillToken` with no other VM at work.
use wasm_extensions.Prelude.{
  ◌+◌, ◌-◌, ◌%◌, ◌^◌, ◌<◌, ◌≤◌, arith, ltb→lt, ℕ, suc, ◌≡◌, refl, ◌∙◌, inl, inr, some, Bool-cases,
  ltb,
}
use wasm_extensions.Host.{is_ok}
use wasm_extensions.RateLimit.Shared.{token_bucket, last_refilled, SharedData, Written, run_alone}
use wasm_extensions.RateLimit.Bucket.{
  Refill, finished, refilled, sub64, after_write, add_tokens, refill_loop, after_stamp, stamp,
  read_time, refill_token,
}

module _ (host : SharedData) where
  open host use {Store, cell, newest, get_shared_data, set_shared_data, get_found, set_stored}

  refill_loop-Written :
      (now fuel tokens max : ℕ) (s : Store) (v c : ℕ)
      → cell s token_bucket ≡ some (v, c)
      → (s' : Store) × (run_alone host now (refill_loop (suc fuel) tokens max) s ≡ (finished, s'))
        × Written cell newest s s' token_bucket (refilled tokens max v)
  unfolding refill_loop add_tokens after_write run_alone is_ok
  refill_loop-Written now fuel tokens max s v c e =
      let st = set_stored s token_bucket (refilled tokens max v) c (inr (inr (v, e))) in
      (
        (set_shared_data s token_bucket (refilled tokens max v) c).1,
        rw (get_found s token_bucket v c e, add_tokens, run_alone, st.0),
        st.1,
      )

  -- The content after a refill is the sum, modulo 2^64, or `max` where the sum exceeds it.
  pub data Capped (max sum content : ℕ) : Type 0 where
    whole : sum ≤ max → content ≡ sum → Capped max sum content
    cut : max < sum → content ≡ max → Capped max sum content

  refilled-Capped : (tokens max v : ℕ) → Capped max ((v + tokens) % 2 ^ 64) (refilled tokens max v)
  unfolding refilled
  refilled-Capped tokens max v = elim (Bool-cases (ltb max ((v + tokens) % 2 ^ 64))) [
    | inl e ↦ cut (ltb→lt _ _ e) (rw (e, refilled) refl)
    | inr e ↦ whole (ground arith) (rw (e, refilled) refl)
  ]

  -- The refill is stamped with the time, and the bucket that held `v` has more.
  pub record Topped (now v tokens max : ℕ) (result : Refill × Store) : Type 0 where
    pub ended : result.0 ≡ finished
    pub content : ℕ
    pub capped : Capped max ((v + tokens) % 2 ^ 64) content
    pub bucket : (c : ℕ) × (cell result.1 token_bucket ≡ some (content, c))
    pub stamped : (c : ℕ) × (cell result.1 last_refilled ≡ some (now, c))

  -- The time since the stamp `u`, in 64 bits, is less than the interval and nothing is written, or
  -- it is not and the bucket is refilled.
  pub data Ticked (now v u tokens interval max : ℕ) (s : Store) (result : Refill × Store)
      : Type 0 where
    early :
        (now + 2 ^ 64 - u) % 2 ^ 64 < interval
        → result ≡ (finished, s)
        → Ticked now v u tokens interval max s result
    due :
        interval ≤ (now + 2 ^ 64 - u) % 2 ^ 64
        → Topped now v tokens max result
        → Ticked now v u tokens interval max s result

  -- With no other VM at work and one round of fuel, `refillToken` ends: if the time since the last
  -- refill, in 64 bits, is less than the interval it leaves the shared data alone; otherwise it
  -- stamps the refill with the time and leaves in the bucket the sum modulo 2^64 of its content and
  -- the tokens, or the maximum where that sum exceeds it.
  pub refill_token-Ticked :
      (now fuel tokens interval max : ℕ) (s : Store) (v c u d : ℕ)
      → cell s token_bucket ≡ some (v, c)
      → cell s last_refilled ≡ some (u, d)
      → Ticked now v u tokens interval max s
          (run_alone host now (refill_token (suc fuel) tokens interval max) s)
  unfolding refill_token read_time stamp after_stamp run_alone is_ok
  refill_token-Ticked now fuel tokens interval max s v c u d e f =
      elim (Bool-cases (ltb (sub64 now u) interval)) [
        | inl before ↦
            early (ltb→lt _ _ before)
              (rw (get_found s last_refilled u d f, read_time, run_alone, before))
        | inr late ↦
            let st = set_stored s last_refilled now d (inr (inr (u, f))) in
            let s₁ = (set_shared_data s last_refilled now d).1 in
            let (s₂, done, w) =
              refill_loop-Written now fuel tokens max s₁ v c (st.1.others token_bucket (cc) ∙ e) in
            due (ground arith) (
              rw (get_found s last_refilled u d f, read_time, run_alone, late, st.0, done)
                (record {
                  ended = refl;
                  content = refilled tokens max v;
                  capped = refilled-Capped tokens max v;
                  bucket = (newest s₂, w.now);
                  stamped = (newest s₁, w.others last_refilled (cc) ∙ st.1.now);
                }))
      ]
