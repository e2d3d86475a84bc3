-- ===== src/RateLimit/Limits.antt =====
-- The bounds of extensions/local_rate_limit, from the invariant of runs to a run from idle VMs.
use wasm_extensions.Prelude.{ℕ, ◌+◌, ◌*◌, ◌≤◌, ◌≡◌, List, [], some, arith, sym, ◌∙◌}
use native.Mathlib.Nat.{le_refl}
use wasm_extensions.RateLimit.Shared.{token_bucket, last_refilled, SharedData}
use wasm_extensions.RateLimit.System.{Settings, Event, System, idle, run}
use wasm_extensions.RateLimit.Steps.{Ready}
use wasm_extensions.RateLimit.Invariant.{Inv, run-Inv}

module _ (host : SharedData) (settings : Settings) where
  open host use {Store, cell}
  open settings use {tokens_per_refill, refill_interval_nanosec, max_tokens}

  -- The shared store as the plugin finds it, with every VM idle.
  unfoldable pub begin : Store → System host
  begin s = record { store = s; task = λ i. idle; taken = 0; refills = 0; stamps = [] }

  module _ (s : Store) (initial c start_time c' : ℕ)
      (bucket : cell s token_bucket ≡ some (initial, c))
      (refill_time : cell s last_refilled ≡ some (start_time, c')) where
    begin-Ready : Ready host s
    begin-Ready = record {
      present = elim [
        | token_bucket ↦ (initial, c, bucket)
        | last_refilled ↦ (start_time, c', refill_time)
      ];
    }

    begin-Inv : (cap : ℕ) → initial ≤ cap → Inv host settings initial cap start_time (begin s)
    unfolding begin
    begin-Inv cap small = record {
      levels = record {
        ready = begin-Ready;
        level = λ v c₁ e. ground (arith, sym e ∙ bucket);
        stamped = λ v c₁ e. ground (arith, sym e ∙ refill_time);
        spaced = tt;
      };
      tasks = λ i. tt;
    }

    ended :
        (events : List Event) (cap : ℕ)
        → initial ≤ cap
        → max_tokens ≤ cap
        → Inv host settings initial cap start_time (run host settings events (begin s))
    ended events cap i m =
        run-Inv host settings initial cap start_time m events (begin s) (begin-Inv cap i)

    -- However the host calls of the VMs interleave, the tokens that requests have taken are at most
    -- those that the bucket held at the beginning and `tokens_per_refill` for each write that
    -- refilled it: no token is handed out twice.
    pub taken-le :
        (events : List Event)
        → (run host settings events (begin s)).taken
          ≤ initial + (run host settings events (begin s)).refills * tokens_per_refill
    taken-le events =
        let inv = ended events (initial + max_tokens) (omega arith) (omega arith) in
        let (v, c₁, found) = inv.levels.ready.present token_bucket in
        omega (arith, inv.levels.level v c₁ found)

    -- However the host calls of the VMs interleave, a bucket that starts with at most `max_tokens`
    -- never holds more, also where the sum of a refill wraps round at 2^64.
    pub bucket-le :
        (events : List Event)
        → initial ≤ max_tokens
        → (v c₁ : ℕ) → cell (run host settings events (begin s)).store token_bucket ≡ some (v, c₁)
        → v ≤ max_tokens
    bucket-le events small v c₁ e =
        ((ended events max_tokens small (le_refl max_tokens)).levels.level v c₁ e).1
