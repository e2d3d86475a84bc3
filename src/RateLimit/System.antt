-- ===== src/RateLimit/System.antt =====
-- Any number of VMs that serve requests and timer ticks over the same shared data, interleaved at
-- their host calls; extensions/local_rate_limit/plugin.cc starts the routines of bucket.cc.
use wasm_extensions.Prelude.{ℕ, ◌+◌, Bool, Option, none, some, List, [], ◌∷◌, if◌then◌else◌, ◌==◌}
use wasm_extensions.RateLimit.Shared.{
  Key, token_bucket, last_refilled, SharedData, Program, returns, next_call,
}
use wasm_extensions.RateLimit.Bucket.{get_token, Refill, refill_token}

-- What a VM is in the middle of: `getToken`, `refillToken`, or nothing.
pub data Task : Type 0 where
  idle : Task
  taking : Program Bool → Task
  refilling : Program Refill → Task

-- The members `tokens_per_refill_`, `refill_interval_nanosec_` and `max_tokens_` of the root
-- context, alike in every VM, and the fuel of the refill loop.
pub record Settings : Type 0 where
  pub tokens_per_refill : ℕ
  pub refill_interval_nanosec : ℕ
  pub max_tokens : ℕ
  pub fuel : ℕ

-- A request or a tick starts in a VM, or the VM makes its next host call at a time.
pub data Event : Type 0 where
  request tick : ℕ → Event
  host_call : ℕ → ℕ → Event

unfoldable pub update {ℓ} : {A : Type ℓ} → (ℕ → A) → ℕ → A → ℕ → A
update f i a j = if i == j then a else f j

-- What a write by `getToken` or by `refillToken` counts as.
unfoldable pub count_taken : Option (Key × ℕ) → ℕ
count_taken none = 0
count_taken (some (token_bucket, v)) = 1
count_taken (some (last_refilled, v)) = 0

unfoldable pub log_stamp : Option (Key × ℕ) → List ℕ → List ℕ
log_stamp none stamps = stamps
log_stamp (some (token_bucket, v)) stamps = stamps
log_stamp (some (last_refilled, v)) stamps = v ∷ stamps

-- A VM whose routine has returned is idle.
unfoldable pub rest_taking : Program Bool → Task
rest_taking (returns b) = idle
rest_taking p = taking p

unfoldable pub rest_refilling : Program Refill → Task
rest_refilling (returns r) = idle
rest_refilling p = refilling p

module _ (host : SharedData) where
  open host use {Store}

  -- The shared store and the VMs, with a count of the tokens that were taken, a count of the writes
  -- that refilled the bucket, and the times at which refills were stamped, latest first.
  pub record System : Type 0 where
    pub store : Store
    pub task : ℕ → Task
    pub taken : ℕ
    pub refills : ℕ
    pub stamps : List ℕ

  -- The next host call of VM `i`, which is doing the given task.
  unfoldable pub make_call : ℕ → ℕ → Task → System → System
  make_call i now idle s = s
  make_call i now (taking p) s =
      let (p', store', wrote) = next_call host now p s.store in
      record s {
        store = store';
        task = update s.task i (rest_taking p');
        taken = s.taken + count_taken wrote;
      }
  make_call i now (refilling p) s =
      let (p', store', wrote) = next_call host now p s.store in
      record s {
        store = store';
        task = update s.task i (rest_refilling p');
        refills = s.refills + count_taken wrote;
        stamps = log_stamp wrote s.stamps;
      }

  -- A VM starts a routine if it is idle: `onRequestHeaders` and `onTick`.
  unfoldable pub start : ℕ → Task → Task → System → System
  start i idle routine s = record s { task = update s.task i routine }
  start i (taking p) routine s = s
  start i (refilling p) routine s = s

  module _ (settings : Settings) where
    open settings use {tokens_per_refill, refill_interval_nanosec, max_tokens, fuel}

    unfoldable pub on_event : Event → System → System
    on_event (request i) s = start i (s.task i) (taking get_token) s
    on_event (tick i) s =
        start i (s.task i)
          (refilling (refill_token fuel tokens_per_refill refill_interval_nanosec max_tokens)) s
    on_event (host_call i now) s = make_call i now (s.task i) s

    -- A schedule, first event first.
    unfoldable pub run : List Event → System → System
    run [] s = s
    run (e ∷ events) s = run events (on_event e s)
