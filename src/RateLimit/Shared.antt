-- ===== src/RateLimit/Shared.antt =====
-- The host's shared data as extensions/local_rate_limit/bucket.cc calls it, and the plugin's code
-- as a program of such calls. The host is not part of the repository: it is the record
-- `SharedData`, whose laws are the documented compare-and-swap of the Proxy-Wasm interface.
use wasm_extensions.Host
use wasm_extensions.Prelude.{ℕ, false, if◌then◌else◌, ◌≤◌, ◌<◌, ◌≡◌, ◌≢◌, ◌⊎◌, Option, none, some}
use wasm_extensions.Host.{WasmResult, ok, cas_mismatch}

-- The two keys, `localRateLimitTokenBucket` and `localRateLimitLastRefilled`.
pub data Key : Type 0 where
  token_bucket last_refilled : Key

-- A write took place: the cell has the new value under a new number, which is the largest so far,
-- and the other cells are as they were.
pub record Written {Store : Type 0} (cell : Store → Key → Option (ℕ × ℕ)) (newest : Store → ℕ)
    (s s' : Store) (k : Key) (v : ℕ) : Type 0 where
  pub now : cell s' k ≡ some (v, newest s')
  pub newer : newest s < newest s'
  pub others : (j : Key) → j ≢ k → cell s' j ≡ cell s j

-- A cell holds a `uint64_t` and its compare-and-swap number. `newest` is the largest number given
-- out so far; numbers are taken not to wrap round. A write with the number 0 is unconditional.
pub record SharedData : Type 1 where
  pub Store : Type 0
  pub cell : Store → Key → Option (ℕ × ℕ)
  pub newest : Store → ℕ
  pub get_shared_data : Store → Key → WasmResult × ℕ × ℕ
  pub set_shared_data : Store → Key → ℕ → ℕ → WasmResult × Store
  pub number_bounds :
      (s : Store) (k : Key) (v c : ℕ) → cell s k ≡ some (v, c) → (0 < c) × (c ≤ newest s)
  pub get_found :
      (s : Store) (k : Key) (v c : ℕ) → cell s k ≡ some (v, c) → get_shared_data s k ≡ (ok, v, c)
  pub get_missing :
      (s : Store) (k : Key) → cell s k ≡ none → Host.is_ok (get_shared_data s k).0 ≡ false
  pub set_mismatch :
      (s : Store) (k : Key) (v v₀ c c₀ : ℕ)
      → cell s k ≡ some (v₀, c₀)
      → c ≢ 0
      → c ≢ c₀
      → set_shared_data s k v c ≡ (cas_mismatch, s)
  pub set_stored :
      (s : Store) (k : Key) (v c : ℕ)
      → (c ≡ 0) ⊎ ((cell s k ≡ none) ⊎ ((v₀ : ℕ) × (cell s k ≡ some (v₀, c))))
      → ((set_shared_data s k v c).0 ≡ ok) × Written cell newest s (set_shared_data s k v c).1 k v

-- The plugin's code between two host calls is pure, so a routine is a tree of its host calls.
pub data Program {ℓ} (A : Type ℓ) : Type ℓ where
  returns : A → Program A
  get_shared : Key → (WasmResult → ℕ → ℕ → Program A) → Program A
  set_shared : Key → ℕ → ℕ → (WasmResult → Program A) → Program A
  get_time : (ℕ → Program A) → Program A

module _ (host : SharedData) where
  open host use {Store, get_shared_data, set_shared_data}

  -- The next host call of a program at the time `now`: the rest of the program, the store, and the
  -- value that the call stored, if it stored one.
  unfoldable pub next_call {ℓ} :
      {A : Type ℓ} → ℕ → Program A → Store → Program A × Store × Option (Key × ℕ)
  next_call now (returns a) s = (returns a, s, none)
  next_call now (get_shared k rest) s =
      let (result, v, c) = get_shared_data s k in (rest result v c, s, none)
  next_call now (set_shared k v c rest) s =
      let (result, s') = set_shared_data s k v c in
      (rest result, s', (if Host.is_ok result then some (k, v) else none))
  next_call now (get_time rest) s = (rest now, s, none)

  -- The whole program with no other VM at work.
  unfoldable pub run_alone {ℓ} : {A : Type ℓ} → ℕ → Program A → Store → A × Store
  run_alone now (returns a) s = (a, s)
  run_alone now (get_shared k rest) s =
      let (result, v, c) = get_shared_data s k in run_alone now (rest result v c) s
  run_alone now (set_shared k v c rest) s =
      let (result, s') = set_shared_data s k v c in run_alone now (rest result) s'
  run_alone now (get_time rest) s = run_alone now (rest now) s
