-- ===== src/RateLimit/Steps.antt =====
-- One host call of `getToken` or of `refillToken`, at any point of the routine: where the routine
-- stands afterwards, and what the call did to the shared data.
use wasm_extensions.Prelude.{
  ℕ, zero, suc, ◌-◌, ◌<◌, ◌≡◌, refl, inl, inr, Option, none, some, Bool, true, false, arith,
}
use wasm_extensions.Host.{WasmResult, is_ok, ok, cas_mismatch}
use wasm_extensions.RateLimit.Shared.{
  Key, token_bucket, last_refilled, SharedData, Written, Program, returns, get_shared, set_shared,
  next_call,
}
use wasm_extensions.RateLimit.Bucket.{after_take, take_one, get_token_from}
use wasm_extensions.RateLimit.Reads.{
  Seen, Effect, quiet, writes, Seen-now, Seen-Effect, compare_and_swap,
}

-- What `getToken` may write: one token less than there is.
abbrev pub Takes : Key → ℕ → ℕ → Type 0
Takes token_bucket v₀ v = (0 < v₀) × (v ≡ v₀ - 1)
Takes last_refilled v₀ v = ⊥

module _ (host : SharedData) where
  open host use {Store, cell, newest, get_found, set_shared_data}

  -- Both cells exist, as they do after `initializeTokenBucket`.
  pub record Ready (s : Store) : Type 0 where
    pub present : (k : Key) → (v : ℕ) × (c : ℕ) × (cell s k ≡ some (v, c))

  -- A guarded write is refused and changes nothing, or replaces the value that was read.
  pub data Guarded {A : Type 0} (s : Store) (k : Key) (v t : ℕ) (rest : WasmResult → Program A)
      (result : Program A × Store × Option (Key × ℕ)) : Type 0 where
    refused : result ≡ (rest cas_mismatch, s, none) → Guarded s k v t rest result
    stored :
        (s' : Store) (c₀ : ℕ)
        → result ≡ (rest ok, s', some (k, v))
        → cell s k ≡ some (t, c₀)
        → Written cell newest s s' k v
        → Guarded s k v t rest result

  pub guarded_write :
      {A : Type 0} (now : ℕ) (s : Store) (k : Key) (v t c : ℕ) (rest : WasmResult → Program A)
      → Ready s
      → Seen host s k t c
      → Guarded s k v t rest (next_call host now (set_shared k v c rest) s)
  unfolding next_call is_ok
  guarded_write now s k v t c rest r h =
      let (v₀, c₀, found) = r.present k in
      elim (compare_and_swap host s k v t c v₀ c₀ found h) [
        | inl e ↦ refused (rw e)
        | inr (e, w, same) ↦ stored (set_shared_data s k v c).1 c₀ (rw e) (rw same at found) w
      ]

  -- The points of `getToken`.
  pub data TokenAt (s : Store) (p : Program Bool) : Type 0 where
    returned : (b : Bool) → p ≡ returns b → TokenAt s p
    reading :
        (rounds : ℕ) → p ≡ get_shared token_bucket (take_one (get_token_from rounds)) → TokenAt s p
    writing :
        (rounds t c : ℕ)
        → p ≡ set_shared token_bucket (t - 1) c (after_take (get_token_from rounds))
        → 0 < t
        → Seen host s token_bucket t c
        → TokenAt s p

  pub get_token_from-TokenAt : (s : Store) (rounds : ℕ) → TokenAt s (get_token_from rounds)
  unfolding get_token_from
  get_token_from-TokenAt s zero = returned true refl
  get_token_from-TokenAt s (suc rounds) = reading rounds refl

  take_one-TokenAt :
      (s : Store) (rounds t c : ℕ)
      → Seen host s token_bucket t c
      → TokenAt s (take_one (get_token_from rounds) ok t c)
  unfolding take_one is_ok
  take_one-TokenAt s rounds zero c h = returned false (ground arith)
  take_one-TokenAt s rounds (suc t) c h = writing rounds (suc t) c (ground arith) (omega arith) h

  -- The next host call from a point leads to a point.
  abbrev TokenStep : Store → Program Bool × Store × Option (Key × ℕ) → Type 0
  TokenStep s (p', s', wrote) = TokenAt s' p' × Effect host Takes s s' wrote

  after_take-TokenStep :
      (s : Store) (rounds t : ℕ) {result : Program Bool × Store × Option (Key × ℕ)}
      → 0 < t
      → Guarded s token_bucket (t - 1) t (after_take (get_token_from rounds)) result
      → TokenStep s result
  unfolding after_take
  after_take-TokenStep s rounds t pos (refused e) =
      rw e (get_token_from-TokenAt s rounds, quiet refl refl)
  after_take-TokenStep s rounds t pos (stored s' c₀ e found w) =
      rw e (returned true refl, writes token_bucket t (t - 1) c₀ found w (pos, refl) refl)

  pub step-TokenAt :
      (now : ℕ) (s : Store) (p : Program Bool)
      → Ready s
      → TokenAt s p
      → TokenStep s (next_call host now p s)
  unfolding next_call
  step-TokenAt now s p r (returned b e) = rw e (returned b refl, quiet refl refl)
  step-TokenAt now s p r (reading rounds e) =
      let (v, c, found) = r.present token_bucket in
      rw (e, get_found s token_bucket v c found)
        (take_one-TokenAt s rounds v c (Seen-now host s token_bucket v c found), quiet refl refl)
  step-TokenAt now s p r (writing rounds t c e pos h) = rw e (
      after_take-TokenStep s rounds t pos
        (guarded_write now s token_bucket (t - 1) t c (after_take (get_token_from rounds)) r h))

  pub TokenAt-Effect :
      {R : Key → ℕ → ℕ → Type 0} {s s' : Store} {wrote : Option (Key × ℕ)} (p : Program Bool)
      → Effect host R s s' wrote
      → TokenAt s p
      → TokenAt s' p
  TokenAt-Effect p f (returned b e) = returned b e
  TokenAt-Effect p f (reading rounds e) = reading rounds e
  TokenAt-Effect p f (writing rounds t c e pos h) =
      writing rounds t c e pos (Seen-Effect host token_bucket t c f h)
