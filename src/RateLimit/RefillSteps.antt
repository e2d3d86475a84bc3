-- ===== src/RateLimit/RefillSteps.antt =====
-- One host call of `refillToken`, at any point of the routine.
use wasm_extensions.Prelude.{ℕ, zero, suc, ◌≤◌, ◌≡◌, refl, Option, arith, Bool-cases, inl, inr, ltb}
use wasm_extensions.Host.{is_ok}
use wasm_extensions.RateLimit.Shared.{
  Key, token_bucket, last_refilled, SharedData, Program, returns, get_shared, set_shared, get_time,
  next_call,
}
use wasm_extensions.RateLimit.Bucket.{
  sub64, Refill, finished, out_of_fuel, refilled, after_write, add_tokens, refill_loop, after_stamp,
  stamp, read_time, refill_token,
}
use wasm_extensions.RateLimit.Reads.{Seen, Effect, quiet, writes, Seen-now, Seen-Effect}
use wasm_extensions.RateLimit.Steps.{Ready, Guarded, refused, stored, guarded_write}

-- What `refillToken` may write: the refilled bucket, or a stamp an interval after the last one.
abbrev pub Refills : ℕ → ℕ → ℕ → Key → ℕ → ℕ → Type 0
Refills tokens interval max token_bucket v₀ v = v ≡ refilled tokens max v₀
Refills tokens interval max last_refilled v₀ v = interval ≤ sub64 v v₀

module _ (host : SharedData) (tokens interval max : ℕ) where
  open host use {Store, get_found}

  -- The points of `refillToken`.
  pub data RefillAt (s : Store) (p : Program Refill) : Type 0 where
    returned : (r : Refill) → p ≡ returns r → RefillAt s p
    starting :
        (f : ℕ)
        → p ≡ get_shared last_refilled (read_time (refill_loop f tokens max) interval)
        → RefillAt s p
    timing :
        (f t c : ℕ)
        → p ≡ get_time (stamp (refill_loop f tokens max) interval t c)
        → Seen host s last_refilled t c
        → RefillAt s p
    stamping :
        (f t c now : ℕ)
        → p ≡ set_shared last_refilled now c (after_stamp (refill_loop f tokens max))
        → interval ≤ sub64 now t
        → Seen host s last_refilled t c
        → RefillAt s p
    reading :
        (f : ℕ)
        → p ≡ get_shared token_bucket (add_tokens tokens max (refill_loop f tokens max))
        → RefillAt s p
    writing :
        (f t c : ℕ)
        → p
          ≡ set_shared token_bucket
              (refilled tokens max t)
              c
              (after_write (refill_loop f tokens max))
        → Seen host s token_bucket t c
        → RefillAt s p

  pub refill_token-RefillAt : (s : Store) (f : ℕ) → RefillAt s (refill_token f tokens interval max)
  unfolding refill_token
  refill_token-RefillAt s f = starting f refl

  refill_loop-RefillAt : (s : Store) (f : ℕ) → RefillAt s (refill_loop f tokens max)
  unfolding refill_loop
  refill_loop-RefillAt s zero = returned out_of_fuel refl
  refill_loop-RefillAt s (suc f) = reading f refl

  abbrev RefillStep : Store → Program Refill × Store × Option (Key × ℕ) → Type 0
  RefillStep s (p', s', wrote) =
      RefillAt s' p' × Effect host (Refills tokens interval max) s s' wrote

  -- At a time before the interval has passed the routine returns; else it stamps the refill.
  stamp-RefillAt :
      (s : Store) (f t c now : ℕ)
      → Seen host s last_refilled t c
      → RefillAt s (stamp (refill_loop f tokens max) interval t c now)
  unfolding stamp
  stamp-RefillAt s f t c now h = elim (Bool-cases (ltb (sub64 now t) interval)) [
    | inl early ↦ returned finished (rw early)
    | inr due ↦ stamping f t c now (rw due) (ground (arith, due)) h
  ]

  after_stamp-RefillStep :
      (s : Store) (f t now : ℕ) {result : Program Refill × Store × Option (Key × ℕ)}
      → interval ≤ sub64 now t
      → Guarded host s last_refilled now t (after_stamp (refill_loop f tokens max)) result
      → RefillStep s result
  unfolding after_stamp
  after_stamp-RefillStep s f t now due (refused e) = rw e (returned finished refl, quiet refl refl)
  after_stamp-RefillStep s f t now due (stored s' c₀ e found w) =
      rw e (refill_loop-RefillAt s' f, writes last_refilled t now c₀ found w due refl)

  after_write-RefillStep :
      (s : Store) (f t : ℕ) {result : Program Refill × Store × Option (Key × ℕ)}
      → Guarded host s token_bucket
          (refilled tokens max t)
          t
          (after_write (refill_loop f tokens max))
          result
      → RefillStep s result
  unfolding after_write
  after_write-RefillStep s f t (refused e) = rw e (refill_loop-RefillAt s f, quiet refl refl)
  after_write-RefillStep s f t (stored s' c₀ e found w) =
      rw e
        (returned finished refl, writes token_bucket t (refilled tokens max t) c₀ found w refl refl)

  pub step-RefillAt :
      (now : ℕ) (s : Store) (p : Program Refill)
      → Ready host s
      → RefillAt s p
      → RefillStep s (next_call host now p s)
  unfolding next_call read_time add_tokens is_ok
  step-RefillAt now s p r (returned b e) = rw e (returned b refl, quiet refl refl)
  step-RefillAt now s p r (starting f e) =
      let (v, c, found) = r.present last_refilled in
      rw (e, get_found s last_refilled v c found)
        (timing f v c refl (Seen-now host s last_refilled v c found), quiet refl refl)
  step-RefillAt now s p r (timing f t c e h) = rw e (stamp-RefillAt s f t c now h, quiet refl refl)
  step-RefillAt now s p r (stamping f t c then_ e due h) = rw e (
      after_stamp-RefillStep s f t then_ due (
        guarded_write host now s last_refilled then_ t c (after_stamp (refill_loop f tokens max)) r
          h))
  step-RefillAt now s p r (reading f e) =
      let (v, c, found) = r.present token_bucket in
      rw (e, get_found s token_bucket v c found)
        (writing f v c refl (Seen-now host s token_bucket v c found), quiet refl refl)
  step-RefillAt now s p r (writing f t c e h) = rw e (
      after_write-RefillStep s f t (
        guarded_write host now s token_bucket (refilled tokens max t) t c
          (after_write (refill_loop f tokens max)) r h))

  pub RefillAt-Effect :
      {R : Key → ℕ → ℕ → Type 0} {s s' : Store} {wrote : Option (Key × ℕ)} (p : Program Refill)
      → Effect host R s s' wrote
      → RefillAt s p
      → RefillAt s' p
  RefillAt-Effect p x (returned b e) = returned b e
  RefillAt-Effect p x (starting f e) = starting f e
  RefillAt-Effect p x (timing f t c e h) = timing f t c e (Seen-Effect host last_refilled t c x h)
  RefillAt-Effect p x (stamping f t c now e due h) =
      stamping f t c now e due (Seen-Effect host last_refilled t c x h)
  RefillAt-Effect p x (reading f e) = reading f e
  RefillAt-Effect p x (writing f t c e h) = writing f t c e (Seen-Effect host token_bucket t c x h)
