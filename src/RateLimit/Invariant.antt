-- ===== src/RateLimit/Invariant.antt =====
-- The invariant of runs of extensions/local_rate_limit: requests, ticks and host calls of any number
-- of VMs.
use wasm_extensions.Prelude.{
  ℕ, ◌+◌, ◌*◌, ◌≤◌, ◌≡◌, sym, ◌∙◌, Option, some, Bool, List, [], ◌∷◌, arith, inl, inr, ◌==◌,
  Bool-cases,
}
use native.Mathlib.Nat.{add-zero}
use wasm_extensions.RateLimit.Shared.{
  Key, token_bucket, last_refilled, SharedData, Written, Program, returns,
}
use wasm_extensions.RateLimit.Bucket.{sub64, refilled, Refill}
use wasm_extensions.RateLimit.System.{
  Task, idle, taking, refilling, Settings, Event, request, tick, host_call, update, count_taken,
  log_stamp, rest_taking, rest_refilling, System, make_call, start, on_event, run,
}
use wasm_extensions.RateLimit.Reads.{Key-discrete, Effect, quiet, writes}
use wasm_extensions.RateLimit.Steps.{
  Ready, TokenAt, Takes, get_token_from-TokenAt, step-TokenAt, TokenAt-Effect,
}
use wasm_extensions.RateLimit.RefillSteps.{
  RefillAt, Refills, refill_token-RefillAt, step-RefillAt, RefillAt-Effect,
}

-- The time of the last stamp, and stamps that are an interval apart.
abbrev pub latest : ℕ → List ℕ → ℕ
latest start [] = start
latest start (t ∷ stamps) = t

abbrev pub Spaced : ℕ → ℕ → List ℕ → Type 0
Spaced interval start [] = Unit
Spaced interval start (t ∷ stamps) =
    (interval ≤ sub64 t (latest start stamps)) × Spaced interval start stamps

module _ (host : SharedData) (settings : Settings) where
  open host use {Store, cell}
  open settings use {tokens_per_refill, refill_interval_nanosec, max_tokens, fuel}

  abbrev pub TaskAt : Store → Task → Type 0
  TaskAt s idle = Unit
  TaskAt s (taking p) = TokenAt host s p
  TaskAt s (refilling p) = RefillAt host tokens_per_refill refill_interval_nanosec max_tokens s p

  -- The bucket and the stamps, against the tokens `initial` and the time `start` at the beginning.
  pub record Levels (initial cap start : ℕ) (s : Store) (taken refills : ℕ) (stamps : List ℕ)
      : Type 0 where
    pub ready : Ready host s
    pub level :
        (v c : ℕ)
        → cell s token_bucket ≡ some (v, c)
        → (v + taken ≤ initial + refills * tokens_per_refill) × (v ≤ cap)
    pub stamped : (v c : ℕ) → cell s last_refilled ≡ some (v, c) → v ≡ latest start stamps
    pub spaced : Spaced refill_interval_nanosec start stamps

  value_now :
      {s s' : Store} {k : Key} {v : ℕ} (v' c' : ℕ)
      → Written cell host.newest s s' k v
      → cell s' k ≡ some (v', c')
      → v' ≡ v
  value_now v' c' w e = ground (arith, sym e ∙ w.now)

  Ready-Written :
      {s s' : Store} {k : Key} {v : ℕ}
      → Ready host s
      → Written cell host.newest s s' k v
      → Ready host s'
  Ready-Written {s} {s'} {k} {v} r w = record {
    present = λ j. elim (Key-discrete j k) [
      | yes p ↦ (v, host.newest s', rw p w.now)
      | no p ↦ let (v₁, c₁, e) = r.present j in (v₁, c₁, w.others j p ∙ e)
    ];
  }

  Levels-Takes :
      {initial cap start taken refills : ℕ} {stamps : List ℕ} {s s' : Store}
      {wrote : Option (Key × ℕ)}
      → Effect host Takes s s' wrote
      → Levels initial cap start s taken refills stamps
      → Levels initial cap start s' (taken + count_taken wrote) refills stamps
  unfolding count_taken
  Levels-Takes (quiet e n) h = rw (e, n, add-zero) h
  Levels-Takes (writes token_bucket v₀ v c₀ found w ok n) h = rw n (record {
    ready = Ready-Written h.ready w;
    level = λ v' c' e. ground (arith, value_now v' c' w e, h.level v₀ c₀ found, ok);
    stamped = λ v' c' e. h.stamped v' c' (sym (w.others last_refilled (cc)) ∙ e);
    spaced = h.spaced;
  })
  Levels-Takes (writes last_refilled v₀ v c₀ found w ok n) h = absurd ok

  refilled_bounds :
      (v : ℕ)
      → (refilled tokens_per_refill max_tokens v ≤ v + tokens_per_refill)
        × (refilled tokens_per_refill max_tokens v ≤ max_tokens)
  unfolding refilled
  refilled_bounds v = ground arith

  Levels-Refills :
      {initial cap start taken refills : ℕ} {stamps : List ℕ} {s s' : Store}
      {wrote : Option (Key × ℕ)}
      → max_tokens ≤ cap
      → Effect host (Refills tokens_per_refill refill_interval_nanosec max_tokens) s s' wrote
      → Levels initial cap start s taken refills stamps
      → Levels initial cap start s' taken (refills + count_taken wrote) (log_stamp wrote stamps)
  unfolding count_taken log_stamp
  Levels-Refills m (quiet e n) h = rw (e, n, add-zero) h
  Levels-Refills m (writes token_bucket v₀ v c₀ found w ok n) h = rw n (record {
    ready = Ready-Written h.ready w;
    level =
        λ v' c' e. ground (arith, value_now v' c' w e, h.level v₀ c₀ found, ok, refilled_bounds v₀);
    stamped = λ v' c' e. h.stamped v' c' (sym (w.others last_refilled (cc)) ∙ e);
    spaced = h.spaced;
  })
  Levels-Refills m (writes last_refilled v₀ v c₀ found w ok n) h =
      rw (n, add-zero)
        (record {
          ready = Ready-Written h.ready w;
          level = λ v' c' e. h.level v' c' (sym (w.others token_bucket (cc)) ∙ e);
          stamped = λ v' c' e. value_now v' c' w e;
          spaced = (rw (← h.stamped v₀ c₀ found) ok, h.spaced);
        })

  TaskAt-Effect :
      {R : Key → ℕ → ℕ → Type 0} {s s' : Store} {wrote : Option (Key × ℕ)} (t : Task)
      → Effect host R s s' wrote
      → TaskAt s t
      → TaskAt s' t
  TaskAt-Effect idle f h = tt
  TaskAt-Effect (taking p) f h = TokenAt-Effect host p f h
  TaskAt-Effect (refilling p) f h =
      RefillAt-Effect host tokens_per_refill refill_interval_nanosec max_tokens p f h

  rest_taking-TaskAt : (s : Store) (p : Program Bool) → TokenAt host s p → TaskAt s (rest_taking p)
  unfolding rest_taking
  rest_taking-TaskAt s (returns b) h = tt
  rest_taking-TaskAt s p h = h

  rest_refilling-TaskAt :
      (s : Store) (p : Program Refill)
      → RefillAt host tokens_per_refill refill_interval_nanosec max_tokens s p
      → TaskAt s (rest_refilling p)
  unfolding rest_refilling
  rest_refilling-TaskAt s (returns b) h = tt
  rest_refilling-TaskAt s p h = h

  TaskAt-update :
      (s : Store) (f : ℕ → Task) (i : ℕ) (t : Task)
      → TaskAt s t
      → ((j : ℕ) → TaskAt s (f j))
      → (j : ℕ) → TaskAt s (update f i t j)
  unfolding update
  TaskAt-update s f i t h all j = elim (Bool-cases (i == j)) [
    | inl e ↦ rw e h
    | inr e ↦ rw e (all j)
  ]

  -- A state that a schedule can reach.
  pub record Inv (initial cap start : ℕ) (s : System host) : Type 0 where
    pub levels : Levels initial cap start s.store s.taken s.refills s.stamps
    pub tasks : (i : ℕ) → TaskAt s.store (s.task i)

  module _ (initial cap start_time : ℕ) (m : max_tokens ≤ cap) where
    make_call-Inv :
        (i now : ℕ) (t : Task) (s : System host)
        → TaskAt s.store t
        → Inv initial cap start_time s
        → Inv initial cap start_time (make_call host i now t s)
    unfolding make_call
    make_call-Inv i now idle s at inv = inv
    make_call-Inv i now (taking p) s at inv =
        let (at', effect) = step-TokenAt host now s.store p inv.levels.ready at in
        record {
          levels = Levels-Takes effect inv.levels;
          tasks =
              TaskAt-update _ s.task i _ (rest_taking-TaskAt _ _ at')
                (λ j. TaskAt-Effect (s.task j) effect (inv.tasks j));
        }
    make_call-Inv i now (refilling p) s at inv =
        let (at', effect) =
          step-RefillAt host tokens_per_refill refill_interval_nanosec max_tokens now s.store p
            inv.levels.ready at in
        record {
          levels = Levels-Refills m effect inv.levels;
          tasks =
              TaskAt-update _ s.task i _ (rest_refilling-TaskAt _ _ at')
                (λ j. TaskAt-Effect (s.task j) effect (inv.tasks j));
        }

    start-Inv :
        (i : ℕ) (t routine : Task) (s : System host)
        → TaskAt s.store routine
        → Inv initial cap start_time s
        → Inv initial cap start_time (start host i t routine s)
    unfolding start
    start-Inv i idle routine s at inv = record {
      levels = inv.levels;
      tasks = TaskAt-update s.store s.task i routine at inv.tasks;
    }
    start-Inv i (taking p) routine s at inv = inv
    start-Inv i (refilling p) routine s at inv = inv

    on_event-Inv :
        (e : Event) (s : System host)
        → Inv initial cap start_time s
        → Inv initial cap start_time (on_event host settings e s)
    unfolding on_event
    on_event-Inv (request i) s inv =
        start-Inv i (s.task i) _ s (get_token_from-TokenAt host s.store 20) inv
    on_event-Inv (tick i) s inv =
        start-Inv i (s.task i) _ s (refill_token-RefillAt host _ _ _ s.store fuel) inv
    on_event-Inv (host_call i now) s inv = make_call-Inv i now (s.task i) s (inv.tasks i) inv

    pub run-Inv :
        (events : List Event) (s : System host)
        → Inv initial cap start_time s
        → Inv initial cap start_time (run host settings events s)
    unfolding run
    run-Inv [] s inv = inv
    run-Inv (e ∷ events) s inv = run-Inv events (on_event host settings e s) (on_event-Inv e s inv)
