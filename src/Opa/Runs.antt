-- ===== src/Opa/Runs.antt =====
-- Runs of extensions/open_policy_agent/cache.cc: any sequence of `check` and `add`.
use wasm_extensions.Prelude.{
  ℕ, ◌+◌, ◌%◌, ◌<◌, ◌≡◌, refl, inl, inr, Bool, some, List, [], ◌∷◌, length, All, arith, ℕ_discrete,
  ltb, leb, Bool-cases, Option-cases,
}
use wasm_extensions.Opa.Cache.{
  ResultCache, empty_cache, Result, defined, ◌>>=◌, word64, assign, remove, emplace, through_int,
  use_hash, expire, check_hash, add,
}
use wasm_extensions.Opa.Links.{Listed, hashes, erase_node-Cut, Linked-remove}
use wasm_extensions.Opa.Touch.{contains, without, drop_last, touch, IsValid}
use wasm_extensions.Opa.Safety.{use_hash-Touched}

-- The hash is not changed by the conversion to `int`.
abbrev pub Fits : ℕ → Type 0
Fits h = through_int h ≡ h

All-Listed : (l : List (ℕ × ℕ)) → All Fits (hashes l) → (n h : ℕ) → Listed n h l → Fits h
All-Listed [] a n h x = absurd x
All-Listed ((m, k) ∷ l) a n h (inl e) = rw (← e.1) a.0
All-Listed ((m, k) ∷ l) a n h (inr x) = All-Listed l a.1 n h x

Listed-All : (l : List (ℕ × ℕ)) → ((n h : ℕ) → Listed n h l → Fits h) → All Fits (hashes l)
Listed-All [] s = tt
Listed-All ((m, k) ∷ l) s = (s m k (inl (refl, refl)), Listed-All l (λ n h x. s n h (inr x)))

All-without : (h : ℕ) (ks : List ℕ) → All Fits ks → All Fits (without h ks)
unfolding without
All-without h [] a = a
All-without h (k ∷ ks) a = elim (ℕ_discrete k h) [
  | yes e ↦ ground (arith, a.1)
  | no e ↦ ground (arith, a.0, All-without h ks a.1)
]

All-drop_last : (ks : List ℕ) → All Fits ks → All Fits (drop_last ks)
unfolding drop_last
All-drop_last [] a = a
All-drop_last (k ∷ []) a = tt
All-drop_last (k ∷ j ∷ ks) a = (a.0, All-drop_last (j ∷ ks) a.1)

All-touch :
    (max_entries h : ℕ) (ks : List ℕ) → Fits h → All Fits ks → All Fits (touch max_entries h ks)
unfolding touch
All-touch max_entries h ks fits a = (
  fits,
  elim (Bool-cases (contains h ks)) [
    | inl e ↦ rw e (All-without h ks a)
    | inr e ↦ elim (Bool-cases (leb max_entries (length ks))) [
      | inl f ↦ rw (e, f) (All-drop_last ks a)
      | inr f ↦ rw (e, f) a
    ]
  ],
)

front-Listed :
    (hash : ℕ) (ks : List ℕ) (l : List (ℕ × ℕ)) → hashes l ≡ hash ∷ ks → (n : ℕ) × Listed n hash l
front-Listed hash ks [] e = absurd (cc)
front-Listed hash ks ((m, k) ∷ l) e = (m, inl (refl, cc))

-- A call of the cache with a hash.
pub data Call : Type 0 where
  check_at : ℕ → ℕ → Call
  add_at : ℕ → Bool → ℕ → Call

unfoldable pub hash_of_call : Call → ℕ
hash_of_call (check_at hash timestamp) = hash
hash_of_call (add_at hash result timestamp) = hash

module _ (max_entries : ℕ) where
  unfoldable pub call : Call → ResultCache → Result ResultCache
  call (check_at hash timestamp) c = do
    (c', hit) ← check_hash max_entries hash timestamp c
    defined c'
  call (add_at hash result timestamp) c = add max_entries hash result timestamp c

  unfoldable pub calls : List Call → ResultCache → Result ResultCache
  calls [] c = defined c
  calls (x ∷ xs) c = do c' ← call x c; calls xs c'

  -- A cache in step, all of whose hashes survive the conversion to `int`.
  pub record InStep (c : ResultCache) : Type 0 where
    pub valid : IsValid max_entries c
    pub small : All Fits (hashes c.recent)

  pub record Kept (m : Result ResultCache) : Type 0 where
    pub after : ResultCache
    pub done : m ≡ defined after
    pub in_step : InStep after

  pub use_hash-Kept :
      (hash : ℕ) (c : ResultCache)
      → 0 < max_entries
      → InStep c
      → Fits hash
      → Kept (use_hash max_entries hash c)
  use_hash-Kept hash c positive i fits =
      let t = use_hash-Touched max_entries hash c i.valid (All-Listed c.recent i.small) positive in
      record {
        after = t.after;
        done = t.done;
        in_step = record {
          valid = t.valid;
          small = rw t.view (All-touch max_entries hash (hashes c.recent) fits i.small);
        };
      }

  pub expire-Kept :
      (hash n : ℕ) (c : ResultCache)
      → InStep c
      → c.pos hash ≡ some n
      → Kept (expire max_entries hash c)
  unfolding expire remove
  expire-Kept hash n c i at =
      let x = i.valid.linked.placed n hash at in
      let (r, erased, cut) = erase_node-Cut n hash c.recent i.valid.linked.distinct x in
      record {
        after = record c {
          recent = r;
          pos = remove c.pos hash;
          result_cache = remove c.result_cache hash;
        };
        done = rw (at, expire, erased);
        in_step = record {
          valid = record {
            linked = Linked-remove i.valid.linked at cut;
            bounded = omega (arith, i.valid.bounded, cut.shorter);
            cached = λ h answer e. elim (ℕ_discrete hash h) [
              | yes p ↦ absurd (ground arith)
              | no p ↦
                  let (m, there) = i.valid.cached h answer (ground (arith, e)) in
                  (m, ground (arith, there))
            ];
          };
          small = Listed-All r (λ m h y. All-Listed c.recent i.small m h (cut.kept m h y).0);
        };
      }

  emplace-IsValid :
      (hash n : ℕ) (value : Bool × ℕ) (c : ResultCache)
      → IsValid max_entries c
      → c.pos hash ≡ some n
      → IsValid max_entries (record c { result_cache = emplace c.result_cache hash value })
  unfolding emplace assign
  emplace-IsValid hash n value c v at = record {
    linked = v.linked;
    bounded = v.bounded;
    cached = λ h answer e. elim (ℕ_discrete hash h) [
      | yes p ↦ (n, rw (← p) at)
      | no p ↦ v.cached h answer (elim (Option-cases (c.result_cache hash)) [
        | inl new ↦ ground (arith, e, new)
        | inr (old, there) ↦ ground (arith, e, there)
      ])
    ];
  }

  pub add-Kept :
      (hash : ℕ) (result : Bool) (timestamp : ℕ) (c : ResultCache)
      → 0 < max_entries
      → InStep c
      → Fits hash
      → Kept (add max_entries hash result timestamp c)
  unfolding add touch
  add-Kept hash result timestamp c positive i fits =
      let t = use_hash-Touched max_entries hash c i.valid (All-Listed c.recent i.small) positive in
      let (n, x) = front-Listed hash _ t.after.recent t.view in
      record {
        after = record (t.after) {
          result_cache = emplace t.after.result_cache hash (result, timestamp);
        };
        done = rw (add, t.done);
        in_step = record {
          valid =
              emplace-IsValid hash n (result, timestamp) t.after t.valid
                (t.valid.linked.listed n hash x);
          small = rw t.view (All-touch max_entries hash (hashes c.recent) fits i.small);
        };
      }

  pub call-Kept :
      (x : Call) (c : ResultCache)
      → 0 < max_entries
      → InStep c
      → Fits (hash_of_call x)
      → Kept (call x c)
  unfolding call check_hash hash_of_call
  call-Kept (add_at hash result timestamp) c positive i fits =
      add-Kept hash result timestamp c positive i fits
  call-Kept (check_at hash timestamp) c positive i fits =
      elim (Option-cases (c.result_cache hash)) [
        | inl e ↦ record { after = c; done = rw (e, check_hash); in_step = i }
        | inr ((allowed, inserted), e) ↦
            elim (Bool-cases (ltb timestamp ((inserted + c.valid_for_nanosec) % word64))) [
              | inl young ↦
                  let k = use_hash-Kept hash c positive i fits in
                  record {
                    after = k.after;
                    done = rw (e, check_hash, young, k.done);
                    in_step = k.in_step;
                  }
              | inr old ↦
                  let (n, at) = i.valid.cached hash (allowed, inserted) e in
                  let k = expire-Kept hash n c i at in
                  record {
                    after = k.after;
                    done = rw (e, check_hash, old, k.done);
                    in_step = k.in_step;
                  }
            ]
      ]

  calls-Kept :
      (xs : List Call) (c : ResultCache)
      → 0 < max_entries
      → InStep c
      → All (λ x. Fits (hash_of_call x)) xs
      → Kept (calls xs c)
  unfolding calls
  calls-Kept [] c positive i fits = record { after = c; done = refl; in_step = i }
  calls-Kept (x ∷ xs) c positive i fits =
      let k = call-Kept x c positive i fits.0 in
      let k' = calls-Kept xs k.after positive k.in_step fits.1 in
      record { after = k'.after; done = rw k.done k'.done; in_step = k'.in_step }

  pub empty-InStep : InStep empty_cache
  empty-InStep = record {
    valid = record {
      linked = record {
        listed = λ n h x. absurd x;
        placed = λ n h e. cc;
        fresh = λ n h x. absurd x;
        distinct = tt;
      };
      bounded = omega arith;
      cached = λ h answer e. absurd (cc);
    };
    small = tt;
  }

  -- From a new cache with a positive bound, any sequence of `check` and `add` whose hashes all
  -- survive the conversion to `int` and back never follows a dangling iterator. It ends in a cache
  -- whose list, positions and answers are in step and whose list is within the bound.
  pub calls-InStep :
      (xs : List Call)
      → 0 < max_entries
      → All (λ x. Fits (hash_of_call x)) xs
      → (c : ResultCache) × (calls xs empty_cache ≡ defined c) × IsValid max_entries c
  calls-InStep xs positive fits =
      let k = calls-Kept xs empty_cache positive empty-InStep fits in
      (k.after, k.done, k.in_step.valid)
