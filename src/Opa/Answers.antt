-- ===== src/Opa/Answers.antt =====
-- `ResultCache::check` after `ResultCache::add`, in extensions/open_policy_agent/cache.cc.
use mathlib.Core.Path.{subst}
use wasm_extensions.Prelude.{
  length, leb, ℕ, ◌+◌, ◌%◌, ◌<◌, ◌≡◌, refl, sym, ◌∙◌, Bool, true, false, none, some, inl, inr,
  arith, ltb, Bool-cases, Option-cases, if◌then◌else◌,
}
use wasm_extensions.Opa.Cache.{
  ResultCache, defined, ◌>>=◌, word64, assign, remove, emplace, push_front, evict, make_room,
  use_hash, check_hash, add, pop_back, erase_node,
}
use wasm_extensions.Opa.Touch.{>>=-defined}
use wasm_extensions.Opa.Runs.{Fits, InStep, use_hash-Kept, add-Kept, expire-Kept}

defined_injective : {c c' : ResultCache} → defined c ≡ defined c' → c ≡ c'
defined_injective e = cc

-- No answer at the hash, and the same period of validity as before.
pub record Unanswered (hash : ℕ) (c c' : ResultCache) : Type 0 where
  pub missing : c'.result_cache hash ≡ none
  pub period : c'.valid_for_nanosec ≡ c.valid_for_nanosec

module _ (max_entries : ℕ) where
  evict-Unanswered :
      (hash : ℕ) (c c' : ResultCache)
      → c.result_cache hash ≡ none
      → evict max_entries c ≡ defined c'
      → Unanswered hash c c'
  unfolding evict remove
  evict-Unanswered hash c c' new e =
      let ((back, r), popped, eq) = >>=-defined (pop_back c.recent) _ e in
      subst (Unanswered hash c) (defined_injective eq)
        (record { missing = ground (arith, new); period = refl })

  room_full :
      (hash : ℕ) (c : ResultCache)
      → c.pos hash ≡ none
      → leb max_entries (length c.recent) ≡ true
      → make_room max_entries hash c ≡ evict max_entries c
  unfolding make_room
  room_full hash c at full = rw (at, make_room, full)

  room_left :
      (hash : ℕ) (c : ResultCache)
      → c.pos hash ≡ none
      → leb max_entries (length c.recent) ≡ false
      → make_room max_entries hash c ≡ defined c
  unfolding make_room
  room_left hash c at room = rw (at, make_room, room)

  room_old :
      (hash n : ℕ) (c : ResultCache)
      → c.pos hash ≡ some n
      → make_room max_entries hash c
        ≡ (do r ← erase_node n c.recent; defined (record c { recent = r }))
  unfolding make_room
  room_old hash n c at = rw (at, make_room)

  make_room-Unanswered :
      (hash : ℕ) (c c' : ResultCache)
      → c.result_cache hash ≡ none
      → make_room max_entries hash c ≡ defined c'
      → Unanswered hash c c'
  unfolding make_room
  make_room-Unanswered hash c c' new e = elim (Option-cases (c.pos hash)) [
    | inl at ↦ elim (Bool-cases (leb max_entries (length c.recent))) [
      | inl full ↦ evict-Unanswered hash c c' new (sym (room_full hash c at full) ∙ e)
      | inr room ↦
          subst (Unanswered hash c) (defined_injective (sym (room_left hash c at room) ∙ e))
            (record { missing = new; period = refl })
    ]
    | inr (n, at) ↦
        let (r, erased, eq) =
          >>=-defined (erase_node n c.recent) _ (sym (room_old hash n c at) ∙ e) in
        subst (Unanswered hash c) (defined_injective eq) (record { missing = new; period = refl })
  ]

  use_hash-Unanswered :
      (hash : ℕ) (c c' : ResultCache)
      → c.result_cache hash ≡ none
      → use_hash max_entries hash c ≡ defined c'
      → Unanswered hash c c'
  unfolding use_hash push_front
  use_hash-Unanswered hash c c' new e =
      let (c₁, made, eq) = >>=-defined (make_room max_entries hash c) _ e in
      let u = make_room-Unanswered hash c c₁ new made in
      subst (Unanswered hash c) (defined_injective eq)
        (record { missing = u.missing; period = u.period })

  -- What `check` finds at a hash after `add`.
  pub record Answered (hash : ℕ) (result : Bool) (timestamp : ℕ) (c : ResultCache) : Type 0 where
    pub after : ResultCache
    pub added : add max_entries hash result timestamp c ≡ defined after
    pub in_step : InStep max_entries after
    pub answer : after.result_cache hash ≡ some (result, timestamp)
    pub period : after.valid_for_nanosec ≡ c.valid_for_nanosec

  pub add-Answered :
      (hash : ℕ) (result : Bool) (timestamp : ℕ) (c : ResultCache)
      → 0 < max_entries
      → InStep max_entries c
      → Fits hash
      → c.result_cache hash ≡ none
      → Answered hash result timestamp c
  unfolding add emplace assign
  add-Answered hash result timestamp c positive i fits new =
      let k = use_hash-Kept max_entries hash c positive i fits in
      let u = use_hash-Unanswered hash c k.after new k.done in
      let done : add max_entries hash result timestamp c
          ≡ defined (record (k.after) {
            result_cache = emplace k.after.result_cache hash (result, timestamp);
          }) =
        rw (add, k.done) in
      let a = add-Kept max_entries hash result timestamp c positive i fits in
      record {
        after = _;
        added = done;
        in_step = subst (InStep max_entries) (defined_injective (sym a.done ∙ done)) a.in_step;
        answer = ground (arith, u.missing);
        period = u.period;
      }

  -- In a cache in step, with hashes that survive the conversion to `int`: an answer that is added
  -- for a hash without one is given by a later check of the hash whose time is before the end of
  -- its validity (modulo 2 ^ 64); any other check of it gives none.
  pub check_hash_added :
      (hash : ℕ) (result : Bool) (added now : ℕ) (c : ResultCache)
      → 0 < max_entries
      → InStep max_entries c
      → Fits hash
      → c.result_cache hash ≡ none
      → (c' : ResultCache) × (c'' : ResultCache) × (add max_entries hash result added c
          ≡ defined c')
        × (check_hash max_entries hash now c'
            ≡ defined (
              c'',
              (if ltb now ((added + c.valid_for_nanosec) % word64) then some result else none),
            ))
  unfolding check_hash
  check_hash_added hash result added now c positive i fits new =
      let a = add-Answered hash result added c positive i fits new in
      elim (Bool-cases (ltb now ((added + c.valid_for_nanosec) % word64))) [
        | inl young ↦
            let k = use_hash-Kept max_entries hash a.after positive a.in_step fits in
            (a.after, k.after, a.added, rw (check_hash, a.answer, a.period, young, k.done))
        | inr old ↦
            let (n, at) = a.in_step.valid.cached hash (result, added) a.answer in
            let k = expire-Kept max_entries hash n a.after a.in_step at in
            (a.after, k.after, a.added, rw (check_hash, a.answer, a.period, old, k.done))
      ]
