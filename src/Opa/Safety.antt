-- ===== src/Opa/Safety.antt =====
-- `ResultCache::use` of extensions/open_policy_agent/cache.cc, branch by branch, against its abstract
-- view.
use mathlib.Core.Path.{fun_ext, subst}
use wasm_extensions.Prelude.{
  ℕ, ◌+◌, ◌<◌, ◌≡◌, refl, sym, ap, ◌∙◌, ◌⊎◌, inl, inr, Bool, true, false, Option, none, some, List,
  [], ◌∷◌, ◌++◌, length, arith, ℕ_discrete, leb, Bool-cases, Option-cases,
}
use wasm_extensions.Opa.Cache.{
  ResultCache, defined, assign, remove, erase_node, pop_back, through_int, push_front, evict,
  make_room, use_hash,
}
use wasm_extensions.Opa.Links.{
  Listed, Distinct, hashes, Cut, erase_node-Cut, pop_back-Cut, Linked-remove, same_hash,
}
use wasm_extensions.Opa.Touch.{
  without, drop_last, touch, drop_last-append, length-hashes, contains-Listed, contains-missing,
  hashes-erase_node, Small, IsValid, HasRoom, push_front-IsValid,
}

-- The position that is written replaces the one that was there.
assign-remove {ℓ} :
    {V : Type ℓ} (m : ℕ → Option V) (k : ℕ) (v : V) → assign m k v ≡ assign (remove m k) k v
unfolding assign remove
assign-remove m k v =
    fun_ext λ j. elim (ℕ_discrete k j) [ yes p ↦ ground arith | no p ↦ ground arith ]

none-some : {n : ℕ} → ¬ (none ≡ some n)
none-some e = cc

module _ (max_entries : ℕ) where
  -- What `use` must come to.
  pub record Touched (hash : ℕ) (c : ResultCache) : Type 0 where
    pub after : ResultCache
    pub done : use_hash max_entries hash c ≡ defined after
    pub valid : IsValid max_entries after
    pub view : hashes after.recent ≡ touch max_entries hash (hashes c.recent)

  -- `use`, branch by branch.
  pub use_old :
      (hash n : ℕ) (r : List (ℕ × ℕ)) (c : ResultCache)
      → c.pos hash ≡ some n
      → erase_node n c.recent ≡ defined r
      → use_hash max_entries hash c ≡ defined (push_front hash (record c { recent = r }))
  unfolding use_hash make_room
  use_old hash n r c at erased = rw (at, use_hash, make_room, erased)

  use_new :
      (hash : ℕ) (c : ResultCache)
      → c.pos hash ≡ none
      → leb max_entries (length c.recent) ≡ false
      → use_hash max_entries hash c ≡ defined (push_front hash c)
  unfolding use_hash make_room
  use_new hash c at below = rw (at, use_hash, make_room, below)

  pub use_full :
      (hash back : ℕ) (r : List (ℕ × ℕ)) (c : ResultCache)
      → c.pos hash ≡ none
      → leb max_entries (length c.recent) ≡ true
      → pop_back c.recent ≡ defined (back, r)
      → use_hash max_entries hash c
        ≡ defined (
            push_front hash (record c {
              recent = r;
              result_cache = remove c.result_cache (through_int back);
              pos = remove c.pos (through_int back);
            }))
  unfolding use_hash make_room evict
  use_full hash back r c at full popped = rw (at, use_hash, make_room, full, evict, popped)

  -- The map of positions after a removal.
  kept_at :
      (pos : ℕ → Option ℕ) (old h : ℕ)
      → (n : ℕ) × (pos h ≡ some n)
      → (h ≡ old) ⊎ ((n : ℕ) × (remove pos old h ≡ some n))
  unfolding remove
  kept_at pos old h (n, e) = elim (ℕ_discrete old h) [
    | yes p ↦ inl (sym p)
    | no p ↦ inr (n, ground arith)
  ]

  -- The hash has a position: its node is taken out.
  room_old :
      (hash n : ℕ) (r : List (ℕ × ℕ)) (c : ResultCache)
      → IsValid max_entries c
      → c.pos hash ≡ some n
      → erase_node n c.recent ≡ defined r
      → Cut n c.recent r
      → HasRoom max_entries hash
          (without hash (hashes c.recent))
          (record c { recent = r; pos = remove c.pos hash })
  unfolding remove
  room_old hash n r c v at erased cut = record {
    linked = Linked-remove v.linked at cut;
    missing = ground arith;
    room = omega (arith, v.bounded, cut.shorter);
    cached = λ h answer e. kept_at c.pos hash h (v.cached h answer e);
    view =
        hashes-erase_node n hash c.recent r x
          (λ m y. some_injective (sym (v.linked.listed m hash y) ∙ at))
          (λ k y. same_hash n k hash c.recent v.linked.distinct y x) erased;
  }
    where
      x : Listed n hash c.recent
      x = v.linked.placed n hash at

      some_injective : {a b : ℕ} → some a ≡ some b → a ≡ b
      some_injective e = cc

  touch_old :
      (hash n : ℕ) (c : ResultCache) → IsValid max_entries c → c.pos hash ≡ some n → Touched hash c
  unfolding use_hash make_room touch push_front
  touch_old hash n c v at =
      let x = v.linked.placed n hash at in
      let (r, erased, cut) = erase_node-Cut n hash c.recent v.linked.distinct x in
      let room = room_old hash n r c v at erased cut in
      let (valid, view) = push_front-IsValid max_entries hash _ _ room in
      let same = assign-remove c.pos hash c.next_node in
      record {
        after = push_front hash (record c { recent = r; pos = remove c.pos hash });
        done =
            use_old hash n r c at erased
            ∙ ap
                (λ p. defined (record c {
                  recent = (c.next_node, hash) ∷ r;
                  pos = p;
                  next_node = c.next_node + 1;
                }))
                same;
        valid = valid;
        view = rw (view, contains-Listed n hash c.recent x);
      }

  -- A hash without a position, with room left.
  touch_new :
      (hash : ℕ) (c : ResultCache)
      → IsValid max_entries c
      → c.pos hash ≡ none
      → leb max_entries (length c.recent) ≡ false
      → Touched hash c
  unfolding use_hash make_room touch push_front
  touch_new hash c v at below =
      let room : HasRoom max_entries hash (hashes c.recent) c = record {
        linked = v.linked;
        missing = at;
        room = ground (arith, v.bounded, below);
        cached = λ h answer e. inr (v.cached h answer e);
        view = refl;
      } in
      let (valid, view) = push_front-IsValid max_entries hash _ _ room in
      record {
        after = push_front hash c;
        done = use_new hash c at below;
        valid = valid;
        view = rw (
          view,
          contains-missing hash c.recent (λ n x. none-some (sym at ∙ v.linked.listed n hash x)),
          length-hashes c.recent,
          below,
        );
      }

  -- A hash without a position in a full cache: the back goes.
  room_full :
      (hash n old : ℕ) (r : List (ℕ × ℕ)) (c : ResultCache)
      → IsValid max_entries c
      → c.pos hash ≡ none
      → Listed n old c.recent
      → Cut n c.recent r
      → hashes c.recent ≡ hashes r ++ old ∷ []
      → HasRoom max_entries hash (drop_last (hashes c.recent)) (record c {
        recent = r;
        pos = remove c.pos old;
        result_cache = remove c.result_cache old;
      })
  unfolding remove
  room_full hash n old r c v at x cut hs = record {
    linked = Linked-remove v.linked (v.linked.listed n old x) cut;
    missing = ground (arith, at);
    room = omega (arith, v.bounded, cut.shorter);
    cached = λ h answer e. placed h answer e;
    view = rw (hs, drop_last-append (hashes r) old);
  }
    where
      placed :
          (h : ℕ) (answer : Bool × ℕ)
          → remove c.result_cache old h ≡ some answer
          → (h ≡ hash) ⊎ ((m : ℕ) × (remove c.pos old h ≡ some m))
      placed h answer e = elim (ℕ_discrete old h) [
        | yes p ↦ absurd (ground arith)
        | no p ↦
            let (m, there) = v.cached h answer (ground (arith, e)) in inr (m, ground (arith, there))
      ]

  touch_full :
      (hash : ℕ) (l : List (ℕ × ℕ)) (c : ResultCache)
      → c.recent ≡ l
      → IsValid max_entries c
      → Small c
      → 0 < max_entries
      → c.pos hash ≡ none
      → leb max_entries (length c.recent) ≡ true
      → Touched hash c
  unfolding use_hash make_room evict touch push_front
  touch_full hash [] c e v small positive at full = absurd (ground (arith, e, full, positive))
  touch_full hash (x ∷ l) c e v small positive at full =
      let (n, old, r, popped, there, cut, hs) =
        pop_back-Cut x l (subst Distinct e v.linked.distinct) in
      let there' : Listed n old c.recent = rw e there in
      let room = room_full hash n old r c v at there' (rw e cut) (rw e hs) in
      let (valid, view) = push_front-IsValid max_entries hash _ _ room in
      record {
        after = push_front hash (record c {
          recent = r;
          pos = remove c.pos old;
          result_cache = remove c.result_cache old;
        });
        done = rw (← small n old there') (use_full hash old r c at full (rw e popped));
        valid = valid;
        view = rw (
          view,
          contains-missing hash c.recent (λ m y. none-some (sym at ∙ v.linked.listed m hash y)),
          length-hashes c.recent,
          full,
        );
      }

  -- In a cache whose containers are in step and whose hashes survive the conversion to `int`, `use`
  -- is defined, keeps the containers in step, and moves the hash to the front of the hashes, with
  -- the last one dropped where a new hash finds the cache full.
  pub use_hash-Touched :
      (hash : ℕ) (c : ResultCache)
      → IsValid max_entries c
      → Small c
      → 0 < max_entries
      → Touched hash c
  use_hash-Touched hash c v small positive = elim (Option-cases (c.pos hash)) [
    | inl at ↦ elim (Bool-cases (leb max_entries (length c.recent))) [
      | inl full ↦ touch_full hash c.recent c refl v small positive at full
      | inr room ↦ touch_new hash c v at room
    ]
    | inr (n, at) ↦ touch_old hash n c v at
  ]
