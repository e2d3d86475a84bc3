-- ===== src/Opa/Touch.antt =====
-- The abstract view of extensions/open_policy_agent/cache.cc, a bounded list of hashes with the most
-- recent first, and what makes the containers of the cache valid.
use wasm_extensions.Prelude.{
  ℕ, suc, ◌+◌, ◌≤◌, ◌≡◌, ◌≢◌, refl, ap, ◌⊎◌, inl, inr, Bool, true, false, ◌||◌, none, some, List,
  [], ◌∷◌, ◌++◌, length, arith, ℕ_discrete, ◌==◌, leb, if◌then◌else◌,
}
use wasm_extensions.Opa.Cache.{
  ResultCache, Result, defined, undefined, ◌>>=◌, assign, erase_node, through_int, push_front,
}
use wasm_extensions.Opa.Links.{Listed, behind, hashes, Linked, Linked-push}

-- The abstract view: hashes, most recently used first, at most `max_entries`.
unfoldable pub contains : ℕ → List ℕ → Bool
contains h [] = false
contains h (k ∷ ks) = (k == h) || contains h ks

unfoldable pub without : ℕ → List ℕ → List ℕ
without h [] = []
without h (k ∷ ks) = if k == h then ks else k ∷ without h ks

unfoldable pub drop_last : List ℕ → List ℕ
drop_last [] = []
drop_last (k ∷ []) = []
drop_last (k ∷ j ∷ ks) = k ∷ drop_last (j ∷ ks)

unfoldable pub touch : ℕ → ℕ → List ℕ → List ℕ
touch max_entries h ks =
    h
    ∷ (if contains h ks
        then without h ks
        else (if leb max_entries (length ks) then drop_last ks else ks))

pub drop_last-append : (ks : List ℕ) (k : ℕ) → drop_last (ks ++ k ∷ []) ≡ ks
unfolding drop_last
drop_last-append [] k = refl
drop_last-append (j ∷ []) k = refl
drop_last-append (j ∷ i ∷ ks) k = ap (◌∷◌ j) (drop_last-append (i ∷ ks) k)

pub length-hashes : (l : List (ℕ × ℕ)) → length (hashes l) ≡ length l
length-hashes [] = refl
length-hashes (e ∷ l) = ap suc (length-hashes l)

-- A hash is in the abstract view exactly when it has a position.
pub contains-Listed : (n h : ℕ) (l : List (ℕ × ℕ)) → Listed n h l → contains h (hashes l) ≡ true
unfolding contains
contains-Listed n h [] x = absurd x
contains-Listed n h ((m, k) ∷ l) (inl e) = ground arith
contains-Listed n h ((m, k) ∷ l) (inr x) = ground (arith, contains-Listed n h l x)

pub contains-missing :
    (h : ℕ) (l : List (ℕ × ℕ)) → ((n : ℕ) → ¬ Listed n h l) → contains h (hashes l) ≡ false
unfolding contains
contains-missing h [] x = refl
contains-missing h ((m, k) ∷ l) x = elim (ℕ_discrete k h) [
  | yes e ↦ absurd (x m (inl (refl, e)))
  | no e ↦ ground (arith, contains-missing h l (λ n y. x n (inr y)))
]

-- Inversion of a bind.
pub >>=-defined {ℓ κ} :
    {A : Type ℓ} {B : Type κ} (m : Result A) (f : A → Result B) {b : B}
    → (m >>= f) ≡ defined b
    → (a : A) × (m ≡ defined a) × (f a ≡ defined b)
>>=-defined (defined a) f e = (a, refl, e)
>>=-defined undefined f e = cc

unequal_node :
    (n m k : ℕ) (l r : List (ℕ × ℕ))
    → m ≢ n
    → erase_node n ((m, k) ∷ l) ≡ defined r
    → (do r' ← erase_node n l; defined ((m, k) ∷ r')) ≡ defined r
unfolding erase_node
unequal_node n m k l r p e = ground (arith, e)

pub hashes-erase_node :
    (n h : ℕ) (l r : List (ℕ × ℕ))
    → Listed n h l
    → ((m : ℕ) → Listed m h l → m ≡ n)
    → ((k : ℕ) → Listed n k l → k ≡ h)
    → erase_node n l ≡ defined r
    → hashes r ≡ without h (hashes l)
unfolding erase_node without
hashes-erase_node n h [] r x u w e = absurd x
hashes-erase_node n h ((m, k) ∷ l) r x u w e = elim (ℕ_discrete m n) [
  | yes p ↦ ground (arith, w k (inl (p, refl)), e)
  | no p ↦
      let other : k ≢ h = λ z. p (u m (inl (refl, z))) in
      let (r', erased, eq) = >>=-defined (erase_node n l) _ (unequal_node n m k l r p e) in
      ground (
        arith,
        other,
        eq,
        hashes-erase_node n h l r' (behind n h m k l p x) (λ a y. u a (inr y)) (λ a y. w a (inr y))
            erased,
      )
]

-- No cached hash is changed by the conversion to `int`.
abbrev pub Small : ResultCache → Type 0
Small c = (n h : ℕ) → Listed n h c.recent → through_int h ≡ h

module _ (max_entries : ℕ) where
  -- The three containers are in step: every node has its position, every cached answer has a node,
  -- and the bound holds.
  pub record IsValid (c : ResultCache) : Type 0 where
    pub linked : Linked c.recent c.pos c.next_node
    pub bounded : length c.recent ≤ max_entries
    pub cached :
        (h : ℕ) (answer : Bool × ℕ) → c.result_cache h ≡ some answer → (n : ℕ) × (c.pos h ≡ some n)

  -- Room for a hash has been made: it has no position, and its push brings about a valid cache.
  pub record HasRoom (hash : ℕ) (ks : List ℕ) (c : ResultCache) : Type 0 where
    pub linked : Linked c.recent c.pos c.next_node
    pub missing : c.pos hash ≡ none
    pub room : length c.recent + 1 ≤ max_entries
    pub cached :
        (h : ℕ) (answer : Bool × ℕ)
        → c.result_cache h ≡ some answer
        → (h ≡ hash) ⊎ ((n : ℕ) × (c.pos h ≡ some n))
    pub view : hashes c.recent ≡ ks

  pub push_front-IsValid :
      (hash : ℕ) (ks : List ℕ) (c : ResultCache)
      → HasRoom hash ks c
      → IsValid (push_front hash c) × (hashes (push_front hash c).recent ≡ hash ∷ ks)
  unfolding push_front assign
  push_front-IsValid hash ks c h = (
    record {
      linked = Linked-push h.linked h.missing;
      bounded = omega (arith, h.room);
      cached = λ k answer e. placed k (h.cached k answer e);
    },
    ap (◌∷◌ hash) h.view,
  )
    where
      placed :
          (k : ℕ)
          → (k ≡ hash) ⊎ ((n : ℕ) × (c.pos k ≡ some n))
          → (n : ℕ) × (assign c.pos hash c.next_node k ≡ some n)
      placed k (inl e) = (c.next_node, ground arith)
      placed k (inr (n, e)) = elim (ℕ_discrete hash k) [
        | yes p ↦ (c.next_node, ground arith)
        | no p ↦ (n, ground arith)
      ]
