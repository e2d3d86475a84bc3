-- ===== src/Opa/Links.antt =====
-- The list of recent hashes and the map of positions into it, as cache.cc keeps them in step.
use mathlib.Core.Path.{subst}
use wasm_extensions.Prelude.{
  ℕ, suc, ◌+◌, ◌<◌, ◌≡◌, ◌≢◌, refl, sym, ap, ◌∙◌, ◌⊎◌, inl, inr, Option, none, some, List, [], ◌∷◌,
  ◌++◌, map, length, arith, ℕ_discrete,
}
use wasm_extensions.Opa.Cache.{defined, assign, remove, erase_node, pop_back}

-- The node `n` is in the list, and its hash is `h`.
abbrev pub Listed : ℕ → ℕ → List (ℕ × ℕ) → Type 0
Listed n h [] = ⊥
Listed n h ((m, k) ∷ r) = ((m ≡ n) × (k ≡ h)) ⊎ Listed n h r

-- No node is in the list twice.
abbrev pub Distinct : List (ℕ × ℕ) → Type 0
Distinct [] = Unit
Distinct ((m, k) ∷ r) = ((h : ℕ) → ¬ Listed m h r) × Distinct r

abbrev pub hashes : List (ℕ × ℕ) → List ℕ
hashes = map (λ e. e.1)

-- `r` is `l` without the node `n`.
pub record Cut (n : ℕ) (l r : List (ℕ × ℕ)) : Type 0 where
  pub kept : (m k : ℕ) → Listed m k r → Listed m k l × (m ≢ n)
  pub rest : (m k : ℕ) → Listed m k l → m ≢ n → Listed m k r
  pub distinct : Distinct r
  pub shorter : length l ≡ suc (length r)

Cut-here : (n h : ℕ) (r : List (ℕ × ℕ)) → Distinct ((n, h) ∷ r) → Cut n ((n, h) ∷ r) r
Cut-here n h r d = record {
  kept = λ m k l. (inr l, λ e. d.0 k (rw (← e) l));
  rest = λ m k l ne. elim l [ inl e ↦ absurd (ne (sym e.0)) | inr l' ↦ l' ];
  distinct = d.1;
  shorter = refl;
}

Cut-there :
    (n m h : ℕ) (l r : List (ℕ × ℕ))
    → m ≢ n
    → Distinct ((m, h) ∷ l)
    → Cut n l r
    → Cut n ((m, h) ∷ l) ((m, h) ∷ r)
Cut-there n m h l r ne d c = record {
  kept = λ a k x. elim x [
    | inl e ↦ (inl e, λ z. ne (e.0 ∙ z))
    | inr x' ↦ (inr (c.kept a k x').0, (c.kept a k x').1)
  ];
  rest = λ a k x other. elim x [ inl e ↦ inl e | inr x' ↦ inr (c.rest a k x' other) ];
  distinct = (λ k x. d.0 k (c.kept m k x).0, c.distinct);
  shorter = ap suc c.shorter;
}

pub behind : (n h m k : ℕ) (l : List (ℕ × ℕ)) → m ≢ n → Listed n h ((m, k) ∷ l) → Listed n h l
behind n h m k l ne (inl e) = absurd (ne e.0)
behind n h m k l ne (inr x) = x

-- A node has one hash.
pub same_hash : (n h j : ℕ) (l : List (ℕ × ℕ)) → Distinct l → Listed n h l → Listed n j l → h ≡ j
same_hash n h j [] d x y = absurd x
same_hash n h j ((m, k) ∷ l) d (inl e) (inl f) = sym e.1 ∙ f.1
same_hash n h j ((m, k) ∷ l) d (inl e) (inr y) = absurd (d.0 j (rw e.0 y))
same_hash n h j ((m, k) ∷ l) d (inr x) (inl f) = absurd (d.0 h (rw f.0 x))
same_hash n h j ((m, k) ∷ l) d (inr x) (inr y) = same_hash n h j l d.1 x y

pub erase_node-Cut :
    (n h : ℕ) (l : List (ℕ × ℕ))
    → Distinct l
    → Listed n h l
    → (r : List (ℕ × ℕ)) × (erase_node n l ≡ defined r) × Cut n l r
unfolding erase_node
erase_node-Cut n h [] d x = absurd x
erase_node-Cut n h ((m, k) ∷ l) d x = elim (ℕ_discrete m n) [
  | yes e ↦ (l, ground arith, rw (← e) (Cut-here m k l d))
  | no ne ↦
      let (r, erased, c) = erase_node-Cut n h l d.1 (behind n h m k l ne x) in
      ((m, k) ∷ r, ground (arith, erased), Cut-there n m k l r ne d c)
]

-- The back of a list that is not empty.
pub pop_back-Cut :
    (e : ℕ × ℕ) (l : List (ℕ × ℕ))
    → Distinct (e ∷ l)
    → (n : ℕ) × (h : ℕ) × (r : List (ℕ × ℕ)) × (pop_back (e ∷ l) ≡ defined (h, r))
      × Listed n h (e ∷ l)
      × Cut n (e ∷ l) r
      × (hashes (e ∷ l) ≡ hashes r ++ h ∷ [])
unfolding pop_back
pop_back-Cut (n, h) [] d = (n, h, [], refl, inl (refl, refl), Cut-here n h [] d, refl)
pop_back-Cut (m, k) (e ∷ l) d =
    let (n, h, r, popped, x, c, hs) = pop_back-Cut e l d.1 in
    (
      n,
      h,
      (m, k) ∷ r,
      rw popped,
      inr x,
      Cut-there n m k (e ∷ l) r (λ z. d.0 h (subst (λ a. Listed a h (e ∷ l)) (sym z) x)) d c,
      ap (◌∷◌ k) hs,
    )

-- The map of positions points to exactly the listed nodes.
pub record Linked (recent : List (ℕ × ℕ)) (pos : ℕ → Option ℕ) (next_node : ℕ) : Type 0 where
  pub listed : (n h : ℕ) → Listed n h recent → pos h ≡ some n
  pub placed : (n h : ℕ) → pos h ≡ some n → Listed n h recent
  pub fresh : (n h : ℕ) → Listed n h recent → n < next_node
  pub distinct : Distinct recent

pub Linked-remove :
    {n h : ℕ} {l r : List (ℕ × ℕ)} {pos : ℕ → Option ℕ} {next_node : ℕ}
    → Linked l pos next_node
    → pos h ≡ some n
    → Cut n l r
    → Linked r (remove pos h) next_node
unfolding remove
Linked-remove {n} {h} {l} {r} {pos} k at c = record {
  listed = λ m j x. ground (arith, k.listed m j (c.kept m j x).0, (c.kept m j x).1, at);
  placed = λ m j e. remaining m j e;
  fresh = λ m j x. k.fresh m j (c.kept m j x).0;
  distinct = c.distinct;
}
  where
    found : (m j : ℕ) → remove pos h j ≡ some m → (pos j ≡ some m) × (h ≢ j)
    found m j e = ground arith

    remaining : (m j : ℕ) → remove pos h j ≡ some m → Listed m j r
    remaining m j e =
        let (there, other) = found m j e in
        c.rest m j (k.placed m j there) (λ z.
          other (same_hash n h j l k.distinct (k.placed n h at) (k.placed n j (there ∙ ap some z))))

pub Linked-push :
    {hash : ℕ} {l : List (ℕ × ℕ)} {pos : ℕ → Option ℕ} {next_node : ℕ}
    → Linked l pos next_node
    → pos hash ≡ none
    → Linked ((next_node, hash) ∷ l) (assign pos hash next_node) (next_node + 1)
unfolding assign
Linked-push {hash} {l} {pos} {next_node} k missing = record {
  listed =
      λ m j x. elim x [ inl e ↦ ground arith | inr y ↦ ground (arith, k.listed m j y, missing) ];
  placed = λ m j e. entry m j e;
  fresh = λ m j x. elim x [ inl e ↦ omega arith | inr y ↦ omega (arith, k.fresh m j y) ];
  distinct = (λ h x. omega (arith, k.fresh next_node h x), k.distinct);
}
  where
    entry :
        (m j : ℕ)
        → assign pos hash next_node j ≡ some m
        → ((next_node ≡ m) × (hash ≡ j)) ⊎ Listed m j l
    entry m j e = elim (ℕ_discrete hash j) [
      | yes p ↦ inl (ground arith)
      | no p ↦ inr (k.placed m j (ground arith))
    ]
