-- ===== src/Opa/Eviction.antt =====
-- The eviction of `ResultCache::use` when the evicted hash is changed by the conversion to `int`.
use mathlib.Core.Path.{subst}
use wasm_extensions.Prelude.{
  ℕ, ◌≡◌, ◌≢◌, refl, sym, ◌∙◌, inl, inr, true, none, some, List, [], ◌∷◌, length, arith, ℕ_discrete,
  leb,
}
use wasm_extensions.Opa.Cache.{
  ResultCache, Result, defined, undefined, assign, remove, erase_node, pop_back, through_int,
  push_front, make_room, use_hash,
}
use wasm_extensions.Opa.Links.{Listed, Distinct, Cut, pop_back-Cut}
use wasm_extensions.Opa.Touch.{IsValid}
use wasm_extensions.Opa.Safety.{use_full}

erase_node_missing :
    (n : ℕ) (l : List (ℕ × ℕ)) → ((h : ℕ) → ¬ Listed n h l) → erase_node n l ≡ undefined
unfolding erase_node
erase_node_missing n [] x = refl
erase_node_missing n ((m, k) ∷ l) x = elim (ℕ_discrete m n) [
  | yes e ↦ absurd (x k (inl (e, refl)))
  | no e ↦ ground (arith, erase_node_missing n l (λ h y. x h (inr y)))
]

use_dangling :
    (max_entries hash n : ℕ) (c : ResultCache)
    → c.pos hash ≡ some n
    → ((h : ℕ) → ¬ Listed n h c.recent)
    → use_hash max_entries hash c ≡ undefined
unfolding use_hash make_room
use_dangling max_entries hash n c at gone =
    rw (at, use_hash, make_room, erase_node_missing n c.recent gone)

same_back :
    {a b : ℕ} {l r : List (ℕ × ℕ)}
    → ◌≡◌ {A = Result (ℕ × List (ℕ × ℕ))} (defined (a, l)) (defined (b, r))
    → (a ≡ b) × (l ≡ r)
same_back e = (cc, cc)

-- The back of a list is a node of it that is gone from the rest.
back-Cut :
    (back : ℕ) (l r : List (ℕ × ℕ)) (d : Distinct l)
    → pop_back l ≡ defined (back, r)
    → (n : ℕ) × Listed n back l × Cut n l r
unfolding pop_back
back-Cut back [] r d e = absurd (cc)
back-Cut back (x ∷ l) r d e =
    let (n, h, r', popped, there, cut, hs) = pop_back-Cut x l d in
    let same = same_back (sym popped ∙ e) in
    (n, subst (λ a. Listed n a (x ∷ l)) same.0 there, subst (Cut n (x ∷ l)) same.1 cut)

-- In a full cache in step whose back hash is changed by the conversion to `int`, `use` of a new
-- hash takes the back node out but leaves the back hash its position, so that a later `use` of that
-- hash (an answer for the same request, added again) erases by an iterator to no node.
pub evicted_dangles :
    (max_entries hash back : ℕ) (r : List (ℕ × ℕ)) (c : ResultCache)
    → IsValid max_entries c
    → c.pos hash ≡ none
    → leb max_entries (length c.recent) ≡ true
    → pop_back c.recent ≡ defined (back, r)
    → through_int back ≢ back
    → (c' : ResultCache) × (use_hash max_entries hash c ≡ defined c')
      × (use_hash max_entries back c' ≡ undefined)
unfolding push_front assign remove
evicted_dangles max_entries hash back r c v new full popped changed =
    let (n, there, cut) = back-Cut back c.recent r v.linked.distinct popped in
    let at = v.linked.listed n back there in
    (
      _,
      use_full max_entries hash back r c new full popped,
      use_dangling max_entries back n _ (ground (arith, at, new, changed)) (λ h x. elim x [
        | inl e ↦ omega (arith, v.linked.fresh n back there, e.0)
        | inr y ↦ (cut.kept n h y).1 refl
      ]),
    )
