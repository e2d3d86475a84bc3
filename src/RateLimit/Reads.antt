-- ===== src/RateLimit/Reads.antt =====
-- What a read remembers, and how the writes of other VMs leave it valid.
use wasm_extensions.Prelude.{
  ℕ, ◌≤◌, ◌<◌, ◌≡◌, sym, ap, ◌∙◌, ◌⊎◌, inl, inr, Option, none, some, ℕ_discrete, arith,
}
use mathlib.Core.Path.{subst}
use wasm_extensions.Host.{ok, cas_mismatch}
use wasm_extensions.RateLimit.Shared.{Key, SharedData, Written}

pub Key-discrete : Discrete Key
Key-discrete = hlevel

abbrev number_of : Option (ℕ × ℕ) → ℕ
number_of none = 0
number_of (some (v, c)) = c

module _ (host : SharedData) where
  open host use {
    Store, cell, newest, get_shared_data, set_shared_data, number_bounds, set_mismatch, set_stored,
  }

  -- The cell `k` was read as `t` under the number `c`: as long as the number is the cell's, so is
  -- the value.
  pub record Seen (s : Store) (k : Key) (t c : ℕ) : Type 0 where
    pub positive : 0 < c
    pub old : c ≤ newest s
    pub same : (v : ℕ) → cell s k ≡ some (v, c) → v ≡ t

  -- The effect of one host call on the store: none, or a write over the cell's current value that
  -- is allowed by `R`.
  pub data Effect (R : Key → ℕ → ℕ → Type 0) (s s' : Store) (wrote : Option (Key × ℕ))
      : Type 0 where
    quiet : s' ≡ s → wrote ≡ none → Effect R s s' wrote
    writes :
        (k : Key) (v₀ v c₀ : ℕ)
        → cell s k ≡ some (v₀, c₀)
        → Written cell newest s s' k v
        → R k v₀ v
        → wrote ≡ some (k, v)
        → Effect R s s' wrote

  pub Seen-now : (s : Store) (k : Key) (v c : ℕ) → cell s k ≡ some (v, c) → Seen s k v c
  Seen-now s k v c e = record {
    positive = (number_bounds s k v c e).0;
    old = (number_bounds s k v c e).1;
    same = λ v' e'. ground (arith, sym e' ∙ e);
  }

  Seen-Written :
      {s s' : Store} {k : Key} {v : ℕ} (j : Key) (t c : ℕ)
      → Written cell newest s s' k v
      → Seen s j t c
      → Seen s' j t c
  Seen-Written {s} {s'} {k} {v} j t c w h = record {
    positive = h.positive;
    old = omega (arith, h.old, w.newer);
    same = λ v' e. elim (Key-discrete j k) [
      | yes p ↦ absurd (omega (arith, ap number_of (sym (rw p at e) ∙ w.now), h.old, w.newer))
      | no p ↦ h.same v' (sym (w.others j p) ∙ e)
    ];
  }

  pub Seen-Effect :
      {R : Key → ℕ → ℕ → Type 0} {s s' : Store} {wrote : Option (Key × ℕ)} (j : Key) (t c : ℕ)
      → Effect R s s' wrote
      → Seen s j t c
      → Seen s' j t c
  Seen-Effect j t c (quiet e n) h = subst (λ x. Seen x j t c) (sym e) h
  Seen-Effect j t c (writes k v₀ v c₀ e w r n) h = Seen-Written j t c w h

  -- A write under a remembered number is refused, or it replaces the very value that was read.
  pub compare_and_swap :
      (s : Store) (k : Key) (v t c v₀ c₀ : ℕ)
      → cell s k ≡ some (v₀, c₀)
      → Seen s k t c
      → (set_shared_data s k v c ≡ (cas_mismatch, s))
        ⊎ (((set_shared_data s k v c).0 ≡ ok)
            × Written cell newest s (set_shared_data s k v c).1 k v
            × (v₀ ≡ t))
  compare_and_swap s k v t c v₀ c₀ e h = elim (ℕ_discrete c c₀) [
    | yes p ↦
        let e' : cell s k ≡ some (v₀, c) = rw p e in
        let (stored, written) = set_stored s k v c (inr (inr (v₀, e'))) in
        inr (stored, written, h.same v₀ e')
    | no p ↦ inl (set_mismatch s k v v₀ c c₀ e (λ z. omega (arith, h.positive)) p)
  ]
