-- ===== src/Stats/History.antt =====
-- What a report leaves in the dimensions for the next one (`map` of extensions/stats/plugin.cc).
use wasm_extensions.Prelude.{
  ℕ, zero, suc, ◌≤◌, ◌≡◌, refl, ap, Bytes, Bool, true, false, List, [], ◌∷◌, length, arith,
}
use wasm_extensions.Common.Request.{RequestInfo}
use wasm_extensions.Common.Peer.{FlatNode}
use wasm_extensions.Stats.Labels.{count_standard_labels}
use wasm_extensions.Stats.Dimensions.{
  or_unknown, map_node, map_peer, map_unknown_if_empty, map_request, map_dimensions,
}

-- A vector of `n` strings before others.
abbrev pub Strings : ℕ → Type 0
Strings zero = Unit
Strings (suc n) = Bytes × Strings n

abbrev pub before : (n : ℕ) → Strings n → List Bytes → List Bytes
before zero v rest = rest
before (suc n) v rest = v.0 ∷ before n v.1 rest

pub split_first :
    (n : ℕ) (xs : List Bytes)
    → n ≤ length xs
    → (v : Strings n) × (rest : List Bytes) × (xs ≡ before n v rest)
split_first zero xs h = (tt, xs, refl)
split_first (suc n) [] h = absurd (omega arith)
split_first (suc n) (x ∷ xs) h =
    let (v, rest, e) = split_first n xs (omega arith) in ((x, v), rest, ap (◌∷◌ x) e)

or_unknown_idem : (s : Bytes) → or_unknown (or_unknown s) ≡ or_unknown s
unfolding or_unknown
or_unknown_idem [] = refl
or_unknown_idem (c ∷ s) = refl

module _ (lower : Bytes → Bytes) where
  forgets :
      (outbound : Bool) (p q : FlatNode) (r s : RequestInfo) (v : Strings 25) (rest : List Bytes)
      → map_dimensions lower outbound q s (map_dimensions lower outbound p r (before 25 v rest))
        ≡ map_dimensions lower outbound q s (before 25 v rest)
  unfolding map_dimensions map_unknown_if_empty map_request map_peer map_node
  forgets true p q r s v rest = simp or_unknown_idem
  forgets false p q r s v rest = simp or_unknown_idem

  -- `map` forgets the request before: on a vector that has the standard dimensions, whatever peer and
  -- request were mapped into it, mapping the next ones gives what it gives on the vector with the
  -- local dimensions alone.
  pub map_dimensions_forgets :
      (outbound : Bool) (p q : FlatNode) (r s : RequestInfo) (dims : List Bytes)
      → count_standard_labels ≤ length dims
      → map_dimensions lower outbound q s (map_dimensions lower outbound p r dims)
        ≡ map_dimensions lower outbound q s dims
  map_dimensions_forgets outbound p q r s dims h =
      let (v, rest, e) = split_first 25 dims h in rw e (forgets outbound p q r s v rest)
