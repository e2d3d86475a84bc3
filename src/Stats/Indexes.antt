-- ===== src/Stats/Indexes.antt =====
-- The indexes that the configuration of extensions/stats/plugin.cc gives the metrics.
use mathlib.Core.Path.{subst}
use mathlib.Core.Option.{some-injective, none-ne-some}
use wasm_extensions.Prelude.{
  ℕ, zero, suc, ◌+◌, ◌≤◌, ◌<◌, ◌≡◌, refl, ap, sym, Bytes, bytes_eq, Bool, true, false, List, [],
  ◌∷◌, Option, none, some, length, length-append, take, arith, All, All-map, Bool-cases,
  Option-cases, inl, inr,
}
use wasm_extensions.Host.{is_ok}
use wasm_extensions.Expressions.{ExprHost}
use wasm_extensions.Json.{JsonLib, array_iterate, visit_elements}
use wasm_extensions.Common.Properties.{get_value}
use wasm_extensions.Common.Peer.{FlatNode}
use wasm_extensions.Stats.Labels.{count_standard_labels, default_tags, length-set_at}
use wasm_extensions.Stats.Dimensions.{map_node}
use wasm_extensions.Stats.Metrics.{MetricFactory}
use wasm_extensions.Stats.Report.{Root}
use wasm_extensions.Stats.Maps.{
  look_up, store, Indexes, Build, number_tags, seed_indexes, dimension_index, kept_tags, resize,
}
use wasm_extensions.Stats.Config.{add_string_expression, add_int_expression}

module _ {ℓ κ} {V : Type ℓ} (Q : V → Type κ) where
  pub look_up-some :
      (k : Bytes) (v : V) (m : List (Bytes × V)) → look_up k m ≡ some v → All (λ x. Q x.1) m → Q v
  look_up-some k v [] e a = absurd (none-ne-some v e)
  look_up-some k v ((j, w) ∷ m) e a = elim (Bool-cases (bytes_eq j k)) [
    | inl q ↦ subst Q (some-injective w v (rw (q) at e)) a.0
    | inr q ↦ look_up-some k v m (rw (q) at e) a.1
  ]

  pub look_up-All :
      (k : Bytes) (d : V) (m : List (Bytes × V))
      → Q d
      → All (λ x. Q x.1) m
      → Q (get_value (look_up k m) d)
  look_up-All k d m q a = elim (Option-cases (look_up k m)) [
    | inl e ↦ rw (e) q
    | inr (v, e) ↦ rw (e) (look_up-some k v m e a)
  ]

  pub store-All :
      (k : Bytes) (v : V) (m : List (Bytes × V))
      → Q v
      → All (λ x. Q x.1) m
      → All (λ x. Q x.1) (store k v m)
  store-All k v [] q a = (q, tt)
  store-All k v ((j, w) ∷ m) q a = elim (Bool-cases (bytes_eq j k)) [
    | inl e ↦ rw (e) (q, a.1)
    | inr e ↦ rw (e) (a.0, store-All k v m q a.1)
  ]

-- An index of a vector of `n` dimensions, when there is one.
abbrev pub Below : ℕ → Option ℕ → Type 0
Below n none = Unit
Below n (some i) = i < n

abbrev pub AllBelow : ℕ → Indexes → Type 0
AllBelow n = All (λ x. Below n x.1)

pub Below-mono : (m n : ℕ) → m ≤ n → (o : Option ℕ) → Below m o → Below n o
Below-mono m n h none b = tt
Below-mono m n h (some i) b = omega (arith, b)

-- What is kept of the tags of a metric.
pub kept_tags-below :
    (n : ℕ) (tags : List Bytes) (indexes : Indexes)
    → AllBelow n indexes
    → (length (kept_tags tags indexes).0 ≡ length (kept_tags tags indexes).1)
      × All (λ i. i < n) (kept_tags tags indexes).1
unfolding kept_tags
kept_tags-below n [] indexes a = (refl, tt)
kept_tags-below n (t ∷ ts) indexes a =
    let rest = kept_tags-below n ts indexes a in
    let below = look_up-All (Below n) t none indexes tt a in
    elim (Option-cases (get_value (look_up t indexes) none)) [
      | inl e ↦ rw (e, kept_tags) rest
      | inr (i, e) ↦ rw (e, kept_tags) (ap suc rest.0, (subst (Below n) e below, rest.1))
    ]

number_tags-below : (i n : ℕ) (ts : List Bytes) → i + length ts ≤ n → AllBelow n (number_tags i ts)
number_tags-below i n [] h = tt
number_tags-below i n (t ∷ ts) h =
    (omega (arith, h), number_tags-below (i + 1) n ts (omega (arith, h)))

length-take_le {ℓ} : {A : Type ℓ} (k : ℕ) (xs : List A) → length (take k xs) ≤ length xs
length-take_le zero xs = omega arith
length-take_le (suc k) [] = omega arith
length-take_le (suc k) (x ∷ xs) = omega (arith, length-take_le k xs)

pub seed-below :
    (n : ℕ) (fs : List MetricFactory)
    → count_standard_labels ≤ n
    → All (λ x. AllBelow n x.1) (seed_indexes fs)
unfolding default_tags
seed-below n [] h = tt
seed-below n (f ∷ fs) h = (
  number_tags-below 0 n (take f.count_labels default_tags)
      (omega (arith, length-take_le f.count_labels default_tags, h)),
  seed-below n fs h,
)

-- The dimensions have a place for each standard label and each expression.
pub length-resize : (n : ℕ) (xs : List Bytes) → length (resize n xs) ≡ n
length-resize zero xs = refl
length-resize (suc n) [] = ap suc (length-resize n [])
length-resize (suc n) (x ∷ xs) = ap suc (length-resize n xs)

pub length-map_node :
    (is_source : Bool) (node : FlatNode) (xs : List Bytes)
    → length (map_node is_source node xs) ≡ length xs
unfolding map_node
length-map_node true node xs = simp length-set_at
length-map_node false node xs = simp length-set_at

-- What holds at the start of an array holds at its end, whether or not an element is refused.
module _ {ℓ} {S : Type 0} (P : S → Type ℓ) (lib : JsonLib) (visitor : lib.Json → S → Bool × S) where
  visit_elements-keeps :
      (items : List (Bytes × lib.Json)) (s : S)
      → ((elt : lib.Json) (s : S) → P s → P (visitor elt s).1)
      → P s
      → P (visit_elements lib visitor items s).1
  unfolding visit_elements
  visit_elements-keeps [] s keeps p = p
  visit_elements-keeps ((key, elt) ∷ rest) s keeps p = elim (Bool-cases (visitor elt s).0) [
    | inl e ↦
        rw (e, visit_elements) (visit_elements-keeps rest (visitor elt s).1 keeps (keeps elt s p))
    | inr e ↦ rw (e, visit_elements) (keeps elt s p)
  ]

  pub array_iterate-keeps :
      (j : lib.Json) (field : Bytes) (s : S)
      → ((elt : lib.Json) (s : S) → P s → P (visitor elt s).1)
      → P s
      → P (array_iterate lib j field visitor s).1
  unfolding array_iterate
  array_iterate-keeps j field s keeps p = elim (Option-cases (lib.find j field)) [
    | inl e ↦ rw (e, array_iterate) p
    | inr (it, e) ↦ elim (Bool-cases (lib.is_array it)) [
      | inl a ↦ rw (e, a, array_iterate) (visit_elements-keeps (lib.items it) s keeps p)
      | inr a ↦ rw (e, a, array_iterate) p
    ]
  ]

module _ {H : Type 0} (exprs : ExprHost H) where
  -- The indexes of the maps are below the number of dimensions there will be.
  pub record Fits (b : Build H) : Type 0 where
    pub below :
        All (λ x. AllBelow (count_standard_labels + length b.root.expressions) x.1) b.metric_indexes
    pub inputs : All (λ x. x.1 < length b.root.expressions) b.root.input_expressions

  abbrev pub Inputs : Root → Type 0
  Inputs root = All (λ x. x.1 < length root.expressions) root.input_expressions

  -- What `addStringExpression` gives.
  pub record Added (root : Root) (r : Option ℕ × Root × H) : Type 0 where
    pub index : Below (count_standard_labels + length r.1.expressions) (dimension_index r.0)
    pub inputs : Inputs r.1
    pub more : length root.expressions ≤ length r.1.expressions

  pub add_string_expression-Added :
      (input : Bytes) (root : Root) (h : H)
      → Inputs root
      → Added root (add_string_expression exprs input root h)
  unfolding add_string_expression
  add_string_expression-Added input root h a =
      elim (Option-cases (look_up input root.input_expressions)) [
        | inr (i, e) ↦
            rw (e, add_string_expression)
              (record {
                index = omega (
                  arith,
                  look_up-some (λ n. n < length root.expressions) input i root.input_expressions e
                      a,
                );
                inputs = a;
                more = omega arith;
              })
        | inl e ↦ elim (Bool-cases (is_ok (exprs.create_expression input h).0)) [
          | inr s ↦
              rw (e, s, add_string_expression)
                (record { index = tt; inputs = a; more = omega arith })
          | inl s ↦
              rw (e, s, add_string_expression)
                (let n = length root.expressions in
                  let m =
                    length-append root.expressions
                      (((exprs.create_expression input h).1, input) ∷ []) in
                  record {
                    index = omega (arith, m);
                    inputs =
                        store-All (λ k. k < _) input n root.input_expressions (omega (arith, m))
                          (All-map (λ x (b : x.1 < n). omega (arith, m, b)) root.input_expressions
                            a);
                    more = omega (arith, m);
                  })
        ]
      ]

  -- A larger vector of dimensions has room for the same indexes.
  pub grow :
      (m n : ℕ)
      → m ≤ n
      → (maps : List (Bytes × Indexes)) → All (λ x. AllBelow m x.1) maps
      → All (λ x. AllBelow n x.1) maps
  grow m n h = All-map (λ x. All-map (λ y. Below-mono m n h y.1) x.1)

  -- The fields that `Fits` does not read.
  pub Fits-of :
      (b : Build H) (root : Root) (h : H) (fs : List (Bytes × MetricFactory))
      → root.expressions ≡ b.root.expressions
      → root.input_expressions ≡ b.root.input_expressions
      → Fits b
      → Fits (record b { root = root; host = h; factories = fs })
  Fits-of b root h fs e i f = record {
    below =
        subst (λ x. All (λ m. AllBelow (count_standard_labels + length x) m.1) b.metric_indexes)
          (sym e) f.below;
    inputs =
        subst (λ x. All (λ m. m.1 < length x) root.input_expressions) (sym e)
          (subst (λ y. All (λ m. m.1 < length b.root.expressions) y) (sym i) f.inputs);
  }

  pub add_int_expression_same :
      (input : Bytes) (root : Root) (h : H)
      → ((add_int_expression exprs input root h).1.expressions ≡ root.expressions)
        × ((add_int_expression exprs input root h).1.input_expressions ≡ root.input_expressions)
  unfolding add_int_expression
  add_int_expression_same input root h =
      elim (Bool-cases (is_ok (exprs.create_expression input h).0)) [
        | inl e ↦ rw (e, add_int_expression) (refl, refl)
        | inr e ↦ rw (e, add_int_expression) (refl, refl)
      ]
