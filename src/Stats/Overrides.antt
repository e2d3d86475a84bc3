-- ===== src/Stats/Overrides.antt =====
-- `initializeDimensions` of extensions/stats/plugin.cc, step by step, and the indexes of the
-- metrics it makes.
use mathlib.Core.Path.{subst}
use wasm_extensions.Prelude.{
  ℕ, ◌+◌, ◌<◌, ◌≡◌, ◌∙◌, sym, Bytes, bytes_eq, codes, not, ◌&&◌, ◌||◌, List, [], ◌∷◌, none,
  if◌then◌else◌, is_empty, length, arith, All, Bool-cases, Option-cases, inl, inr,
}
use wasm_extensions.Expressions.{ExprHost}
use wasm_extensions.Json.{JsonLib, value_as_string, array_iterate, is_ok as read_ok}
use wasm_extensions.Common.Properties.{get_value}
use wasm_extensions.Stats.Labels.{count_standard_labels, reporter, set_at, length-set_at}
use wasm_extensions.Stats.Metrics.{MetricFactory, default_metrics, StatGen}
use wasm_extensions.Stats.Report.{Root}
use wasm_extensions.Stats.Maps.{look_up, store, Indexes, Build, dimension_index, resize}
use wasm_extensions.Stats.Config.{
  string_or, dimension_value, drops, override_tag_names, cleanup_expressions, add_string_expression,
  add_int_expression, add_definition, remove_tag, override_tag, override_tags, override_metric,
  override_metrics, add_override,
}
use wasm_extensions.Stats.Setup.{instantiate, build, local_dimensions, initialize_dimensions}
use wasm_extensions.Stats.Indexes.{
  look_up-All, store-All, Below, AllBelow, kept_tags-below, seed-below, length-resize,
  length-map_node, array_iterate-keeps, Fits, add_string_expression-Added, grow, Fits-of,
  add_int_expression_same,
}

module _ {H : Type 0} (exprs : ExprHost H) where
  module _ (lib : JsonLib) where
    add_definition-Fits :
        (definition : lib.Json) (b : Build H)
        → Fits exprs b
        → Fits exprs (add_definition exprs lib definition b).1
    unfolding add_definition
    add_definition-Fits definition b f =
        let name = string_or exprs lib definition (codes "name") [] in
        let value = string_or exprs lib definition (codes "value") [] in
        let same = add_int_expression_same exprs value b.root b.host in
        elim (Bool-cases (is_empty name || is_empty value)) [
          | inl e ↦ rw (e, add_definition) f
          | inr e ↦ elim (Option-cases (add_int_expression exprs value b.root b.host).0) [
            | inl n ↦ rw (e, n, add_definition) (Fits-of exprs b _ _ b.factories same.0 same.1 f)
            | inr (t, n) ↦ rw (e, n, add_definition) (Fits-of exprs b _ _ _ same.0 same.1 f)
          ]
        ]

    remove_tag-below :
        (n : ℕ) (tag : lib.Json) (indexes : Indexes)
        → AllBelow n indexes
        → AllBelow n (remove_tag exprs lib tag indexes).1
    unfolding remove_tag
    remove_tag-below n tag indexes a =
        let t = get_value (value_as_string lib tag).0 [] in
        elim (Bool-cases (read_ok (value_as_string lib tag).1)) [
          | inr e ↦ rw (e, remove_tag) a
          | inl e ↦ elim (Option-cases (look_up t indexes)) [
            | inl m ↦ rw (e, m, remove_tag) a
            | inr (i, m) ↦ rw (e, m, remove_tag) (store-All (Below n) t none indexes tt a)
          ]
        ]

    -- The indexes of one metric are replaced by others that fit.
    put_indexes :
        (b : Build H) (key : Bytes) (indexes : Indexes)
        → AllBelow (count_standard_labels + length b.root.expressions) indexes
        → Fits exprs b
        → Fits exprs (record b { metric_indexes = store key indexes b.metric_indexes })
    put_indexes b key indexes a f = record {
      below = store-All (AllBelow _) key indexes b.metric_indexes a f.below;
      inputs = f.inputs;
    }

    override_tag-Fits :
        (key tag text : Bytes) (b : Build H)
        → Fits exprs b
        → Fits exprs (override_tag exprs lib key tag text b)
    unfolding override_tag
    override_tag-Fits key tag text b f =
        let added = add_string_expression-Added exprs text b.root b.host f.inputs in
        let r = add_string_expression exprs text b.root b.host in
        let more =
          grow exprs (count_standard_labels + length b.root.expressions)
            (count_standard_labels + length r.1.expressions) (omega (arith, added.more))
            b.metric_indexes f.below in
        let indexes = get_value (look_up key b.metric_indexes) [] in
        let here =
          look_up-All (AllBelow (count_standard_labels + length r.1.expressions)) key []
            b.metric_indexes tt more in
        let stored =
          store-All (AllBelow (count_standard_labels + length r.1.expressions)) key
            (store tag (dimension_index r.0) indexes) b.metric_indexes
            (store-All (Below (count_standard_labels + length r.1.expressions)) tag
              (dimension_index r.0) indexes added.index here)
            more in
        elim (Option-cases (look_up tag indexes)) [
          | inl e ↦ rw (e, override_tag) (record { below = stored; inputs = added.inputs })
          | inr (i, e) ↦ rw (e, override_tag) (record { below = stored; inputs = added.inputs })
        ]

    override_tags-Fits :
        (metric : lib.Json) (key : Bytes) (tags : List Bytes) (b : Build H)
        → Fits exprs b
        → Fits exprs (override_tags exprs lib metric key tags b).1
    unfolding override_tags
    override_tags-Fits metric key [] b f = f
    override_tags-Fits metric key (tag ∷ tags) b f =
        elim (Option-cases (dimension_value exprs lib metric tag)) [
          | inl e ↦ rw (e, override_tags) f
          | inr (j, e) ↦ elim (Bool-cases (read_ok (value_as_string lib j).1)) [
            | inr d ↦ rw (e, d, override_tags) f
            | inl d ↦
                rw (e, d, override_tags)
                  (override_tags-Fits metric key tags _ (override_tag-Fits key tag _ b f))
          ]
        ]

    override_metric-Fits :
        (metric : lib.Json) (tags : List Bytes) (key : Bytes) (b : Build H)
        → Fits exprs b
        → Fits exprs (override_metric exprs lib metric tags key b).1
    unfolding override_metric
    override_metric-Fits metric tags key b f =
        let n = count_standard_labels + length b.root.expressions in
        let indexes = get_value (look_up key b.metric_indexes) [] in
        let removed =
          array_iterate lib metric (codes "tags_to_remove") (remove_tag exprs lib) indexes in
        let kept =
          put_indexes b key removed.1
            (array_iterate-keeps (AllBelow n) lib (remove_tag exprs lib) metric
              (codes "tags_to_remove") indexes (remove_tag-below n)
              (look_up-All (AllBelow n) key [] b.metric_indexes tt f.below))
            f in
        elim (Bool-cases removed.0) [
          | inr e ↦ rw (e, override_metric) kept
          | inl e ↦ rw (e, override_metric) (override_tags-Fits metric key tags _ kept)
        ]

    override_metrics-Fits :
        (metric : lib.Json) (tags : List Bytes) (name : Bytes) (keys : List Bytes) (b : Build H)
        → Fits exprs b
        → Fits exprs (override_metrics exprs lib metric tags name keys b).1
    unfolding override_metrics
    override_metrics-Fits metric tags name [] b f = f
    override_metrics-Fits metric tags name (key ∷ keys) b f =
        elim (Bool-cases (not (is_empty name) && not (bytes_eq name key))) [
          | inl e ↦ rw (e, override_metrics) (override_metrics-Fits metric tags name keys b f)
          | inr e ↦ elim (Bool-cases (drops exprs lib metric)) [
            | inl d ↦
                rw (e, d, override_metrics)
                  (override_metrics-Fits metric tags name keys _
                    (record { below = f.below; inputs = f.inputs }))
            | inr d ↦
                let kept = override_metric-Fits metric tags key b f in
                elim (Bool-cases (override_metric exprs lib metric tags key b).0) [
                  | inl k ↦
                      rw (e, d, k, override_metrics)
                        (override_metrics-Fits metric tags name keys _ kept)
                  | inr k ↦ rw (e, d, k, override_metrics) kept
                ]
          ]
        ]

    add_override-Fits :
        (metric : lib.Json) (b : Build H)
        → Fits exprs b
        → Fits exprs (add_override exprs lib metric b).1
    unfolding add_override
    add_override-Fits metric b f = elim (Bool-cases (override_tag_names exprs lib metric).0) [
      | inr e ↦ rw (e, add_override) f
      | inl e ↦ rw (e, add_override) (override_metrics-Fits metric _ _ _ b f)
    ]

    build-Fits : (j : lib.Json) (root : Root) (h : H) → Fits exprs (build exprs lib j root h)
    unfolding build cleanup_expressions default_metrics
    build-Fits j root h =
        array_iterate-keeps (Fits exprs) lib (add_override exprs lib) j (codes "metrics") _
          add_override-Fits
          (array_iterate-keeps (Fits exprs) lib (add_definition exprs lib) j (codes "definitions") _
            add_definition-Fits
            (record { below = seed-below _ default_metrics (omega arith); inputs = tt }))

    -- Each generator has an index for each tag, and every index is one of the dimensions.
    abbrev pub InPlace : ℕ → List StatGen → Type 0
    InPlace n = All (λ g. (length g.tags ≡ length g.indexes) × All (λ i. i < n) g.indexes)

    instantiate-InPlace :
        (prefix fs vs : Bytes) (n : ℕ) (factories : List (Bytes × MetricFactory))
        (metric_tags : List (Bytes × List Bytes)) (metric_indexes : List (Bytes × Indexes))
        → All (λ x. AllBelow n x.1) metric_indexes
        → InPlace n (instantiate exprs lib prefix fs vs factories metric_tags metric_indexes)
    unfolding instantiate
    instantiate-InPlace prefix fs vs n [] metric_tags metric_indexes a = tt
    instantiate-InPlace prefix fs vs n ((key, f) ∷ factories) metric_tags metric_indexes a = (
      kept_tags-below n (get_value (look_up key metric_tags) [])
          (get_value (look_up key metric_indexes) [])
          (look_up-All (AllBelow n) key [] metric_indexes tt a),
      instantiate-InPlace prefix fs vs n factories metric_tags metric_indexes a,
    )

    -- Whatever the configuration holds, whatever expressions the host refuses and whatever the
    -- members were before, each generator that `initializeDimensions` makes has as many indexes as
    -- tags, and every index is within the dimensions, of which there are 25 and one for each
    -- expression.
    pub initialize_dimensions-InPlace :
        (prefix : Bytes) (j : lib.Json) (root : Root) (h : H)
        → InPlace
            (length (initialize_dimensions exprs lib prefix j root h).0.istio_dimensions)
            (initialize_dimensions exprs lib prefix j root h).0.stats
          × (length (initialize_dimensions exprs lib prefix j root h).0.istio_dimensions
              ≡ count_standard_labels
                + length (initialize_dimensions exprs lib prefix j root h).0.expressions)
    unfolding initialize_dimensions local_dimensions
    initialize_dimensions-InPlace prefix j root h =
        let b = build exprs lib j root h in
        let f = build-Fits j root h in
        let n =
          length-map_node b.root.outbound b.root.local_node_info (
            set_at reporter (if b.root.outbound then codes "source" else codes "destination")
              (resize (count_standard_labels + length b.root.expressions) b.root.istio_dimensions))
          ∙ length-set_at reporter _
              (resize (count_standard_labels + length b.root.expressions) b.root.istio_dimensions)
          ∙ length-resize (count_standard_labels + length b.root.expressions)
              b.root.istio_dimensions in
        (
          subst
              (λ k. InPlace k (
                instantiate exprs lib prefix
                  (string_or exprs lib j (codes "field_separator") (codes ";.;"))
                  (string_or exprs lib j (codes "value_separator") (codes "=.=")) b.factories
                  b.metric_tags b.metric_indexes))
              (sym n)
              (instantiate-InPlace prefix _ _ _ b.factories b.metric_tags b.metric_indexes f.below),
          n,
        )
