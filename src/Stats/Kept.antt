-- ===== src/Stats/Kept.antt =====
-- What `initializeDimensions` of extensions/stats/plugin.cc keeps, of its members and of the host,
-- while it reads the definitions and the overrides.
use wasm_extensions.Prelude.{
  Bytes, bytes_eq, codes, not, ◌&&◌, ◌||◌, List, [], ◌∷◌, is_empty, Bool-cases, Option-cases, inl,
  inr,
}
use wasm_extensions.Expressions.{ExprHost}
use wasm_extensions.Json.{JsonLib, value_as_string, array_iterate, is_ok as read_ok}
use wasm_extensions.Common.Properties.{get_value}
use wasm_extensions.Stats.Report.{Root}
use wasm_extensions.Stats.Maps.{look_up, Build}
use wasm_extensions.Stats.Config.{
  cleanup_expressions, add_string_expression, add_int_expression, add_definition, remove_tag,
  override_tag, override_tags, override_metric, override_metrics, add_override, string_or,
  dimension_value, drops, override_tag_names,
}
use wasm_extensions.Stats.Setup.{build}
use wasm_extensions.Stats.Indexes.{array_iterate-keeps}

module _ {H : Type 0} (exprs : ExprHost H) (P : Root → H → Type 0)
    (string_keeps : (input : Bytes) (root : Root) (h : H)
      → P root h
      → P (add_string_expression exprs input root h).1 (add_string_expression exprs input root h).2)
    (int_keeps : (input : Bytes) (root : Root) (h : H)
      → P root h
      → P (add_int_expression exprs input root h).1 (add_int_expression exprs input root h).2) where
  abbrev Kept : Build H → Type 0
  Kept b = P b.root b.host

  module _ (lib : JsonLib) where
    add_definition-Kept :
        (definition : lib.Json) (b : Build H)
        → Kept b
        → Kept (add_definition exprs lib definition b).1
    unfolding add_definition
    add_definition-Kept definition b o =
        let name = string_or exprs lib definition (codes "name") [] in
        let value = string_or exprs lib definition (codes "value") [] in
        let held = int_keeps value b.root b.host o in
        elim (Bool-cases (is_empty name || is_empty value)) [
          | inl e ↦ rw (e, add_definition) o
          | inr e ↦ elim (Option-cases (add_int_expression exprs value b.root b.host).0) [
            | inl n ↦ rw (e, n, add_definition) held
            | inr (t, n) ↦ rw (e, n, add_definition) held
          ]
        ]

    override_tag-Kept :
        (key tag text : Bytes) (b : Build H) → Kept b → Kept (override_tag exprs lib key tag text b)
    unfolding override_tag
    override_tag-Kept key tag text b o =
        let held = string_keeps text b.root b.host o in
        elim (Option-cases (look_up tag (get_value (look_up key b.metric_indexes) []))) [
          | inl e ↦ rw (e, override_tag) held
          | inr (i, e) ↦ rw (e, override_tag) held
        ]

    override_tags-Kept :
        (metric : lib.Json) (key : Bytes) (tags : List Bytes) (b : Build H)
        → Kept b
        → Kept (override_tags exprs lib metric key tags b).1
    unfolding override_tags
    override_tags-Kept metric key [] b o = o
    override_tags-Kept metric key (tag ∷ tags) b o =
        elim (Option-cases (dimension_value exprs lib metric tag)) [
          | inl e ↦ rw (e, override_tags) o
          | inr (j, e) ↦ elim (Bool-cases (read_ok (value_as_string lib j).1)) [
            | inr d ↦ rw (e, d, override_tags) o
            | inl d ↦
                rw (e, d, override_tags)
                  (override_tags-Kept metric key tags _ (override_tag-Kept key tag _ b o))
          ]
        ]

    override_metric-Kept :
        (metric : lib.Json) (tags : List Bytes) (key : Bytes) (b : Build H)
        → Kept b
        → Kept (override_metric exprs lib metric tags key b).1
    unfolding override_metric
    override_metric-Kept metric tags key b o =
        let removed =
          array_iterate lib metric (codes "tags_to_remove") (remove_tag exprs lib)
            (get_value (look_up key b.metric_indexes) []) in
        elim (Bool-cases removed.0) [
          | inr e ↦ rw (e, override_metric) o
          | inl e ↦ rw (e, override_metric) (override_tags-Kept metric key tags _ o)
        ]

    override_metrics-Kept :
        (metric : lib.Json) (tags : List Bytes) (name : Bytes) (keys : List Bytes) (b : Build H)
        → Kept b
        → Kept (override_metrics exprs lib metric tags name keys b).1
    unfolding override_metrics
    override_metrics-Kept metric tags name [] b o = o
    override_metrics-Kept metric tags name (key ∷ keys) b o =
        let rest = override_metrics-Kept metric tags name keys in
        elim (Bool-cases (not (is_empty name) && not (bytes_eq name key))) [
          | inl e ↦ rw (e, override_metrics) (rest b o)
          | inr e ↦ elim (Bool-cases (drops exprs lib metric)) [
            | inl d ↦ rw (e, d, override_metrics) (rest _ o)
            | inr d ↦
                let held = override_metric-Kept metric tags key b o in
                elim (Bool-cases (override_metric exprs lib metric tags key b).0) [
                  | inl k ↦ rw (e, d, k, override_metrics) (rest _ held)
                  | inr k ↦ rw (e, d, k, override_metrics) held
                ]
          ]
        ]

    add_override-Kept :
        (metric : lib.Json) (b : Build H) → Kept b → Kept (add_override exprs lib metric b).1
    unfolding add_override
    add_override-Kept metric b o = elim (Bool-cases (override_tag_names exprs lib metric).0) [
      | inr e ↦ rw (e, add_override) o
      | inl e ↦ rw (e, add_override) (override_metrics-Kept metric _ _ _ b o)
    ]

    -- What holds of the members and the host before the configuration is read holds after it.
    pub build-Kept :
        (j : lib.Json) (root : Root) (h : H)
        → P (cleanup_expressions exprs root h).0 (cleanup_expressions exprs root h).1
        → P (build exprs lib j root h).root (build exprs lib j root h).host
    unfolding build
    build-Kept j root h o =
        array_iterate-keeps Kept lib (add_override exprs lib) j (codes "metrics") _
          add_override-Kept
          (array_iterate-keeps Kept lib (add_definition exprs lib) j (codes "definitions") _
            add_definition-Kept o)
