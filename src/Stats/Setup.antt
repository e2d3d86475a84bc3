-- ===== src/Stats/Setup.antt =====
-- `initializeDimensions` of extensions/stats/plugin.cc as a whole, `configure` and `onDone`.
use wasm_extensions.Prelude.{
  ℕ, ◌+◌, ◌++◌, Bytes, codes, Bool, true, false, not, List, [], ◌∷◌, Option, none, some,
  if◌then◌else◌, length,
}
use wasm_extensions.Expressions.{ExprHost}
use wasm_extensions.Json.{
  JsonLib, json_parse, value_as_string, value_as_bool, get_field, value_or, array_iterate,
  is_ok as read_ok,
}
use wasm_extensions.Common.Properties.{get_value}
use wasm_extensions.Common.Peer.{FlatNode}
use wasm_extensions.Stats.Labels.{count_standard_labels, reporter, set_at}
use wasm_extensions.Stats.Dimensions.{map_node, or_unknown, view}
use wasm_extensions.Stats.Metrics.{MetricFactory, default_metrics, StatGen}
use wasm_extensions.Stats.Report.{Root}
use wasm_extensions.Stats.Config.{add_definition, add_override, cleanup_expressions, string_or}
use wasm_extensions.Stats.Maps.{
  Build, Indexes, kept_tags, look_up, resize, seed_factories, seed_indexes, seed_tags,
}

module _ {H : Type 0} (exprs : ExprHost H) where
  module _ (lib : JsonLib) where
    open lib use {Json}

    -- The loop that instantiates `stats_`.
    unfoldable pub instantiate :
        Bytes
        → Bytes
        → Bytes
        → List (Bytes × MetricFactory)
        → List (Bytes × List Bytes)
        → List (Bytes × Indexes)
        → List StatGen
    instantiate prefix field_separator value_separator [] metric_tags metric_indexes = []
    instantiate prefix field_separator value_separator ((key, f) ∷ fs) metric_tags metric_indexes =
        let (tags, indexes) =
          kept_tags (get_value (look_up key metric_tags) [])
            (get_value (look_up key metric_indexes) []) in
        record {
          factory = f;
          prefix = prefix;
          stat_prefix = codes "istio_";
          tags = tags;
          indexes = indexes;
          field_separator = field_separator;
          value_separator = value_separator;
        }
        ∷ instantiate prefix field_separator value_separator fs metric_tags metric_indexes

    -- The maps as `defaultMetrics` seeds them.
    abbrev pub seeded : Root → H → Build H
    seeded root h = record {
      factories = seed_factories default_metrics;
      metric_tags = seed_tags default_metrics;
      metric_indexes = seed_indexes default_metrics;
      root = root;
      host = h;
    }

    -- The part of `initializeDimensions` that reads the definitions and the overrides.
    unfoldable pub build : Json → Root → H → Build H
    build j root h =
        let (cleaned, h') = cleanup_expressions exprs root h in
        let (defined, b) =
          array_iterate lib j (codes "definitions") (add_definition exprs lib)
            (seeded cleaned h') in
        let (overridden, b') = array_iterate lib j (codes "metrics") (add_override exprs lib) b in
        b'

    -- The dimensions after the configuration.
    unfoldable pub local_dimensions : Root → List Bytes
    local_dimensions root = map_node root.outbound root.local_node_info (
        set_at reporter (if root.outbound then codes "source" else codes "destination")
          (resize (count_standard_labels + length root.expressions) root.istio_dimensions))

    -- `initializeDimensions` but for the gauge of the proxy's version; `prefix` is what the host's
    -- `Metric` sets its prefix to.
    unfoldable pub initialize_dimensions : Bytes → Json → Root → H → Root × H
    initialize_dimensions prefix j root h =
        let b = build j root h in
        (
          record b.root {
            istio_dimensions = local_dimensions b.root;
            stats =
                instantiate prefix (string_or exprs lib j (codes "field_separator") (codes ";.;"))
                  (string_or exprs lib j (codes "value_separator") (codes "=.=")) b.factories
                  b.metric_tags b.metric_indexes;
          },
          b.host,
        )

    -- The period of `configure`, in milliseconds; `parse_duration` is `absl::ParseDuration` divided
    -- by a millisecond, as a `uint32_t`.
    unfoldable pub report_period : (Bytes → Option ℕ) → Json → ℕ
    report_period parse_duration j =
        let (value, detail) =
          get_field lib (value_as_string lib) j (codes "tcp_reporting_duration") in
        if read_ok detail then get_value (parse_duration (get_value value [])) 15000 else 15000

    -- The tag of the gauge that tells the version of the proxy.
    unfoldable pub build_version : FlatNode → Bytes
    build_version node = or_unknown (view node.istio_version) ++ codes ";"

    -- `configure`: its result, the tag that the gauge is set under, and the tick period that is set.
    unfoldable pub configure :
        (Bytes → Option ℕ)
        → Bytes
        → FlatNode
        → Bytes
        → Root
        → H
        → (Bool × Option (Bytes × ℕ)) × Root × H
    configure parse_duration prefix local_node configuration_data root h =
        let root' = record root { local_node_info = local_node } in
        elim (json_parse lib configuration_data) [
          | none ↦ ((false, none), root', h)
          | some j ↦
              let fallback = not (
                value_or lib
                  (get_field lib (value_as_bool lib) j (codes "disable_host_header_fallback")) false
                  false) in
              let (root'', h') =
                initialize_dimensions prefix j
                  (record root' { use_host_header_fallback = fallback }) h in
              ((true, some (build_version local_node, report_period parse_duration j)), root'', h')
        ]

    -- `onConfigure`, which always returns true: what `configure` sets, and the state.
    unfoldable pub on_configure :
        (Bytes → Option ℕ)
        → Bytes
        → FlatNode
        → Bytes
        → Root
        → H
        → Bool × Option (Bytes × ℕ) × Root × H
    on_configure parse_duration prefix local_node configuration_data root h =
        let (result, root', h') =
          configure parse_duration prefix local_node configuration_data root h in
        (true, result.1, record root' { initialized = result.0 }, h')

  -- `onDone`
  unfoldable pub on_done : Root → H → Bool × Root × H
  on_done root h = let (root', h') = cleanup_expressions exprs root h in (true, root', h')
