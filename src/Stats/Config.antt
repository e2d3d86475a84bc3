-- ===== src/Stats/Config.antt =====
-- The expressions of extensions/stats/plugin.cc, and the definitions and overrides that
-- `initializeDimensions` reads.
use wasm_extensions.Prelude.{
  ℕ, Bytes, bytes_eq, codes, Bool, true, false, not, ◌&&◌, ◌||◌, List, [], ◌∷◌, ◌++◌, map, Option,
  none, some, if◌then◌else◌, is_empty, length,
}
use wasm_extensions.Host.{is_ok}
use wasm_extensions.Expressions.{ExprHost, delete_all}
use wasm_extensions.Json.{
  JsonLib, value_as_string, value_as_bool, get_field, value_or, array_iterate, object_field_iterate,
  is_ok as read_ok,
}
use wasm_extensions.Common.Properties.{get_value}
use wasm_extensions.Stats.Metrics.{expression}
use wasm_extensions.Stats.Report.{Root}
use wasm_extensions.Stats.Maps.{
  Build, Indexes, dimension_index, erase, look_up, new_factory, sort_strings, store, type_named,
}

module _ {H : Type 0} (exprs : ExprHost H) where
  -- `cleanupExpressions`
  unfoldable pub cleanup_expressions : Root → H → Root × H
  cleanup_expressions root h = (
    record root { expressions = []; input_expressions = []; int_expressions = [] },
    delete_all exprs root.int_expressions (delete_all exprs (map (λ e. e.0) root.expressions) h),
  )

  -- `addStringExpression`
  unfoldable pub add_string_expression : Bytes → Root → H → Option ℕ × Root × H
  add_string_expression input root h = elim (look_up input root.input_expressions) [
    | some index ↦ (some index, root, h)
    | none ↦
        let (status, token, h') = exprs.create_expression input h in
        if not (is_ok status) then (none, root, h') else (
          some (length root.expressions),
          record root {
            input_expressions = store input (length root.expressions) root.input_expressions;
            expressions = root.expressions ++ (token, input) ∷ [];
          },
          h',
        )
  ]

  -- `addIntExpression`
  unfoldable pub add_int_expression : Bytes → Root → H → Option ℕ × Root × H
  add_int_expression input root h =
      let (status, token, h') = exprs.create_expression input h in
      if not (is_ok status)
      then (none, root, h')
      else (some token, record root { int_expressions = root.int_expressions ++ token ∷ [] }, h')

  module _ (lib : JsonLib) where
    open lib use {Json, find}

    abbrev pub string_or : Json → Bytes → Bytes → Bytes
    string_or j field default =
        value_or lib (get_field lib (value_as_string lib) j field) [] default

    -- The visitor of "definitions".
    unfoldable pub add_definition : Json → Build H → Bool × Build H
    add_definition definition b =
        let name = string_or definition (codes "name") [] in
        let value = string_or definition (codes "value") [] in
        if is_empty name || is_empty value
        then (false, b)
        else (let (token, root, h) = add_int_expression value b.root b.host in
            elim token [
              | none ↦ (false, record b { root = root; host = h })
              | some t ↦ (
                true,
                record b {
                  root = root;
                  host = h;
                  factories =
                      store name
                        (record (get_value (look_up name b.factories) new_factory) {
                          name = name;
                          extractor = expression t;
                          type = type_named (string_or definition (codes "type") []);
                          recurrent = false;
                          protocols = 6;
                        })
                        b.factories;
                },
              )
            ])

    -- The visitor of "tags_to_remove".
    unfoldable pub remove_tag : Json → Indexes → Bool × Indexes
    remove_tag tag indexes =
        let (value, detail) = value_as_string lib tag in
        if not (read_ok detail)
        then (false, indexes)
        else (let t = get_value value [] in
            (true, elim (look_up t indexes) [ none ↦ indexes | some i ↦ store t none indexes ]))

    -- `metric["dimensions"][tag]`, for a tag that is there.
    abbrev pub dimension_value : Json → Bytes → Option Json
    dimension_value metric tag = elim (find metric (codes "dimensions")) [
      | none ↦ none
      | some d ↦ find d tag
    ]

    -- One turn of the loop over the tags that a metric overrides.
    unfoldable pub override_tag : Bytes → Bytes → Bytes → Build H → Build H
    override_tag key tag text b =
        let (expr_index, root, h) = add_string_expression text b.root b.host in
        let value = dimension_index expr_index in
        let indexes = get_value (look_up key b.metric_indexes) [] in
        let b' = record b {
          root = root;
          host = h;
          metric_indexes = store key (store tag value indexes) b.metric_indexes;
        } in
        elim (look_up tag indexes) [
          | some i ↦ b'
          | none ↦ record b' {
            metric_tags =
                store key (get_value (look_up key b.metric_tags) [] ++ tag ∷ []) b.metric_tags;
          }
        ]

    -- The loop over the tags that a metric overrides.
    unfoldable pub override_tags : Json → Bytes → List Bytes → Build H → Bool × Build H
    override_tags metric key [] b = (true, b)
    override_tags metric key (tag ∷ tags) b = elim (dimension_value metric tag) [
      | none ↦ (false, b)
      | some j ↦
          let (text, detail) = value_as_string lib j in
          if not (read_ok detail)
          then (false, b)
          else override_tags metric key tags (override_tag key tag (get_value text []) b)
    ]

    -- One metric that an override applies to.
    unfoldable pub override_metric : Json → List Bytes → Bytes → Build H → Bool × Build H
    override_metric metric tags key b =
        let (removed, indexes) =
          array_iterate lib metric (codes "tags_to_remove") remove_tag
            (get_value (look_up key b.metric_indexes) []) in
        let b' = record b { metric_indexes = store key indexes b.metric_indexes } in
        if not removed then (false, b') else override_tags metric key tags b'

    -- Whether an override drops its metrics.
    abbrev pub drops : Json → Bool
    drops metric =
        value_or lib (get_field lib (value_as_bool lib) metric (codes "drop")) false false

    -- The tags that an override names.
    abbrev pub override_tag_names : Json → Bool × List Bytes
    override_tag_names metric =
        object_field_iterate lib metric (codes "dimensions") (λ dim s. (true, s ++ dim ∷ [])) []

    -- The loop over the metrics, by their names.
    unfoldable pub override_metrics :
        Json → List Bytes → Bytes → List Bytes → Build H → Bool × Build H
    override_metrics metric tags name [] b = (true, b)
    override_metrics metric tags name (key ∷ keys) b =
        if not (is_empty name) && not (bytes_eq name key)
        then override_metrics metric tags name keys b
        else (if drops metric
            then override_metrics metric tags name keys
                (record b { factories = erase key b.factories })
            else (let (done, b') = override_metric metric tags key b in
                if not done then (false, b') else override_metrics metric tags name keys b'))

    -- The visitor of "metrics".
    unfoldable pub add_override : Json → Build H → Bool × Build H
    add_override metric b =
        let (read, tags) = override_tag_names metric in
        if not read
        then (false, b)
        else override_metrics metric (sort_strings tags) (string_or metric (codes "name") [])
            (map (λ f. f.0) b.factories) b
