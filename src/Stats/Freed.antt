-- ===== src/Stats/Freed.antt =====
-- The expressions of extensions/stats/plugin.cc over any configurations and `onDone`.
use wasm_extensions.Prelude.{
  ◌≡◌, refl, ℕ, Bytes, Bool, List, Option, Bool-cases, Option-cases, inl, inr,
}
use wasm_extensions.Expressions.{ExprHost, ExprLaws}
use wasm_extensions.Json.{JsonLib, json_parse}
use wasm_extensions.Common.Peer.{FlatNode}
use wasm_extensions.Stats.Report.{Root}
use wasm_extensions.Stats.Metrics.{SimpleStat}
use wasm_extensions.Stats.Maps.{look_up}
use wasm_extensions.Stats.Config.{cleanup_expressions, add_string_expression, add_int_expression}
use wasm_extensions.Stats.Setup.{initialize_dimensions, configure, on_configure}
use wasm_extensions.Stats.Tokens.{Holds, cleanup-Holds, add_string-Holds, add_int-Holds}
use wasm_extensions.Host.{is_ok}
use wasm_extensions.Stats.Kept.{build-Kept}

module _ {H : Type 0} (exprs : ExprHost H) (lib : JsonLib) where
  module _ (laws : ExprLaws exprs) (base : ℕ → Bool) where
    initialize_dimensions-Holds :
        (prefix : Bytes) (j : lib.Json) (root : Root) (h : H)
        → Holds exprs laws base root h
        → Holds exprs laws base
            (initialize_dimensions exprs lib prefix j root h).0
            (initialize_dimensions exprs lib prefix j root h).1
    unfolding initialize_dimensions
    initialize_dimensions-Holds prefix j root h o =
        build-Kept exprs (Holds exprs laws base) (add_string-Holds exprs laws base)
          (add_int-Holds exprs laws base) lib j root h (cleanup-Holds exprs laws base root h o)

    pub on_configure-Holds :
        (parse_duration : Bytes → Option ℕ) (prefix : Bytes) (local_node : FlatNode) (text : Bytes)
        (root : Root) (h : H)
        → Holds exprs laws base root h
        → Holds exprs laws base
            (on_configure exprs lib parse_duration prefix local_node text root h).2
            (on_configure exprs lib parse_duration prefix local_node text root h).3
    unfolding on_configure configure
    on_configure-Holds parse_duration prefix local_node text root h o =
        elim (Option-cases (json_parse lib text)) [
          | inl e ↦ rw (e, on_configure, configure) o
          | inr (j, e) ↦
              rw (e, on_configure, configure) (initialize_dimensions-Holds prefix j _ h o)
        ]

  add_string-metrics :
      (ms : List (List Bytes × List SimpleStat)) (input : Bytes) (root : Root) (h : H)
      → root.metrics ≡ ms
      → (add_string_expression exprs input root h).1.metrics ≡ ms
  unfolding add_string_expression
  add_string-metrics ms input root h o =
      elim (Option-cases (look_up input root.input_expressions)) [
        | inr (i, e) ↦ rw (e, add_string_expression) o
        | inl e ↦ elim (Bool-cases (is_ok (exprs.create_expression input h).0)) [
          | inr s ↦ rw (e, s, add_string_expression) o
          | inl s ↦ rw (e, s, add_string_expression) o
        ]
      ]

  add_int-metrics :
      (ms : List (List Bytes × List SimpleStat)) (input : Bytes) (root : Root) (h : H)
      → root.metrics ≡ ms
      → (add_int_expression exprs input root h).1.metrics ≡ ms
  unfolding add_int_expression
  add_int-metrics ms input root h o =
      elim (Bool-cases (is_ok (exprs.create_expression input h).0)) [
        | inr s ↦ rw (s, add_int_expression) o
        | inl s ↦ rw (s, add_int_expression) o
      ]

  -- A configuration does not clear the cache.
  pub initialize_dimensions-metrics :
      (prefix : Bytes) (j : lib.Json) (root : Root) (h : H)
      → (initialize_dimensions exprs lib prefix j root h).0.metrics ≡ root.metrics
  unfolding initialize_dimensions cleanup_expressions
  initialize_dimensions-metrics prefix j root h =
      build-Kept exprs (λ r k. r.metrics ≡ root.metrics) (add_string-metrics root.metrics)
        (add_int-metrics root.metrics) lib j root h refl
