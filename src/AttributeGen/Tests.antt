-- ===== src/AttributeGen/Tests.antt =====
-- The plugin of extensions/attributegen run on a host of expressions.
use wasm_extensions.Prelude.{
  ℕ, ◌≡◌, ◌+◌, ◌≡◌, refl, Bytes, codes, ◌↔◌, true, false, List, [], ◌∷◌, Option, none, some,
  if◌then◌else◌, ◌==◌,
}
use wasm_extensions.Host.{is_ok}
use wasm_extensions.Expressions.{delete_all}
use wasm_extensions.Expressions.Toy.{Toy, toy, toy_laws}
use wasm_extensions.AttributeGen.Plugin.{
  Match, MatchConfig, PluginConfig, Root, on_log_phase, evaluate_match, evaluate,
  attribute_gen_loop, attribute_gen, on_request_headers, cleanup_attribute_gen, init_matches,
  init_attribute_gen, apply_config, on_configure, new_root,
}
use wasm_extensions.AttributeGen.Select.{Selects, evaluate-Selects_iff}
use wasm_extensions.AttributeGen.Phases.{Ran, attribute_gen-Ran}
use wasm_extensions.AttributeGen.Configure.{Configured, on_configure-Configured}
use wasm_extensions.AttributeGen.Sound.{Sound}
use wasm_extensions.AttributeGen.Runs.{
  Event, configured, request_headers, logged, done, on_event, run, run-new_root-Sound,
  run-done_frees,
}

-- Three generators: a value for a false and an empty condition, one of the other phase, and one
-- that fails.
abbrev two_matches : List MatchConfig
two_matches =
    record { condition = codes "0"; value = codes "a" }
    ∷ record { condition = []; value = codes "b" }
    ∷ []

abbrev one_match : Bytes → List MatchConfig
one_match e = record { condition = e; value = codes "c" } ∷ []

abbrev good : PluginConfig
good = record {
  debug = false;
  attributes =
      record { output_attribute = codes "x"; on_request = true; matches = two_matches }
      ∷ record { output_attribute = codes "y"; on_request = false; matches = one_match (codes "1") }
      ∷ record { output_attribute = codes "z"; on_request = true; matches = one_match (codes "?") }
      ∷ [];
}

abbrev bad : PluginConfig
bad = record {
  debug = false;
  attributes =
      record { output_attribute = codes "x"; on_request = true; matches = two_matches }
      ∷ record { output_attribute = codes "y"; on_request = false; matches = one_match (codes "!") }
      ∷ [];
}

abbrev parse : Bytes → Option PluginConfig
parse [] = none
parse (c ∷ cs) = if c == 33 then some bad else some good

abbrev before : Toy
before = ((7, codes "1") ∷ [], [])

abbrev calls : List Event
calls = configured (codes "g") ∷ request_headers ∷ logged ∷ configured (codes "!") ∷ []

abbrev configured_root : Root × Toy
configured_root = run toy parse (configured (codes "g") ∷ []) (new_root false, before)

-- A request sets the value of the empty condition and counts the failure.
request_run :
    run toy parse (configured (codes "g") ∷ request_headers ∷ []) (new_root false, before) ≡ (
      record configured_root.0 { runtime_errors = 1 },
      (configured_root.1.0, (codes "x", codes "b") ∷ []),
    )
unfolding run on_event on_configure apply_config init_attribute_gen init_matches on_request_headers
    attribute_gen attribute_gen_loop evaluate evaluate_match cleanup_attribute_gen delete_all
    new_root is_ok
request_run = refl

run-new_root-Sound_example :
    Sound toy
      (toy.live before)
      (run toy parse calls (new_root false, before)).0
      (run toy parse calls (new_root false, before)).1
run-new_root-Sound_example = run-new_root-Sound toy toy_laws parse calls false before

run-done_frees_example :
    toy.live (on_event toy parse done (run toy parse calls (new_root false, before))).1 8
    ≡ toy.live before 8
run-done_frees_example = run-done_frees toy toy_laws parse calls false before 8

abbrev some_matches : List Match
some_matches =
    record { condition = codes "0"; condition_token = 9; value = codes "a" }
    ∷ record { condition = codes "1"; condition_token = 7; value = codes "b" }
    ∷ []

evaluate-Selects_iff_example :
    (evaluate toy before some_matches ≡ none) ↔ Selects toy before some_matches none
evaluate-Selects_iff_example = evaluate-Selects_iff toy before some_matches none

abbrev two_generators : Root
two_generators = record {
  gen =
      record { phase = on_log_phase; output_attribute = codes "x"; matches = some_matches }
      ∷ record {
        phase = on_log_phase;
        output_attribute = codes "y";
        matches = record { condition = codes "1"; condition_token = 7; value = codes "b" } ∷ [];
      }
      ∷ [];
  tokens = 7 ∷ 9 ∷ [];
  debug = false;
  config_errors = 0;
  runtime_errors = 0;
}

attribute_gen-Ran_example :
    (errors : ℕ) × (h' : Toy) × (◌≡◌ {A = Root × Toy}
      (attribute_gen toy on_log_phase two_generators before)
      (record two_generators { runtime_errors = 0 + errors }, h'))
    × Ran toy on_log_phase two_generators.gen before errors h'
attribute_gen-Ran_example = attribute_gen-Ran toy on_log_phase two_generators before

on_configure-Configured_example :
    ((on_configure toy parse (codes "!") two_generators before).0 ≡ true)
    × Configured toy parse
        (codes "!")
        two_generators
        (on_configure toy parse (codes "!") two_generators before).1
on_configure-Configured_example =
    on_configure-Configured toy parse (codes "!") two_generators before
