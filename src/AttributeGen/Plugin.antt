-- ===== src/AttributeGen/Plugin.antt =====
-- extensions/attributegen/plugin.{h,cc} and the messages of config.proto: the members of the root
-- context and its callbacks. `parse` stands for `JsonStringToMessage` with unknown fields ignored.
use wasm_extensions.Prelude.{
  ℕ, ◌+◌, Bytes, Bool, true, false, not, List, [], ◌∷◌, ◌++◌, Option, none, some, if◌then◌else◌,
  ◌==◌, is_empty, length, get_or,
}
use wasm_extensions.Host.{is_ok, FilterHeadersStatus, continue}
use wasm_extensions.Expressions.{ExprHost, Evaluated, delete_all}

-- `istio::attributegen::Match`
pub record MatchConfig : Type 0 where
  pub condition : Bytes
  pub value : Bytes

-- `istio::attributegen::AttributeGeneration`; `on_request` says that its phase is `ON_REQUEST`.
pub record AttributeConfig : Type 0 where
  pub output_attribute : Bytes
  pub on_request : Bool
  pub matches : List MatchConfig

-- `istio::attributegen::PluginConfig`
pub record PluginConfig : Type 0 where
  pub debug : Bool
  pub attributes : List AttributeConfig

-- `class Match`
pub record Match : Type 0 where
  pub condition : Bytes
  pub condition_token : ℕ
  pub value : Bytes

-- `enum EvalPhase`
pub data EvalPhase : Type 0 where
  on_log_phase on_request_phase : EvalPhase

abbrev pub phase_eq : EvalPhase → EvalPhase → Bool
phase_eq on_log_phase on_log_phase = true
phase_eq on_request_phase on_request_phase = true
phase_eq p q = false

-- `class AttributeGenerator`
pub record AttributeGenerator : Type 0 where
  pub phase : EvalPhase
  pub output_attribute : Bytes
  pub matches : List Match

-- The members of `PluginRootContext`, with the values of its two counters.
pub record Root : Type 0 where
  pub gen : List AttributeGenerator
  pub tokens : List ℕ
  pub debug : Bool
  pub config_errors : ℕ
  pub runtime_errors : ℕ

-- The phase that a generator's configuration asks for.
abbrev pub phase_of : AttributeConfig → EvalPhase
phase_of c = if c.on_request then on_request_phase else on_log_phase

-- The constructor; `debug_` has no value until a configuration is applied.
unfoldable pub new_root : Bool → Root
new_root d = record { gen = []; tokens = []; debug = d; config_errors = 0; runtime_errors = 0 }

module _ {H : Type 0} (host : ExprHost H) where
  -- A result of the size of a `bool` is one.
  abbrev read_bool : Evaluated → Option Bool
  read_bool e =
      if not (is_ok e.result)
      then none
      else (if not (length e.out == 1) then none else some (not (get_or e.out 0 0 == 0)))

  -- `Match::evaluate`
  unfoldable pub evaluate_match : H → Match → Option Bool
  evaluate_match h m =
      if is_empty m.condition then some true else read_bool (host.expr_evaluate m.condition_token h)

  -- `AttributeGenerator::evaluate`, over its matches: no result on an error, else what it returns
  -- and sets.
  unfoldable pub evaluate : H → List Match → Option (Option Bytes)
  evaluate h [] = some none
  evaluate h (m ∷ ms) =
      let rest = evaluate h ms in
      elim (evaluate_match h m) [
        | none ↦ none
        | some true ↦ some (some m.value)
        | some false ↦ rest
      ]

  -- The loop of `attributeGen`: the runtime errors that it counts, and the host.
  unfoldable pub attribute_gen_loop : EvalPhase → List AttributeGenerator → ℕ → H → ℕ × H
  attribute_gen_loop phase [] errors h = (errors, h)
  attribute_gen_loop phase (g ∷ gs) errors h =
      if not (phase_eq phase g.phase)
      then attribute_gen_loop phase gs errors h
      else elim (evaluate h g.matches) [
        | none ↦ attribute_gen_loop phase gs (errors + 1) h
        | some none ↦ attribute_gen_loop phase gs errors h
        | some (some val) ↦
            attribute_gen_loop phase gs errors (host.set_filter_state g.output_attribute val h)
      ]

  -- `attributeGen`
  unfoldable pub attribute_gen : EvalPhase → Root → H → Root × H
  attribute_gen phase root h =
      let (errors, h') = attribute_gen_loop phase root.gen root.runtime_errors h in
      (record root { runtime_errors = errors }, h')

  -- `PluginContext::onLog`
  unfoldable pub on_log : Root → H → Root × H
  on_log = attribute_gen on_log_phase

  -- `PluginContext::onRequestHeaders`
  unfoldable pub on_request_headers : Root → H → FilterHeadersStatus × Root × H
  on_request_headers root h =
      let (root', h') = attribute_gen on_request_phase root h in (continue, root', h')

  -- `cleanupAttributeGen`
  unfoldable pub cleanup_attribute_gen : Root → H → Root × H
  cleanup_attribute_gen root h =
      (record root { gen = []; tokens = [] }, delete_all host root.tokens h)

  -- The inner loop of `initAttributeGen`: the matches built, none when an expression is refused, with
  -- `tokens_` and the host after it.
  unfoldable pub init_matches :
      List MatchConfig → List Match → List ℕ → H → Option (List Match) × List ℕ × H
  init_matches [] matches tokens h = (some matches, tokens, h)
  init_matches (c ∷ cs) matches tokens h =
      if is_empty c.condition
      then init_matches cs
          (matches ++ record { condition = []; condition_token = 0; value = c.value } ∷ []) tokens h
      else (let (status, token, h') = host.create_expression c.condition h in
          if not (is_ok status)
          then (none, tokens, h')
          else init_matches cs
              (matches
                ++ record { condition = c.condition; condition_token = token; value = c.value }
                  ∷ [])
              (tokens ++ token ∷ []) h')

  -- `initAttributeGen`
  unfoldable pub init_attribute_gen : List AttributeConfig → Root → H → Bool × Root × H
  init_attribute_gen [] root h = (true, root, h)
  init_attribute_gen (c ∷ cs) root h =
      let (matches, tokens, h') = init_matches c.matches [] root.tokens h in
      elim matches [
        | none ↦ (false, record root { tokens = tokens }, h')
        | some ms ↦
            init_attribute_gen cs
              (record root {
                tokens = tokens;
                gen =
                    root.gen
                    ++ record {
                      phase = phase_of c;
                      output_attribute = c.output_attribute;
                      matches = ms;
                    }
                      ∷ [];
              })
              h'
      ]

  -- What `onConfigure` does with a message.
  unfoldable pub apply_config : PluginConfig → Root → H → Root × H
  apply_config config root h =
      let (cleaned, h') = cleanup_attribute_gen (record root { debug = config.debug }) h in
      let (status, root', h'') = init_attribute_gen config.attributes cleaned h' in
      if status
      then (root', h'')
      else cleanup_attribute_gen (record root' { config_errors = root'.config_errors + 1 }) h''

  -- `onConfigure`
  unfoldable pub on_configure : (Bytes → Option PluginConfig) → Bytes → Root → H → Bool × Root × H
  on_configure parse configuration root h = elim (parse configuration) [
    | none ↦ (true, record root { config_errors = root.config_errors + 1 }, h)
    | some config ↦ let (root', h') = apply_config config root h in (true, root', h')
  ]

  -- `onDone`
  unfoldable pub on_done : Root → H → Bool × Root × H
  on_done root h = let (root', h') = cleanup_attribute_gen root h in (true, root', h')
