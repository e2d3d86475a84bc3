-- ===== src/AttributeGen/Configure.antt =====
-- `onConfigure` of extensions/attributegen/plugin.cc, whatever the configuration.
use mathlib.Core.Option.{some-injective, none-ne-some}
use wasm_extensions.Prelude.{
  ℕ, ◌+◌, ◌≡◌, refl, ap, ◌∙◌, sym, Bytes, Bool, true, false, List, [], ◌∷◌, ◌++◌, Option, none,
  some, inl, inr, map, append-nil, Bool-cases, Option-cases, is_empty,
}
use wasm_extensions.Host.{is_ok}
use wasm_extensions.Expressions.{delete_all, ExprHost}
use wasm_extensions.AttributeGen.Plugin.{
  Match, MatchConfig, AttributeConfig, PluginConfig, AttributeGenerator, Root, EvalPhase,
  on_log_phase, on_request_phase, phase_of, cleanup_attribute_gen, init_matches, init_attribute_gen,
  apply_config, on_configure,
}

-- A generator without its tokens.
abbrev pub source_match : Match → MatchConfig
source_match m = record { condition = m.condition; value = m.value }

abbrev is_on_request : EvalPhase → Bool
is_on_request on_request_phase = true
is_on_request on_log_phase = false

abbrev pub source_of : AttributeGenerator → AttributeConfig
source_of g = record {
  output_attribute = g.output_attribute;
  on_request = is_on_request g.phase;
  matches = map source_match g.matches;
}

is_empty→nil : (s : Bytes) → is_empty s ≡ true → s ≡ []
is_empty→nil [] e = refl
is_empty→nil (c ∷ s) e = absurd (cc)

-- A match without a condition keeps none.
unconditional :
    (c : MatchConfig)
    → is_empty c.condition ≡ true
    → source_match (record { condition = []; condition_token = 0; value = c.value }) ≡ c
unconditional c e =
    ap (λ s. record { condition = s; value = c.value }) (sym (is_empty→nil c.condition e))

not_true : ¬ (false ≡ true)
not_true e = cc

map-snoc {ℓ κ} :
    {A : Type ℓ} {B : Type κ} (f : A → B) (xs : List A) (x : A) (y : B) (ys : List B)
    → f x ≡ y
    → map f (xs ++ x ∷ []) ++ ys ≡ map f xs ++ y ∷ ys
map-snoc f [] x y ys e = ap (λ d. d ∷ ys) e
map-snoc f (n ∷ ns) x y ys e = ap (◌∷◌ (f n)) (map-snoc f ns x y ys e)

phase_source :
    (c : AttributeConfig) (ms : List Match)
    → map source_match ms ≡ c.matches
    → source_of (record { phase = phase_of c; output_attribute = c.output_attribute; matches = ms })
      ≡ c
phase_source c ms e = elim (Bool-cases c.on_request) [
  | inl b ↦ rw (b, e) refl
  | inr b ↦ rw (b, e) refl
]

module _ {H : Type 0} (host : ExprHost H) where
  init_matches_source :
      (cs : List MatchConfig) (ms : List Match) (tokens : List ℕ) (h : H) (ns : List Match)
      → (init_matches host cs ms tokens h).0 ≡ some ns
      → map source_match ns ≡ map source_match ms ++ cs
  unfolding init_matches
  init_matches_source [] ms tokens h ns e = rw (sym (some-injective ms ns e)) (sym (append-nil _))
  init_matches_source (c ∷ cs) ms tokens h ns e = elim (Bool-cases (is_empty c.condition)) [
    | inl b ↦
        init_matches_source cs _ tokens h ns (rw (b, init_matches) at e)
        ∙ map-snoc source_match ms _ c cs (unconditional c b)
    | inr b ↦ elim (Bool-cases (is_ok (host.create_expression c.condition h).0)) [
      | inl g ↦
          init_matches_source cs _ _ _ ns (rw (b, g, init_matches) at e)
          ∙ map-snoc source_match ms _ c cs refl
      | inr g ↦ absurd (none-ne-some ns (rw (b, g, init_matches) at e))
    ]
  ]

  init_source :
      (cs : List AttributeConfig) (root : Root) (h : H)
      → (init_attribute_gen host cs root h).0 ≡ true
      → map source_of (init_attribute_gen host cs root h).1.gen ≡ map source_of root.gen ++ cs
  unfolding init_attribute_gen
  init_source [] root h e = sym (append-nil _)
  init_source (c ∷ cs) root h e =
      elim (Option-cases (init_matches host c.matches [] root.tokens h).0) [
        | inl n ↦ absurd (not_true (rw (n, init_attribute_gen) at e))
        | inr (ms, n) ↦
            rw (n, init_attribute_gen)
              (init_source cs _ _ (rw (n, init_attribute_gen) at e)
                ∙ map-snoc source_of root.gen _ c cs
                    (phase_source c ms (init_matches_source c.matches [] root.tokens h ms n)))
      ]

  -- What `onConfigure` may come to.
  pub data Configured (parse : Bytes → Option PluginConfig) (c : Bytes) (root : Root) (after : Root)
      : Type 0 where
    kept :
        parse c ≡ none
        → after ≡ record root { config_errors = root.config_errors + 1 }
        → Configured parse c root after
    accepted :
        (config : PluginConfig)
        → parse c ≡ some config
        → map source_of after.gen ≡ config.attributes
        → after.config_errors ≡ root.config_errors
        → after.runtime_errors ≡ root.runtime_errors
        → Configured parse c root after
    rejected :
        (config : PluginConfig)
        → parse c ≡ some config
        → after.gen ≡ []
        → after.tokens ≡ []
        → after.config_errors ≡ root.config_errors + 1
        → after.runtime_errors ≡ root.runtime_errors
        → Configured parse c root after

  -- `initAttributeGen` counts nothing.
  init_errors :
      (cs : List AttributeConfig) (root : Root) (h : H)
      → ((init_attribute_gen host cs root h).1.config_errors ≡ root.config_errors)
        × ((init_attribute_gen host cs root h).1.runtime_errors ≡ root.runtime_errors)
  unfolding init_attribute_gen
  init_errors [] root h = (refl, refl)
  init_errors (c ∷ cs) root h =
      elim (Option-cases (init_matches host c.matches [] root.tokens h).0) [
        | inl n ↦ rw (n, init_attribute_gen) (refl, refl)
        | inr (ms, n) ↦ rw (n, init_attribute_gen) (init_errors cs _ _)
      ]

  -- `onConfigure` always returns true. When the text does not parse it counts one configuration error
  -- and changes no other member; else it either takes the generators of the message exactly, in
  -- order, and counts nothing, or keeps no generator and no token and counts one error.
  pub on_configure-Configured :
      (parse : Bytes → Option PluginConfig) (c : Bytes) (root : Root) (h : H)
      → ((on_configure host parse c root h).0 ≡ true)
        × Configured parse c root (on_configure host parse c root h).1
  unfolding on_configure apply_config cleanup_attribute_gen
  on_configure-Configured parse c root h = elim (Option-cases (parse c)) [
    | inl n ↦ rw (n, on_configure) (refl, kept n refl)
    | inr (config, n) ↦
        let cleaned = record root { debug = config.debug; gen = []; tokens = [] } in
        let status =
          (init_attribute_gen host config.attributes cleaned (delete_all host root.tokens h)).0 in
        let errors = init_errors config.attributes cleaned (delete_all host root.tokens h) in
        elim (Bool-cases status) [
          | inl s ↦
              rw (n, s, on_configure, apply_config)
                (
                  refl,
                  accepted config n
                      (init_source config.attributes cleaned (delete_all host root.tokens h) s)
                      errors.0 errors.1,
                )
          | inr s ↦
              rw (n, s, on_configure, apply_config)
                (refl, rejected config n refl refl (ap (λ k. k + 1) errors.0) errors.1)
        ]
  ]
