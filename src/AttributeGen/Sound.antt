-- ===== src/AttributeGen/Sound.antt =====
-- What `onConfigure` and `onDone` of extensions/attributegen/plugin.cc keep of the expressions.
use mathlib.Core.Path.{subst}
use mathlib.Core.Option.{some-injective}
use wasm_extensions.Prelude.{
  ℕ, ◌≡◌, refl, ◌⊎◌, inl, inr, Bool, true, List, [], ◌∷◌, ◌++◌, Option, some, is_empty, All,
  All-append, All-map, Bool-cases, Option-cases, arith,
}
use wasm_extensions.Host.{is_ok}
use wasm_extensions.Expressions.{ExprHost, ExprLaws}
use wasm_extensions.AttributeGen.Plugin.{
  Match, MatchConfig, AttributeGenerator, AttributeConfig, PluginConfig, Root,
  cleanup_attribute_gen, init_matches, init_attribute_gen, apply_config,
}
use wasm_extensions.Expressions.Ownership.{
  elem, elem-snoc, Owned, delete_all-Owned, create-Owned, refused-Owned,
}

-- A match with a condition has an expression among `ts`.
abbrev pub HasToken : List ℕ → Match → Type 0
HasToken ts m = (is_empty m.condition ≡ true) ⊎ (elem m.condition_token ts ≡ true)

HasToken-snoc : (t : ℕ) (ts : List ℕ) (m : Match) → HasToken ts m → HasToken (ts ++ t ∷ []) m
HasToken-snoc t ts m h = grind (arith, elem-snoc m.condition_token t ts)

HasToken-mono :
    (ts us : List ℕ)
    → ((u : ℕ) → elem u ts ≡ true → elem u us ≡ true)
    → (m : Match) → HasToken ts m
    → HasToken us m
HasToken-mono ts us grown m (inl e) = inl e
HasToken-mono ts us grown m (inr e) = inr (grown m.condition_token e)

module _ {H : Type 0} (host : ExprHost H) where
  -- The tokens are the expressions that live, each once, and each condition has one of them.
  pub record Sound (base : ℕ → Bool) (root : Root) (h : H) : Type 0 where
    pub owned : Owned host base root.tokens h
    pub covered : All (λ g. All (HasToken root.tokens) g.matches) root.gen

  record Built (base : ℕ → Bool) (tokens : List ℕ) (r : Option (List Match) × List ℕ × H)
      : Type 0 where
    grown : (u : ℕ) → elem u tokens ≡ true → elem u r.1 ≡ true
    owned : Owned host base r.1 r.2
    covered : (ms : List Match) → r.0 ≡ some ms → All (HasToken r.1) ms

  Built-trans :
      (base : ℕ → Bool) (ts us : List ℕ) (r : Option (List Match) × List ℕ × H)
      → ((u : ℕ) → elem u ts ≡ true → elem u us ≡ true)
      → Built base us r
      → Built base ts r
  Built-trans base ts us r g b = record {
    grown = λ u e. b.grown u (g u e);
    owned = b.owned;
    covered = b.covered;
  }

  module _ (laws : ExprLaws host) where
    init_matches-Built :
        (base : ℕ → Bool) (cs : List MatchConfig) (ms : List Match) (tokens : List ℕ) (h : H)
        → Owned host base tokens h
        → All (HasToken tokens) ms
        → Built base tokens (init_matches host cs ms tokens h)
    unfolding init_matches
    init_matches-Built base [] ms tokens h o a = record {
      grown = λ u e. e;
      owned = o;
      covered = λ ns e. subst (All (HasToken tokens)) (some-injective ms ns e) a;
    }
    init_matches-Built base (c ∷ cs) ms tokens h o a = elim (Bool-cases (is_empty c.condition)) [
      | inl e ↦
          rw (e, init_matches)
            (init_matches-Built base cs _ tokens h o
              (All-append (HasToken tokens) ms _ a (inl refl, tt)))
      | inr e ↦ elim (Bool-cases (is_ok (host.create_expression c.condition h).0)) [
        | inl g ↦
            rw (e, g, init_matches)
              (Built-trans base tokens _ _
                (λ u m. ground (arith, elem-snoc u (host.create_expression c.condition h).1 tokens))
                (init_matches-Built base cs _ _ _
                  (create-Owned host laws base tokens c.condition h g o)
                  (All-append (HasToken _) ms _
                    (All-map (HasToken-snoc (host.create_expression c.condition h).1 tokens) ms a)
                    (
                      inr (
                          ground (
                            arith,
                            elem-snoc (host.create_expression c.condition h).1
                                (host.create_expression c.condition h).1 tokens,
                          )),
                      tt,
                    ))))
        | inr g ↦
            rw (e, g, init_matches)
              (record {
                grown = λ u e. e;
                owned = refused-Owned host laws base tokens c.condition h g o;
                covered = λ ns e. absurd (cc);
              })
      ]
    ]

    covered_grow :
        (ts us : List ℕ) (gs : List AttributeGenerator)
        → ((u : ℕ) → elem u ts ≡ true → elem u us ≡ true)
        → All (λ g. All (HasToken ts) g.matches) gs
        → All (λ g. All (HasToken us) g.matches) gs
    covered_grow ts us gs grown = All-map (λ g. All-map (HasToken-mono ts us grown) g.matches) gs

    init-Sound :
        (base : ℕ → Bool) (cs : List AttributeConfig) (root : Root) (h : H)
        → Sound base root h
        → Sound base (init_attribute_gen host cs root h).1 (init_attribute_gen host cs root h).2
    unfolding init_attribute_gen
    init-Sound base [] root h s = s
    init-Sound base (c ∷ cs) root h s =
        let built = init_matches-Built base c.matches [] root.tokens h s.owned tt in
        elim (Option-cases (init_matches host c.matches [] root.tokens h).0) [
          | inl e ↦
              rw (e, init_attribute_gen)
                (record {
                  owned = built.owned;
                  covered = covered_grow root.tokens _ root.gen built.grown s.covered;
                })
          | inr (ms, e) ↦
              rw (e, init_attribute_gen)
                (init-Sound base cs _ _ (record {
                  owned = built.owned;
                  covered =
                      All-append _ root.gen _
                        (covered_grow root.tokens _ root.gen built.grown s.covered)
                        (built.covered ms e, tt);
                }))
        ]

    pub cleanup-Sound :
        (base : ℕ → Bool) (root : Root) (h : H)
        → Sound base root h
        → Sound base (cleanup_attribute_gen host root h).0 (cleanup_attribute_gen host root h).1
    unfolding cleanup_attribute_gen
    cleanup-Sound base root h s = record {
      owned = delete_all-Owned host laws base root.tokens h s.owned;
      covered = tt;
    }

    pub apply_config-Sound :
        (base : ℕ → Bool) (c : PluginConfig) (root : Root) (h : H)
        → Sound base root h
        → Sound base (apply_config host c root h).0 (apply_config host c root h).1
    unfolding apply_config
    apply_config-Sound base c root h s =
        let cleaned =
          cleanup-Sound base (record root { debug = c.debug }) h
            (record { owned = s.owned; covered = s.covered }) in
        let inited = init-Sound base c.attributes _ _ cleaned in
        elim (Bool-cases
          (init_attribute_gen host c.attributes
            (cleanup_attribute_gen host (record root { debug = c.debug }) h).0
            (cleanup_attribute_gen host (record root { debug = c.debug }) h).1).0) [
              | inl e ↦ rw (e, apply_config) inited
              | inr e ↦
                  rw (e, apply_config)
                    (cleanup-Sound base _ _
                      (record { owned = inited.owned; covered = inited.covered }))
            ]
