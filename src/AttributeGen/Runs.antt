-- ===== src/AttributeGen/Runs.antt =====
-- The root context of extensions/attributegen/plugin.cc over the callbacks that the host makes:
-- `onConfigure`, `onRequestHeaders`, `onLog` and `onDone`, in any order and number.
use wasm_extensions.Prelude.{
  ℕ, ◌+◌, Bytes, ◌≡◌, refl, ◌∙◌, inl, inr, Bool, List, [], ◌∷◌, Option, none, some, Bool-cases,
  Option-cases,
}
use wasm_extensions.Expressions.{ExprHost, ExprLaws}
use wasm_extensions.AttributeGen.Plugin.{
  AttributeGenerator, PluginConfig, Root, EvalPhase, phase_eq, on_log_phase, on_request_phase,
  evaluate, attribute_gen_loop, attribute_gen, on_log, on_request_headers, cleanup_attribute_gen,
  on_configure, on_done, new_root,
}
use wasm_extensions.Expressions.Ownership.{delete_all-Owned}
use wasm_extensions.AttributeGen.Sound.{Sound, cleanup-Sound, apply_config-Sound}

-- What the plugin calls between callbacks.
pub data Event : Type 0 where
  configured : Bytes → Event
  request_headers logged done : Event

module _ {H : Type 0} (host : ExprHost H) where
  -- One callback.
  unfoldable pub on_event : (Bytes → Option PluginConfig) → Event → Root × H → Root × H
  on_event parse (configured c) (root, h) =
      let (r, root', h') = on_configure host parse c root h in (root', h')
  on_event parse request_headers (root, h) =
      let (r, root', h') = on_request_headers host root h in (root', h')
  on_event parse logged (root, h) = on_log host root h
  on_event parse done (root, h) = let (r, root', h') = on_done host root h in (root', h')

  -- The callbacks, one after the other.
  unfoldable pub run : (Bytes → Option PluginConfig) → List Event → Root × H → Root × H
  run parse [] s = s
  run parse (e ∷ es) s = run parse es (on_event parse e s)

  module _ (laws : ExprLaws host) where
    attribute_gen-live :
        (phase : EvalPhase) (gs : List AttributeGenerator) (errors : ℕ) (h : H) (u : ℕ)
        → host.live (attribute_gen_loop host phase gs errors h).1 u ≡ host.live h u
    unfolding attribute_gen_loop
    attribute_gen-live phase [] errors h u = refl
    attribute_gen-live phase (g ∷ gs) errors h u = elim (Bool-cases (phase_eq phase g.phase)) [
      | inr e ↦ rw (e, attribute_gen_loop) (attribute_gen-live phase gs errors h u)
      | inl e ↦ elim (Option-cases (evaluate host h g.matches)) [
        | inl n ↦ rw (e, n, attribute_gen_loop) (attribute_gen-live phase gs (errors + 1) h u)
        | inr (none, n) ↦ rw (e, n, attribute_gen_loop) (attribute_gen-live phase gs errors h u)
        | inr (some v, n) ↦
            rw (e, n, attribute_gen_loop)
              (attribute_gen-live phase gs errors _ u ∙ laws.set_keeps g.output_attribute v h u)
      ]
    ]

    attribute_gen-Sound :
        (base : ℕ → Bool) (phase : EvalPhase) (root : Root) (h : H)
        → Sound host base root h
        → Sound host base (attribute_gen host phase root h).0 (attribute_gen host phase root h).1
    unfolding attribute_gen
    attribute_gen-Sound base phase root h s = record {
      owned = record {
        live_exactly =
            λ u. attribute_gen-live phase root.gen root.runtime_errors h u ∙ s.owned.live_exactly u;
        disjoint = s.owned.disjoint;
        distinct = s.owned.distinct;
      };
      covered = s.covered;
    }

    on_event-Sound :
        (base : ℕ → Bool) (parse : Bytes → Option PluginConfig) (e : Event) (root : Root) (h : H)
        → Sound host base root h
        → Sound host base (on_event parse e (root, h)).0 (on_event parse e (root, h)).1
    unfolding on_event on_configure on_request_headers on_log on_done
    on_event-Sound base parse (configured c) root h s = elim (Option-cases (parse c)) [
      | inl n ↦ rw (n, on_event, on_configure) (record { owned = s.owned; covered = s.covered })
      | inr (config, n) ↦
          rw (n, on_event, on_configure) (apply_config-Sound host laws base config root h s)
    ]
    on_event-Sound base parse request_headers root h s =
        attribute_gen-Sound base on_request_phase root h s
    on_event-Sound base parse logged root h s = attribute_gen-Sound base on_log_phase root h s
    on_event-Sound base parse done root h s = cleanup-Sound host laws base root h s

    run-Sound :
        (base : ℕ → Bool) (parse : Bytes → Option PluginConfig) (es : List Event) (root : Root)
        (h : H)
        → Sound host base root h
        → Sound host base (run parse es (root, h)).0 (run parse es (root, h)).1
    unfolding run
    run-Sound base parse [] root h s = s
    run-Sound base parse (e ∷ es) root h s =
        run-Sound base parse es _ _ (on_event-Sound base parse e root h s)

    -- Given the host's laws, in every state that a new root context reaches by callbacks, the live
    -- expressions of the host are those that were live before it and the tokens it holds, these are
    -- distinct and were not live before, and every match with a condition has one of the tokens.
    pub run-new_root-Sound :
        (parse : Bytes → Option PluginConfig) (es : List Event) (d : Bool) (h : H)
        → Sound host (host.live h) (run parse es (new_root d, h)).0 (run parse es (new_root d, h)).1
    unfolding new_root
    run-new_root-Sound parse es d h = run-Sound (host.live h) parse es (new_root d) h (record {
      owned = record { live_exactly = λ u. refl; disjoint = λ u e. absurd (cc); distinct = tt };
      covered = tt;
    })

    -- Given the host's laws, after an `onDone` that follows any callbacks of a new root context, an
    -- expression is live if and only if it was live before the plugin ran.
    pub run-done_frees :
        (parse : Bytes → Option PluginConfig) (es : List Event) (d : Bool) (h : H) (u : ℕ)
        → host.live (on_event parse done (run parse es (new_root d, h))).1 u ≡ host.live h u
    unfolding on_event on_done cleanup_attribute_gen
    run-done_frees parse es d h u =
        let freed =
          delete_all-Owned host laws (host.live h) _ _ (run-new_root-Sound parse es d h).owned in
        freed.live_exactly u
