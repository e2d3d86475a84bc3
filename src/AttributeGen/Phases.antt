-- ===== src/AttributeGen/Phases.antt =====
-- `attributeGen` of extensions/attributegen/plugin.cc against what its phase must write.
use wasm_extensions.Prelude.{
  ℕ, suc, ◌+◌, ◌≡◌, ◌≢◌, refl, ap, ◌∙◌, Bytes, true, false, List, [], ◌∷◌, Option, none, some, inl,
  inr, Bool-cases, Option-cases, arith,
}
use wasm_extensions.Expressions.{ExprHost}
use wasm_extensions.AttributeGen.Plugin.{
  AttributeGenerator, Root, EvalPhase, on_log_phase, on_request_phase, phase_eq, evaluate,
  attribute_gen_loop, attribute_gen,
}
use wasm_extensions.AttributeGen.Select.{Selects, evaluate-Selects_iff}

phase_eq-same : (p q : EvalPhase) → phase_eq p q ≡ true → q ≡ p
phase_eq-same on_log_phase on_log_phase e = refl
phase_eq-same on_log_phase on_request_phase e = absurd (cc)
phase_eq-same on_request_phase on_log_phase e = absurd (cc)
phase_eq-same on_request_phase on_request_phase e = refl

phase_eq-other : (p q : EvalPhase) → phase_eq p q ≡ false → q ≢ p
phase_eq-other on_log_phase on_log_phase e f = absurd (cc)
phase_eq-other on_log_phase on_request_phase e f = absurd (cc)
phase_eq-other on_request_phase on_log_phase e f = absurd (cc)
phase_eq-other on_request_phase on_request_phase e f = absurd (cc)

module _ {H : Type 0} (host : ExprHost H) where
  -- The generators take a host from one state to another and `errors` of them fail: those of
  -- another phase do nothing, and each of the phase, in order and on the state that the ones before
  -- it left, sets its attribute to the value that it selects, selects none, or fails.
  pub data Ran (phase : EvalPhase) : List AttributeGenerator → H → ℕ → H → Type 0 where
    finished : (h : H) → Ran phase [] h 0 h
    skipped :
        (g : AttributeGenerator) (gs : List AttributeGenerator) (h : H) (errors : ℕ) (h' : H)
        → g.phase ≢ phase
        → Ran phase gs h errors h'
        → Ran phase (g ∷ gs) h errors h'
    failed :
        (g : AttributeGenerator) (gs : List AttributeGenerator) (h : H) (errors : ℕ) (h' : H)
        → g.phase ≡ phase
        → Selects host h g.matches none
        → Ran phase gs h errors h'
        → Ran phase (g ∷ gs) h (suc errors) h'
    unmatched :
        (g : AttributeGenerator) (gs : List AttributeGenerator) (h : H) (errors : ℕ) (h' : H)
        → g.phase ≡ phase
        → Selects host h g.matches (some none)
        → Ran phase gs h errors h'
        → Ran phase (g ∷ gs) h errors h'
    written :
        (g : AttributeGenerator) (gs : List AttributeGenerator) (v : Bytes) (h : H) (errors : ℕ)
        (h' : H)
        → g.phase ≡ phase
        → Selects host h g.matches (some (some v))
        → Ran phase gs (host.set_filter_state g.output_attribute v h) errors h'
        → Ran phase (g ∷ gs) h errors h'

  -- The loop's result, as the errors that it adds and the state that it leaves.
  record LoopRan (phase : EvalPhase) (gs : List AttributeGenerator) (before : ℕ) (h : H)
      : Type 0 where
    errors : ℕ
    after : H
    result : ◌≡◌ {A = ℕ × H} (attribute_gen_loop host phase gs before h) (before + errors, after)
    ran : Ran phase gs h errors after

  loop-Ran :
      (phase : EvalPhase) (gs : List AttributeGenerator) (before : ℕ) (h : H)
      → LoopRan phase gs before h
  unfolding attribute_gen_loop
  loop-Ran phase [] before h = record {
    errors = 0;
    after = h;
    result = ap (λ n. (n, h)) (omega arith);
    ran = finished h;
  }
  loop-Ran phase (g ∷ gs) before h = elim (Bool-cases (phase_eq phase g.phase)) [
    | inr e ↦
        let rest = loop-Ran phase gs before h in
        record {
          errors = rest.errors;
          after = rest.after;
          result = rw (e, attribute_gen_loop) rest.result;
          ran = skipped g gs h _ _ (phase_eq-other phase g.phase e) rest.ran;
        }
    | inl e ↦
        let here = phase_eq-same phase g.phase e in
        let selects = λ (r : Option (Option Bytes)). (evaluate-Selects_iff host h g.matches r).0 in
        elim (Option-cases (evaluate host h g.matches)) [
          | inl n ↦
              let rest = loop-Ran phase gs (before + 1) h in
              record {
                errors = suc rest.errors;
                after = rest.after;
                result =
                    rw (e, n, attribute_gen_loop)
                      (rest.result ∙ ap (λ k. (k, rest.after)) (omega arith));
                ran = failed g gs h _ _ here (selects none n) rest.ran;
              }
          | inr (none, n) ↦
              let rest = loop-Ran phase gs before h in
              record {
                errors = rest.errors;
                after = rest.after;
                result = rw (e, n, attribute_gen_loop) rest.result;
                ran = unmatched g gs h _ _ here (selects (some none) n) rest.ran;
              }
          | inr (some v, n) ↦
              let rest = loop-Ran phase gs before (host.set_filter_state g.output_attribute v h) in
              record {
                errors = rest.errors;
                after = rest.after;
                result = rw (e, n, attribute_gen_loop) rest.result;
                ran = written g gs v h _ _ here (selects (some (some v)) n) rest.ran;
              }
        ]
  ]

  -- `attributeGen` runs the generators of its phase in order, each on the state that the ones before
  -- it left: one whose first match that is not false has a value sets its attribute to it, one
  -- without such a match does nothing, and each one that fails is counted as a runtime error and
  -- does not stop those after it. Nothing else of the plugin changes.
  pub attribute_gen-Ran :
      (phase : EvalPhase) (root : Root) (h : H)
      → (errors : ℕ) × (h' : H) × (◌≡◌ {A = Root × H}
          (attribute_gen host phase root h)
          (record root { runtime_errors = root.runtime_errors + errors }, h'))
        × Ran phase root.gen h errors h'
  unfolding attribute_gen
  attribute_gen-Ran phase root h =
      let l = loop-Ran phase root.gen root.runtime_errors h in
      (l.errors, l.after, rw (l.result, attribute_gen) refl, l.ran)
