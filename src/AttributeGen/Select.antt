-- ===== src/AttributeGen/Select.antt =====
-- `AttributeGenerator::evaluate` of extensions/attributegen/plugin.cc against a description of what
-- it chooses.
use mathlib.Core.Path.{subst}
use wasm_extensions.Prelude.{
  append-nil, ◌≡◌, refl, inl, inr, ◌↔◌, ap, sym, Bytes, true, false, List, [], ◌∷◌, ◌++◌, Option,
  none, some, All, Option-cases,
}
use wasm_extensions.Expressions.{ExprHost}
use wasm_extensions.AttributeGen.Plugin.{Match, evaluate_match, evaluate}

module _ {H : Type 0} (host : ExprHost H) where
  -- Every match of the list is evaluated to false.
  abbrev pub Fails : H → List Match → Type 0
  Fails h = All (λ m. evaluate_match host h m ≡ some false)

  -- The first match that is not false decides: its value, or an error. With none, no value.
  pub data Selects (h : H) (ms : List Match) (r : Option (Option Bytes)) : Type 0 where
    matched :
        (pre post : List Match) (m : Match)
        → ms ≡ pre ++ m ∷ post
        → Fails h pre
        → evaluate_match host h m ≡ some true
        → r ≡ some (some m.value)
        → Selects h ms r
    broken :
        (pre post : List Match) (m : Match)
        → ms ≡ pre ++ m ∷ post
        → Fails h pre
        → evaluate_match host h m ≡ none
        → r ≡ none
        → Selects h ms r
    unmatched : Fails h ms → r ≡ some none → Selects h ms r

  Selects-cons :
      (h : H) (m : Match) (ms : List Match) (r : Option (Option Bytes))
      → evaluate_match host h m ≡ some false
      → Selects h ms r
      → Selects h (m ∷ ms) r
  Selects-cons h m ms r f (matched pre post n e fs t v) =
      matched (m ∷ pre) post n (ap (◌∷◌ m) e) (f, fs) t v
  Selects-cons h m ms r f (broken pre post n e fs t v) =
      broken (m ∷ pre) post n (ap (◌∷◌ m) e) (f, fs) t v
  Selects-cons h m ms r f (unmatched fs v) = unmatched (f, fs) v

  evaluate-Selects : (h : H) (ms : List Match) → Selects h ms (evaluate host h ms)
  unfolding evaluate
  evaluate-Selects h [] = unmatched tt refl
  evaluate-Selects h (m ∷ ms) = elim (Option-cases (evaluate_match host h m)) [
    | inl e ↦ rw (e, evaluate) (broken [] ms m refl tt e refl)
    | inr (true, e) ↦ rw (e, evaluate) (matched [] ms m refl tt e refl)
    | inr (false, e) ↦ rw (e, evaluate) (Selects-cons h m ms _ e (evaluate-Selects h ms))
  ]

  -- Matches that are false are passed over.
  evaluate-skip :
      (h : H) (pre rest : List Match)
      → Fails h pre
      → evaluate host h (pre ++ rest) ≡ evaluate host h rest
  unfolding evaluate
  evaluate-skip h [] rest f = refl
  evaluate-skip h (m ∷ ms) rest f = rw (f.0, evaluate) (evaluate-skip h ms rest f.1)

  Selects→evaluate :
      (h : H) (ms : List Match) (r : Option (Option Bytes))
      → Selects h ms r
      → evaluate host h ms ≡ r
  unfolding evaluate
  Selects→evaluate h ms r (matched pre post m e f t v) =
      rw (e, evaluate-skip h pre (m ∷ post) f, v, t, evaluate) refl
  Selects→evaluate h ms r (broken pre post m e f t v) =
      rw (e, evaluate-skip h pre (m ∷ post) f, v, t, evaluate) refl
  Selects→evaluate h ms r (unmatched f v) =
      rw (sym (append-nil ms), evaluate-skip h ms [] f, v, evaluate) refl

  -- `evaluate` returns a result if and only if the first match that is not evaluated to false gives
  -- it: its value when it is true, an error when it has none, and no value when all are false.
  pub evaluate-Selects_iff :
      (h : H) (ms : List Match) (r : Option (Option Bytes))
      → (evaluate host h ms ≡ r) ↔ Selects h ms r
  evaluate-Selects_iff h ms r =
      (λ e. subst (Selects h ms) e (evaluate-Selects h ms), Selects→evaluate h ms r)
