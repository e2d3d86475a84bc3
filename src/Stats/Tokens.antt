-- ===== src/Stats/Tokens.antt =====
-- The tokens that extensions/stats/plugin.cc holds of the host, over its configurations and `onDone`.
use wasm_extensions.Prelude.{
  ℕ, ◌≡◌, refl, ap, sym, Bytes, Bool, List, [], ◌∷◌, ◌++◌, map, append_assoc, arith, Bool-cases,
  Option-cases, inl, inr,
}
use mathlib.Core.Path.{subst}
use wasm_extensions.Host.{is_ok}
use wasm_extensions.Expressions.{ExprHost, ExprLaws, delete_all}
use wasm_extensions.Expressions.Ownership.{
  elem-append, Owned, live-delete_all, create-Owned, create_between-Owned, refused-Owned,
}
use wasm_extensions.Stats.Report.{Root}
use wasm_extensions.Stats.Maps.{look_up}
use wasm_extensions.Stats.Config.{cleanup_expressions, add_string_expression, add_int_expression}

abbrev pub tokens : Root → List ℕ
tokens root = root.int_expressions ++ map (λ e. e.0) root.expressions

strings-snoc :
    (xs : List ℕ) (es : List (ℕ × Bytes)) (e : ℕ × Bytes)
    → (xs ++ map (λ x. x.0) es) ++ e.0 ∷ [] ≡ xs ++ map (λ x. x.0) (es ++ e ∷ [])
strings-snoc (x ∷ xs) es e = ap (◌∷◌ x) (strings-snoc xs es e)
strings-snoc [] [] e = refl
strings-snoc [] (d ∷ es) e = ap (◌∷◌ d.0) (strings-snoc [] es e)

module _ {H : Type 0} (exprs : ExprHost H) (laws : ExprLaws exprs) (base : ℕ → Bool) where
  -- The plugin holds exactly the expressions that live and did not in `base`.
  abbrev pub Holds : Root → H → Type 0
  Holds root h = Owned exprs base (tokens root) h

  pub cleanup-Holds :
      (root : Root) (h : H)
      → Holds root h
      → Holds (cleanup_expressions exprs root h).0 (cleanup_expressions exprs root h).1
  unfolding cleanup_expressions
  cleanup-Holds root h o =
      let strings = map (λ (e : ℕ × Bytes). e.0) root.expressions in
      let ints = root.int_expressions in
      record {
        live_exactly = λ u. ground (
          arith,
          live-delete_all exprs laws ints (delete_all exprs strings h) u,
          live-delete_all exprs laws strings h u,
          elem-append u ints strings,
          o.live_exactly u,
          o.disjoint u,
        );
        disjoint = λ u e. absurd (cc);
        distinct = tt;
      }

  pub add_string-Holds :
      (input : Bytes) (root : Root) (h : H)
      → Holds root h
      → Holds
          (add_string_expression exprs input root h).1
          (add_string_expression exprs input root h).2
  unfolding add_string_expression
  add_string-Holds input root h o = elim (Option-cases (look_up input root.input_expressions)) [
    | inr (i, e) ↦ rw (e, add_string_expression) o
    | inl e ↦ elim (Bool-cases (is_ok (exprs.create_expression input h).0)) [
      | inr s ↦
          rw (e, s, add_string_expression) (refused-Owned exprs laws base (tokens root) input h s o)
      | inl s ↦
          rw (e, s, add_string_expression)
            (subst (λ ts. Owned exprs base ts (exprs.create_expression input h).2)
              (strings-snoc root.int_expressions root.expressions
                ((exprs.create_expression input h).1, input))
              (create-Owned exprs laws base (tokens root) input h s o))
    ]
  ]

  pub add_int-Holds :
      (input : Bytes) (root : Root) (h : H)
      → Holds root h
      → Holds (add_int_expression exprs input root h).1 (add_int_expression exprs input root h).2
  unfolding add_int_expression
  add_int-Holds input root h o = elim (Bool-cases (is_ok (exprs.create_expression input h).0)) [
    | inr s ↦ rw (s, add_int_expression) (refused-Owned exprs laws base (tokens root) input h s o)
    | inl s ↦
        rw (s, add_int_expression)
          (subst (λ ts. Owned exprs base ts (exprs.create_expression input h).2)
            (sym (
              append_assoc root.int_expressions ((exprs.create_expression input h).1 ∷ [])
                (map (λ (e : ℕ × Bytes). e.0) root.expressions)))
            (create_between-Owned exprs laws base root.int_expressions
              (map (λ (e : ℕ × Bytes). e.0) root.expressions) input h s o))
  ]
