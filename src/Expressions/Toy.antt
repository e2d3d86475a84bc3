-- ===== src/Expressions/Toy.antt =====
-- A host of expressions, to show that the parameter of the models can be met.
use wasm_extensions.Prelude.{
  ℕ, ◌+◌, ◌≤◌, ◌≡◌, refl, Bytes, Bool, false, ◌||◌, List, [], ◌∷◌, ◌++◌, if◌then◌else◌, ◌==◌, leb,
  get_or, arith,
}
use wasm_extensions.Host.{WasmResult, ok, failed, is_ok}
use wasm_extensions.Expressions.{ExprHost, ExprLaws, Evaluated}

-- Expressions with their tokens, and the filter state. An expression that starts with `!` is
-- refused; `1` is true, `0` false, and any other fails.
abbrev pub Toy : Type 0
Toy = List (ℕ × Bytes) × List (Bytes × Bytes)

abbrev pub next : List (ℕ × Bytes) → ℕ
next [] = 1
next ((t, e) ∷ ts) = let n = next ts in if leb n t then t + 1 else n

abbrev pub is_live : List (ℕ × Bytes) → ℕ → Bool
is_live [] u = false
is_live ((t, e) ∷ ts) u = (u == t) || is_live ts u

abbrev pub forget : ℕ → List (ℕ × Bytes) → List (ℕ × Bytes)
forget u [] = []
forget u ((t, e) ∷ ts) = let rest = forget u ts in if t == u then rest else (t, e) ∷ rest

abbrev pub answer : Bytes → Evaluated
answer e =
    if get_or e 0 0 == 49
    then record { result = ok; out = 1 ∷ [] }
    else (if get_or e 0 0 == 48
        then record { result = ok; out = 0 ∷ [] }
        else record { result = failed 2; out = [] })

abbrev pub text : ℕ → List (ℕ × Bytes) → Bytes
text u [] = []
text u ((t, e) ∷ ts) = let rest = text u ts in if t == u then e else rest

abbrev pub create : Bytes → Toy → WasmResult × ℕ × Toy
create e (ts, fs) =
    if get_or e 0 0 == 33 then (failed 2, 0, (ts, fs)) else (ok, next ts, ((next ts, e) ∷ ts, fs))

abbrev pub toy : ExprHost Toy
toy = record {
  create_expression = create;
  expr_delete = λ t h. (forget t h.0, h.1);
  expr_evaluate = λ t h. answer (text t h.0);
  set_filter_state = λ k v h. (h.0, h.1 ++ (k, v) ∷ []);
  live = λ h. is_live h.0;
}

next_new : (ts : List (ℕ × Bytes)) (u : ℕ) → next ts ≤ u → is_live ts u ≡ false
next_new [] u b = refl
next_new ((t, e) ∷ ts) u b = ground (arith, next_new ts u)

live-forget :
    (t : ℕ) (ts : List (ℕ × Bytes)) (u : ℕ)
    → is_live (forget t ts) u ≡ (if u == t then false else is_live ts u)
live-forget t [] u = ground arith
live-forget t ((s, e) ∷ ts) u = ground (arith, live-forget t ts u)

pub toy_laws : ExprLaws toy
unfolding is_ok
toy_laws = record {
  fresh = λ e h k. ground (arith, next_new h.0 (next h.0));
  created = λ e h k u. ground arith;
  refused = λ e h u k. ground arith;
  deleted = λ t h u. live-forget t h.0 u;
  set_keeps = λ k v h u. refl;
}
