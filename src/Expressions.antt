-- ===== src/Expressions.antt =====
-- The expressions that extensions/attributegen and extensions/stats compile on the Proxy-Wasm host,
-- which is not part of the repository, and the filter state. The laws say which are live.
pub mod Ownership
pub mod Toy
use wasm_extensions.Prelude.{ℕ, List, [], ◌∷◌, Bytes, Bool, true, false, ◌≡◌, if◌then◌else◌, ◌==◌}
use wasm_extensions.Host.{WasmResult, is_ok}

-- What `expr_evaluate` answers: a code, and the bytes that it allocates for the result.
pub record Evaluated : Type 0 where
  pub result : WasmResult
  pub out : Bytes

-- `H` is the state of the host.
pub record ExprHost (H : Type 0) : Type 0 where
  pub create_expression : Bytes → H → WasmResult × ℕ × H
  pub expr_delete : ℕ → H → H
  pub expr_evaluate : ℕ → H → Evaluated
  pub set_filter_state : Bytes → Bytes → H → H
  -- whether a token names an expression
  pub live : H → ℕ → Bool

-- The documented life of an expression: `createExpression` gives a token that names none before,
-- and none when it fails; `exprDelete` frees the one it is given.
pub record ExprLaws {H : Type 0} (host : ExprHost H) : Type 0 where
  pub fresh :
      (e : Bytes) (h : H)
      → is_ok (host.create_expression e h).0 ≡ true
      → host.live h (host.create_expression e h).1 ≡ false
  pub created :
      (e : Bytes) (h : H)
      → is_ok (host.create_expression e h).0 ≡ true
      → (u : ℕ)
      → host.live (host.create_expression e h).2 u
        ≡ (if u == (host.create_expression e h).1 then true else host.live h u)
  pub refused :
      (e : Bytes) (h : H) (n : ℕ)
      → is_ok (host.create_expression e h).0 ≡ false
      → host.live (host.create_expression e h).2 n ≡ host.live h n
  pub deleted :
      (t : ℕ) (h : H) (u : ℕ)
      → host.live (host.expr_delete t h) u ≡ (if u == t then false else host.live h u)
  pub set_keeps :
      (k v : Bytes) (h : H) (u : ℕ) → host.live (host.set_filter_state k v h) u ≡ host.live h u

module _ {H : Type 0} (host : ExprHost H) where
  -- `exprDelete` on each token
  unfoldable pub delete_all : List ℕ → H → H
  delete_all [] h = h
  delete_all (t ∷ ts) h = delete_all ts (host.expr_delete t h)
