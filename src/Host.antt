-- ===== src/Host.antt =====
-- What the plugins use of the Proxy-Wasm host, which is not part of the repository: status codes,
-- the verdicts of a header callback, and the local reply that `sendLocalResponse` asks for.
use wasm_extensions.Prelude.{ℕ, List, Bytes, Bool, true, false}

-- `WasmResult`; `failed` stands for every code that no plugin names.
pub data WasmResult : Type 0 where
  ok cas_mismatch : WasmResult
  failed : ℕ → WasmResult

-- `result == WasmResult::Ok`
unfoldable pub is_ok : WasmResult → Bool
is_ok ok = true
is_ok r = false

-- `FilterHeadersStatus`
pub data FilterHeadersStatus : Type 0 where
  continue stop_iteration : FilterHeadersStatus

-- The arguments of `sendLocalResponse`.
pub record LocalResponse : Type 0 where
  pub response_code : ℕ
  pub response_code_details : Bytes
  pub body : Bytes
  pub headers : List (Bytes × Bytes)
