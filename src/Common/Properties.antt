-- ===== src/Common/Properties.antt =====
-- What extensions/common/context.cc reads of the Proxy-Wasm host: properties (`getValue`,
-- `getProperty`), headers, and the Abseil and FlatBuffers functions it calls.
use wasm_extensions.Prelude.{ℕ, Bytes, Bool, List, Option, none, some, String}

-- `none` is a property that cannot be read as a value of the type. A 64-bit number, signed or not, is
-- its bit pattern. `getHeaderMapValue` gives an object for a missing header too, an empty one.
pub record Properties : Type 0 where
  pub string : List String → Option Bytes
  pub number : List String → Option ℕ
  pub bool : List String → Option Bool
  pub pairs : List String → Option (List (Bytes × Bytes))
  pub header : String → Bytes

-- `getValue(path, &field)`: the field afterwards.
abbrev pub get_value {ℓ} : {A : Type ℓ} → Option A → A → A
get_value none old = old
get_value (some v) old = v

-- `absl::StrSplit` and `absl::SimpleAtoi` into a `uint64_t`, with what it leaves there; the number of
-- bytes that follow the first one when `flatbuffers::FromUTF8` reads a code point.
pub record TextLib : Type 0 where
  pub str_split : ℕ → Bytes → List Bytes
  pub simple_atoi : Bytes → ℕ → Bool × ℕ
  pub from_utf8 : Bytes → Option ℕ
