-- ===== src/ResponseFlag.antt =====
-- extensions/common/util.cc: the short names of Envoy's response flags.
pub mod Names
mod Tests
use wasm_extensions.Prelude.{
  ℕ, zero, suc, ◌+◌, ◌/◌, ◌%◌, ◌^◌, Bool, true, false, List, [], ◌∷◌, ◌++◌, if◌then◌else◌, ◌==◌,
  ltb, leb, is_empty, bit_and, Bytes, codes,
}

-- The constants of `ResponseFlag` with their short names, in the order of `parseResponseFlag`.
abbrev pub flags : List (ℕ × Bytes)
flags =
    (0x1, codes "LH")
    ∷ (0x2, codes "UH")
    ∷ (0x4, codes "UT")
    ∷ (0x8, codes "LR")
    ∷ (0x10, codes "UR")
    ∷ (0x20, codes "UF")
    ∷ (0x40, codes "UC")
    ∷ (0x80, codes "UO")
    ∷ (0x100, codes "NR")
    ∷ (0x200, codes "DI")
    ∷ (0x400, codes "FI")
    ∷ (0x800, codes "RL")
    ∷ (0x1000, codes "UAEX")
    ∷ (0x2000, codes "RLSE")
    ∷ (0x4000, codes "DC")
    ∷ (0x8000, codes "URX")
    ∷ (0x10000, codes "SI")
    ∷ (0x20000, codes "IH")
    ∷ (0x40000, codes "DPE")
    ∷ (0x80000, codes "UMSDR")
    ∷ (0x100000, codes "RFCF")
    ∷ (0x200000, codes "NFCF")
    ∷ (0x400000, codes "DT")
    ∷ (0x800000, codes "UPE")
    ∷ (0x1000000, codes "NC")
    ∷ (0x2000000, codes "OM")
    ∷ (0x4000000, codes "DF")
    ∷ []

-- `LastFlag << 1`
abbrev pub flag_limit : ℕ
flag_limit = 2 ^ 27

-- `appendString`
unfoldable pub append_string : Bytes → Bytes → Bytes
append_string result append = if is_empty result then append else result ++ b',' ∷ append

-- The tests of `parseResponseFlag`, one after the other.
unfoldable pub add_flags : List (ℕ × Bytes) → ℕ → Bytes → Bytes
add_flags [] response_flag result = result
add_flags ((flag, name) ∷ rest) response_flag result =
    add_flags rest response_flag
      (if bit_and response_flag flag == 0 then result else append_string result name)

-- `std::to_string` of a `uint64_t`, which has 20 digits at most.
unfoldable pub digits_of : ℕ → ℕ → Bytes
digits_of zero n = []
digits_of (suc count) n =
    let front = digits_of count (n / 10) in
    if ltb n 10 then (b'0' + n) ∷ [] else front ++ (b'0' + n % 10) ∷ []

unfoldable pub to_string : ℕ → Bytes
to_string n = digits_of 20 n

-- `parseResponseFlag`: the integer behind the names, and as a whole.
unfoldable pub add_overflow : ℕ → Bytes → Bytes
add_overflow response_flag result =
    if leb flag_limit response_flag then append_string result (to_string response_flag) else result

unfoldable pub parse_response_flag : ℕ → Bytes
parse_response_flag response_flag =
    let result = add_overflow response_flag (add_flags flags response_flag []) in
    if is_empty result then codes "-" else result
