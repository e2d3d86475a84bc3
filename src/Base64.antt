-- ===== src/Base64.antt =====
-- extensions/common/wasm/base64.h: `Base64::encode` and `Base64::decodeWithoutPadding`, with the
-- two tables and the helpers of both loops. A `std::string` under construction is a list that
-- grows at its end; `uint8_t` and `char` values are numbers below 256.
pub mod Groups
pub mod Encode
pub mod Ungroup
pub mod Decode
pub mod Loop
pub mod Padding
pub mod Safety
pub mod RoundTrip
pub mod Canonical
mod Tests
use mathlib.Core.Option
use wasm_extensions.Prelude.{
  ℕ, zero, suc, ◌+◌, ◌-◌, ◌*◌, ◌/◌, ◌%◌, Bool, true, false, Option, none, some, List, [], ◌∷◌, ◌++◌,
  if◌then◌else◌, ◌==◌, ltb, Bytes, codes, length, get_or, get_elem?, shl, shr, to_byte, bit_and,
  bit_or,
}

abbrev char_table : Bytes
char_table = codes "ABCDEFGHIJKLMNOPQRSTUVWXYZabcdefghijklmnopqrstuvwxyz0123456789+/"

-- 256 entries; 64 marks a character that is no digit.
abbrev reverse_lookup_table : List ℕ
reverse_lookup_table =
    64 ∷ 64 ∷ 64 ∷ 64 ∷ 64 ∷ 64 ∷ 64 ∷ 64 ∷ 64 ∷ 64 ∷ 64 ∷ 64 ∷ 64 ∷ 64 ∷ 64 ∷ 64 ∷ 64 ∷ 64 ∷ 64
    ∷ 64 ∷ 64 ∷ 64 ∷ 64 ∷ 64 ∷ 64 ∷ 64 ∷ 64 ∷ 64 ∷ 64 ∷ 64 ∷ 64 ∷ 64 ∷ 64 ∷ 64 ∷ 64 ∷ 64 ∷ 64 ∷ 64
    ∷ 64 ∷ 64 ∷ 64 ∷ 64 ∷ 64 ∷ 62 ∷ 64 ∷ 64 ∷ 64 ∷ 63 ∷ 52 ∷ 53 ∷ 54 ∷ 55 ∷ 56 ∷ 57 ∷ 58 ∷ 59 ∷ 60
    ∷ 61 ∷ 64 ∷ 64 ∷ 64 ∷ 64 ∷ 64 ∷ 64 ∷ 64 ∷ 0 ∷ 1 ∷ 2 ∷ 3 ∷ 4 ∷ 5 ∷ 6 ∷ 7 ∷ 8 ∷ 9 ∷ 10 ∷ 11 ∷ 12
    ∷ 13 ∷ 14 ∷ 15 ∷ 16 ∷ 17 ∷ 18 ∷ 19 ∷ 20 ∷ 21 ∷ 22 ∷ 23 ∷ 24 ∷ 25 ∷ 64 ∷ 64 ∷ 64 ∷ 64 ∷ 64 ∷ 64
    ∷ 26 ∷ 27 ∷ 28 ∷ 29 ∷ 30 ∷ 31 ∷ 32 ∷ 33 ∷ 34 ∷ 35 ∷ 36 ∷ 37 ∷ 38 ∷ 39 ∷ 40 ∷ 41 ∷ 42 ∷ 43 ∷ 44
    ∷ 45 ∷ 46 ∷ 47 ∷ 48 ∷ 49 ∷ 50 ∷ 51 ∷ 64 ∷ 64 ∷ 64 ∷ 64 ∷ 64 ∷ 64 ∷ 64 ∷ 64 ∷ 64 ∷ 64 ∷ 64 ∷ 64
    ∷ 64 ∷ 64 ∷ 64 ∷ 64 ∷ 64 ∷ 64 ∷ 64 ∷ 64 ∷ 64 ∷ 64 ∷ 64 ∷ 64 ∷ 64 ∷ 64 ∷ 64 ∷ 64 ∷ 64 ∷ 64 ∷ 64
    ∷ 64 ∷ 64 ∷ 64 ∷ 64 ∷ 64 ∷ 64 ∷ 64 ∷ 64 ∷ 64 ∷ 64 ∷ 64 ∷ 64 ∷ 64 ∷ 64 ∷ 64 ∷ 64 ∷ 64 ∷ 64 ∷ 64
    ∷ 64 ∷ 64 ∷ 64 ∷ 64 ∷ 64 ∷ 64 ∷ 64 ∷ 64 ∷ 64 ∷ 64 ∷ 64 ∷ 64 ∷ 64 ∷ 64 ∷ 64 ∷ 64 ∷ 64 ∷ 64 ∷ 64
    ∷ 64 ∷ 64 ∷ 64 ∷ 64 ∷ 64 ∷ 64 ∷ 64 ∷ 64 ∷ 64 ∷ 64 ∷ 64 ∷ 64 ∷ 64 ∷ 64 ∷ 64 ∷ 64 ∷ 64 ∷ 64 ∷ 64
    ∷ 64 ∷ 64 ∷ 64 ∷ 64 ∷ 64 ∷ 64 ∷ 64 ∷ 64 ∷ 64 ∷ 64 ∷ 64 ∷ 64 ∷ 64 ∷ 64 ∷ 64 ∷ 64 ∷ 64 ∷ 64 ∷ 64
    ∷ 64 ∷ 64 ∷ 64 ∷ 64 ∷ 64 ∷ 64 ∷ 64 ∷ 64 ∷ 64 ∷ 64 ∷ 64 ∷ 64 ∷ 64 ∷ 64 ∷ 64 ∷ 64 ∷ 64 ∷ 64 ∷ 64
    ∷ 64 ∷ 64 ∷ 64 ∷ 64 ∷ 64 ∷ 64 ∷ 64 ∷ []

-- `char_table[i]` and `reverse_lookup_table[c]`.
pub char_at : ℕ → ℕ
char_at i = get_or char_table i 0

pub reverse_lookup : ℕ → ℕ
reverse_lookup c = get_or reverse_lookup_table c 64

-- `encodeBase`: the new `next_c` and the longer output.
pub encode_base : ℕ → ℕ → ℕ → Bytes → ℕ × Bytes
encode_base cur_char pos next_c ret =
    if pos % 3 == 0
    then (to_byte (shl (bit_and cur_char 0x03) 4), ret ++ char_at (shr cur_char 2) ∷ [])
    else (if pos % 3 == 1
        then (
          to_byte (shl (bit_and cur_char 0x0f) 2),
          ret ++ char_at (bit_or next_c (shr cur_char 4)) ∷ [],
        )
        else (
          0,
          ret ++ char_at (bit_or next_c (shr cur_char 6)) ∷ char_at (bit_and cur_char 0x3f) ∷ [],
        ))

-- `encodeLast`
pub encode_last : ℕ → ℕ → Bytes → Bool → Bytes
encode_last pos last_char ret add_padding =
    if pos % 3 == 1
    then ret ++ char_at last_char ∷ (if add_padding then b'=' ∷ b'=' ∷ [] else [])
    else (if pos % 3 == 2
        then ret ++ char_at last_char ∷ (if add_padding then b'=' ∷ [] else [])
        else ret)

-- The `for` loop of `Base64::encode`, then the call of `encodeLast`.
pub encode_loop : Bool → Bytes → ℕ → ℕ → Bytes → Bytes
encode_loop add_padding [] pos next_c ret = encode_last pos next_c ret add_padding
encode_loop add_padding (c ∷ input) pos next_c ret =
    let (next_c', ret') = encode_base c pos next_c ret in
    encode_loop add_padding input (pos + 1) next_c' ret'

-- `Base64::encode(input, length, add_padding)`; the two-argument overload passes `true`.
unfoldable pub encode : Bytes → Bool → Bytes
unfolding encode_loop encode_base encode_last char_at
encode input add_padding = encode_loop add_padding input 0 0 []

-- `ret.back() |= v`
pub or_back : Bytes → ℕ → Bytes
or_back [] v = []
or_back (x ∷ []) v = to_byte (bit_or x v) ∷ []
or_back (x ∷ y ∷ r) v = x ∷ or_back (y ∷ r) v

-- `decodeBase`: `none` for the result `false`.
pub decode_base : ℕ → ℕ → Bytes → Option Bytes
decode_base cur_char pos ret =
    let c = reverse_lookup cur_char in
    if c == 64
    then none
    else (if pos % 4 == 0
        then some (ret ++ to_byte (shl c 2) ∷ [])
        else (if pos % 4 == 1
            then some (or_back ret (shr c 4) ++ to_byte (shl c 4) ∷ [])
            else (if pos % 4 == 2
                then some (or_back ret (shr c 2) ++ to_byte (shl c 6) ∷ [])
                else some (or_back ret c))))

-- `decodeLast`: `none` for the result `false`.
pub decode_last : ℕ → ℕ → Bytes → Option Bytes
decode_last cur_char pos ret =
    let c = reverse_lookup cur_char in
    if c == 64
    then none
    else (if pos % 4 == 0
        then none
        else (if pos % 4 == 1
            then (if bit_and c 0b1111 == 0 then some (or_back ret (shr c 4)) else none)
            else (if pos % 4 == 2
                then (if bit_and c 0b11 == 0 then some (or_back ret (shr c 2)) else none)
                else some (or_back ret c))))

-- What a call of `decodeWithoutPadding` comes to: a returned string (the empty one on a bad
-- input), a read past the end of the input, or a failed `ASSERT`.
pub data Decoded : Type 0 where
  returned : Bytes → Decoded
  overrun : Decoded
  assertion_failed : Decoded

-- The `for` loop over the positions below `last`, then the call of `decodeLast`; `i` is the
-- position of the head of the list. `none` in the result is the early `return EMPTY_STRING`.
pub decode_loop : Bytes → ℕ → ℕ → Bytes → Option (Option Bytes)
decode_loop [] i last ret = none
decode_loop (c ∷ input) i last ret =
    if ltb i last
    then elim (decode_base c i ret) [
      | none ↦ some none
      | some ret' ↦ decode_loop input (i + 1) last ret'
    ]
    else some (decode_last c i ret)

-- `input[n - 1] == '='`, where `n - 1` wraps in `size_t`: `none` for a read past the end.
pub ends_in_pad : ℕ → Bytes → ℕ → Option Bool
ends_in_pad word input n = Option.map (λ c. c == b'=') (get_elem? input ((n + word - 1) % word))

-- `n` after the padding is dropped.
pub strip_length : ℕ → Bytes → Option ℕ
strip_length word input =
    let n : ℕ = length input in
    let m = (n + word - 1) % word in
    elim (ends_in_pad word input n) [
      | none ↦ none
      | some false ↦ some n
      | some true ↦
          if ltb 0 m
          then Option.map (λ pad. if pad then (m + word - 1) % word else m)
              (ends_in_pad word input m)
          else some m
    ]

-- The length that `ASSERT` expects.
pub max_length : ℕ → ℕ
max_length n =
    let len = (n + 3) / 4 * 3 in
    let len' = if n % 4 == 3 then len - 1 else len in if n % 4 == 2 then len' - 2 else len'

-- `Base64::decodeWithoutPadding`, from the length `n` that is left.
pub decode_body : ℕ → Bytes → ℕ → Decoded
unfolding decode_loop decode_base decode_last reverse_lookup or_back max_length
decode_body word input n =
    let last = (n + word - 1) % word in
    elim (decode_loop input 0 last []) [
      | none ↦ overrun
      | some none ↦ returned []
      | some (some ret) ↦ if length ret == max_length n then returned ret else assertion_failed
    ]

-- `Base64::decodeWithoutPadding`. `word` is 2 to the width of `size_t`, in which `n - 1` wraps.
pub decode_without_padding : ℕ → Bytes → Decoded
unfolding strip_length ends_in_pad decode_body
decode_without_padding word [] = returned []
decode_without_padding word (c ∷ input) = elim (strip_length word (c ∷ input)) [
  | none ↦ overrun
  | some n ↦ decode_body word (c ∷ input) n
]
