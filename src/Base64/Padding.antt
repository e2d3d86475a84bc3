-- ===== src/Base64/Padding.antt =====
-- The padding that `Base64::decodeWithoutPadding` drops, and the reads that find it.
use wasm_extensions.Prelude.{
  get_or, get_elem?-get_or, ltb, ltb→lt, ◌&&◌, Bool-cases, ℕ, ◌+◌, ◌-◌, ◌%◌, ◌<◌, ◌≤◌, ◌≡◌, refl,
  some, inl, inr, [], ◌∷◌, Bytes, arith, length, ◌==◌, if◌then◌else◌, Bool, take,
}
use wasm_extensions.Base64.{strip_length, ends_in_pad}

-- The length of the text in front of at most two `=` at its end.
abbrev pub pad_at : Bytes → ℕ → Bool
pad_at input n = get_or input (n - 1) 0 == b'='

unfoldable pub text_length : Bytes → ℕ
text_length input =
    let n : ℕ = length input in
    if pad_at input n then (if ltb 0 (n - 1) && pad_at input (n - 1) then n - 2 else n - 1) else n

-- The text in front of the padding.
unfoldable pub unpadded : Bytes → Bytes
unpadded input = take (text_length input) input

pub text_length-le : (c : ℕ) (input : Bytes) → text_length (c ∷ input) ≤ length (c ∷ input)
unfolding text_length
text_length-le c input = ground arith

-- An empty text in front of the padding means that the first byte is `=`.
pub text_length-zero : (c : ℕ) (input : Bytes) → text_length (c ∷ input) ≡ 0 → c ≡ b'='
unfolding text_length
text_length-zero c [] e = ground arith
text_length-zero c (d ∷ []) e = ground arith
text_length-zero c (d ∷ f ∷ r) e = ground arith

pub wrap_zero : (word : ℕ) → 2 ≤ word → (0 + word - 1) % word ≡ word - 1
wrap_zero word h = grind arith

pub wrap_pos : (word n : ℕ) → 0 < n → n < word → (n + word - 1) % word ≡ n - 1
wrap_pos word n h k = grind arith

-- Both reads of the padding are within the input.
ends_in_pad-pad_at :
    (word : ℕ) (input : Bytes) (n : ℕ)
    → 0 < n
    → n ≤ length input
    → length input < word
    → ends_in_pad word input n ≡ some (pad_at input n)
unfolding ends_in_pad
ends_in_pad-pad_at word input n h k fits =
    rw
      (ends_in_pad, wrap_pos word n h (omega arith), get_elem?-get_or input (n - 1) 0 (omega arith))
      refl

pub strip_length-text_length :
    (word c : ℕ) (input : Bytes)
    → length (c ∷ input) < word
    → strip_length word (c ∷ input) ≡ some (text_length (c ∷ input))
unfolding strip_length text_length
strip_length-text_length word c input fits =
    let n = length (c ∷ input) in
    let t : Bytes = c ∷ input in
    let first = ends_in_pad-pad_at word t n (omega arith) (omega arith) fits in
    let down = wrap_pos word n (omega arith) fits in
    elim (Bool-cases (pad_at t n)) [
      | inr e ↦ rw (first, e, strip_length, text_length) refl
      | inl e ↦ elim (Bool-cases (ltb 0 (n - 1))) [
        | inr z ↦ rw (first, e, down, z, strip_length, text_length) refl
        | inl z ↦
            let two = ltb→lt 0 (n - 1) z in
            rw
              (
                first,
                e,
                down,
                z,
                ends_in_pad-pad_at word t (n - 1) two (omega arith) fits,
                wrap_pos word (n - 1) two (omega arith),
                strip_length,
                text_length,
              )
              (ground arith)
      ]
    ]
