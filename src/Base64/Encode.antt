-- ===== src/Base64/Encode.antt =====
-- The loop of `Base64::encode` against the groups of RFC 4648.
use wasm_extensions.Prelude.{
  ℕ, ◌+◌, ◌*◌, ◌/◌, ◌%◌, ◌<◌, ◌≡◌, refl, sym, ◌∙◌, Bool, [], ◌∷◌, ◌++◌, append-nil, append_assoc,
  Bytes, IsBytes, arith, if◌then◌else◌,
}
use wasm_extensions.Base64.{char_at, encode_base, encode_last, encode_loop, encode}
use wasm_extensions.Base64.Groups.{groups, join2, join4, mask2, mask4, mask6}

module _ (c : ℕ) (b : c < 256) where
  first_digit :
      (pos next_c : ℕ) (ret : Bytes)
      → pos % 3 ≡ 0
      → encode_base c pos next_c ret ≡ (c % 4 * 16, ret ++ char_at (c / 4) ∷ [])
  unfolding encode_base
  first_digit pos next_c ret p = ground (arith, mask2 c b)

  second_digit :
      (pos hi : ℕ) (ret : Bytes)
      → pos % 3 ≡ 1
      → hi < 4
      → encode_base c pos (hi * 16) ret ≡ (c % 16 * 4, ret ++ char_at (hi * 16 + c / 16) ∷ [])
  unfolding encode_base
  second_digit pos hi ret p h = ground (arith, mask4 c b, join4 hi (c / 16))

  third_digits :
      (pos hi : ℕ) (ret : Bytes)
      → pos % 3 ≡ 2
      → hi < 16
      → encode_base c pos (hi * 4) ret
        ≡ (0, ret ++ char_at (hi * 4 + c / 64) ∷ char_at (c % 64) ∷ [])
  unfolding encode_base
  third_digits pos hi ret p h = ground (arith, mask6 c b, join2 hi (c / 64))

module _ (pos d : ℕ) (ret : Bytes) (pad : Bool) where
  last_none : pos % 3 ≡ 0 → encode_last pos d ret pad ≡ ret
  unfolding encode_last
  last_none p = ground arith

  last_one :
      pos % 3 ≡ 1
      → encode_last pos d ret pad ≡ ret ++ char_at d ∷ (if pad then b'=' ∷ b'=' ∷ [] else [])
  unfolding encode_last
  last_one p = ground arith

  last_two :
      pos % 3 ≡ 2 → encode_last pos d ret pad ≡ ret ++ char_at d ∷ (if pad then b'=' ∷ [] else [])
  unfolding encode_last
  last_two p = ground arith

encode_loop-groups :
    (pad : Bool) (s : Bytes) (pos : ℕ) (ret : Bytes)
    → IsBytes s
    → pos % 3 ≡ 0
    → encode_loop pad s pos 0 ret ≡ ret ++ groups pad s
unfolding encode_loop groups
encode_loop-groups pad [] pos ret h p = last_none pos 0 ret pad p ∙ sym (append-nil ret)
encode_loop-groups pad (a ∷ []) pos ret h p =
    rw (first_digit a h.0 pos 0 ret p, last_one (pos + 1) _ _ pad (omega arith))
      (append_assoc ret _ _)
encode_loop-groups pad (a ∷ b ∷ []) pos ret h p =
    rw
      (
        first_digit a h.0 pos 0 ret p,
        second_digit b h.1.0 (pos + 1) (a % 4) _ (omega arith) (omega arith),
        last_two (pos + 1 + 1) _ _ pad (omega arith),
      )
      (simp append_assoc)
encode_loop-groups pad (a ∷ b ∷ c ∷ r) pos ret h p =
    rw
      (
        first_digit a h.0 pos 0 ret p,
        second_digit b h.1.0 (pos + 1) (a % 4) _ (omega arith) (omega arith),
        third_digits c h.1.1.0 (pos + 1 + 1) (b % 16) _ (omega arith) (omega arith),
        encode_loop-groups pad r (pos + 1 + 1 + 1) _ h.1.1.1 (omega arith),
      )
      (simp append_assoc)

-- On bytes, `encode` writes the groups of RFC 4648: four digits for three bytes, and a shorter last
-- group, filled up with `=` if padding is asked for.
pub encode-groups : (s : Bytes) (pad : Bool) → IsBytes s → encode s pad ≡ groups pad s
unfolding encode
encode-groups s pad h = encode_loop-groups pad s 0 [] h refl
