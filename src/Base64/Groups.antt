-- ===== src/Base64/Groups.antt =====
-- Base64 by the groups of RFC 4648, three bytes to four digits, and the arithmetic of the bit
-- operations that extensions/common/wasm/base64.h applies to bytes and digits.
use wasm_extensions.Prelude.{
  ℕ, ◌+◌, ◌-◌, ◌*◌, ◌/◌, ◌%◌, ◌<◌, ◌≡◌, refl, ◌≢◌, Bool, true, ◌^◌, ◌≤◌, leb, leb→le, [], ◌∷◌,
  if◌then◌else◌, ◌==◌, ==_iff, Bytes, arith, holds_below, test_holds, bit_and, bit_or,
}
use wasm_extensions.Base64.{char_at, reverse_lookup}

-- The digits of a byte string, with the padding or without it.
unfoldable pub groups : Bool → Bytes → Bytes
groups pad [] = []
groups pad (a ∷ []) =
    char_at (a / 4) ∷ char_at (a % 4 * 16) ∷ (if pad then b'=' ∷ b'=' ∷ [] else [])
groups pad (a ∷ b ∷ []) =
    char_at (a / 4)
    ∷ char_at (a % 4 * 16 + b / 16)
    ∷ char_at (b % 16 * 4)
    ∷ (if pad then b'=' ∷ [] else [])
groups pad (a ∷ b ∷ c ∷ r) =
    char_at (a / 4)
    ∷ char_at (a % 4 * 16 + b / 16)
    ∷ char_at (b % 16 * 4 + c / 64)
    ∷ char_at (c % 64)
    ∷ groups pad r

char_table_inverse : holds_below 64 (λ v. reverse_lookup (char_at v) == v) ≡ true
unfolding holds_below reverse_lookup char_at
char_table_inverse = refl

pub reverse_lookup-char_at : (v : ℕ) → v < 64 → reverse_lookup (char_at v) ≡ v
reverse_lookup-char_at v h = (==_iff _ v).0 (test_holds 64 _ v char_table_inverse h)

reverse_table_inverse :
    holds_below 256 (λ c. if reverse_lookup c == 64 then true else char_at (reverse_lookup c) == c)
    ≡ true
unfolding holds_below reverse_lookup char_at
reverse_table_inverse = refl

pub char_at-reverse_lookup :
    (c : ℕ) → c < 256 → reverse_lookup c ≢ 64 → char_at (reverse_lookup c) ≡ c
char_at-reverse_lookup c h k = ground (arith, test_holds 256 _ c reverse_table_inverse h)

reverse_table_range : holds_below 256 (λ c. leb (reverse_lookup c) 64) ≡ true
unfolding holds_below reverse_lookup char_at
reverse_table_range = refl

pub reverse_lookup-le : (c : ℕ) → c < 256 → reverse_lookup c ≤ 64
reverse_lookup-le c h = leb→le _ 64 (test_holds 256 _ c reverse_table_range h)

-- `hi << k | lo` is a sum where `lo` has at most `k` bits: over a byte, by evaluation.
abbrev joins : ℕ → Bool
joins k = holds_below 256 (λ x. bit_or (x / 2 ^ k * 2 ^ k) (x % 2 ^ k) == x)

-- `c & (2^k - 1)` is a remainder.
abbrev masks : ℕ → Bool
masks k = holds_below 256 (λ c. bit_and c (2 ^ k - 1) == c % 2 ^ k)

tables_hold : (joins 2 ≡ true) × (joins 4 ≡ true) × (joins 6 ≡ true)
unfolding holds_below
tables_hold = (refl, refl, refl)

masks_hold : (masks 2 ≡ true) × (masks 4 ≡ true) × (masks 6 ≡ true)
unfolding holds_below
masks_hold = (refl, refl, refl)

join-eq-add :
    (k x hi lo : ℕ)
    → joins k ≡ true
    → x < 256
    → x / 2 ^ k ≡ hi
    → x % 2 ^ k ≡ lo
    → bit_or (hi * 2 ^ k) lo ≡ x
join-eq-add k x hi lo t b p q = rw (← p, ← q) ((==_iff _ x).0 (test_holds 256 _ x t b))

module _ (hi lo : ℕ) where
  pub join2 : hi < 64 → lo < 4 → bit_or (hi * 4) lo ≡ hi * 4 + lo
  join2 h k =
      join-eq-add 2 (hi * 4 + lo) hi lo tables_hold.0 (omega arith) (omega arith) (omega arith)

  pub join4 : hi < 16 → lo < 16 → bit_or (hi * 16) lo ≡ hi * 16 + lo
  join4 h k =
      join-eq-add 4 (hi * 16 + lo) hi lo tables_hold.1 (omega arith) (omega arith) (omega arith)

  pub join6 : hi < 4 → lo < 64 → bit_or (hi * 64) lo ≡ hi * 64 + lo
  join6 h k =
      join-eq-add 6 (hi * 64 + lo) hi lo tables_hold.2 (omega arith) (omega arith) (omega arith)

module _ (c : ℕ) (h : c < 256) where
  pub mask2 : bit_and c 3 ≡ c % 4
  mask2 = (==_iff _ _).0 (test_holds 256 _ c masks_hold.0 h)

  pub mask4 : bit_and c 15 ≡ c % 16
  mask4 = (==_iff _ _).0 (test_holds 256 _ c masks_hold.1 h)

  pub mask6 : bit_and c 63 ≡ c % 64
  mask6 = (==_iff _ _).0 (test_holds 256 _ c masks_hold.2 h)
