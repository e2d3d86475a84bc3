-- ===== src/Base64/Ungroup.antt =====
-- The decoding of unpadded base64 by the groups of RFC 4648, with the bits that a short last group
-- leaves over required to be zero.
use wasm_extensions.Prelude.{
  ℕ, ◌+◌, ◌*◌, ◌/◌, ◌%◌, ◌<◌, ◌≡◌, Option, none, some, [], ◌∷◌, if◌then◌else◌, ◌==◌, ◌>>=◌, Bool,
  true, false, Bytes, arith,
}
use wasm_extensions.Base64.{reverse_lookup}
use wasm_extensions.Base64.Groups.{reverse_lookup-le}

-- The value of a digit; `none` for any other character.
unfoldable pub digit : ℕ → Option ℕ
digit c = let v = reverse_lookup c in if v == 64 then none else some v

pub digit-lt : (c v : ℕ) → c < 256 → digit c ≡ some v → v < 64
unfolding digit
digit-lt c v h e = ground (arith, reverse_lookup-le c h)

abbrev pub keep_if {ℓ} : {A : Type ℓ} → Bool → A → Option A
keep_if true a = some a
keep_if false a = none

unfoldable pub ungroup : Bytes → Option Bytes
ungroup [] = some []
ungroup (p ∷ []) = none
ungroup (p ∷ q ∷ []) = do a ← digit p; b ← digit q; keep_if (b % 16 == 0) ((a * 4 + b / 16) ∷ [])
ungroup (p ∷ q ∷ r ∷ []) = do
  a ← digit p
  b ← digit q
  c ← digit r
  keep_if (c % 4 == 0) ((a * 4 + b / 16) ∷ (b % 16 * 16 + c / 4) ∷ [])
ungroup (p ∷ q ∷ r ∷ s ∷ t) = do
  a ← digit p
  b ← digit q
  c ← digit r
  d ← digit s
  rest ← ungroup t
  some ((a * 4 + b / 16) ∷ (b % 16 * 16 + c / 4) ∷ (c % 4 * 64 + d) ∷ rest)
