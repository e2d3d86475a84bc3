-- ===== src/Base64/Canonical.antt =====
-- What `Base64::decodeWithoutPadding` accepts.
use wasm_extensions.Prelude.{
  ℕ, ◌+◌, ◌*◌, ◌/◌, ◌%◌, ◌<◌, ◌≡◌, refl, sym, ap, ◌∙◌, Option, none, some, [], ◌∷◌, Bytes, IsBytes,
  arith, length, ◌>>=◌, ◌==◌, Bool, true, false, All-take, Option-cases, inl, inr,
}
use mathlib.Core.Option
use wasm_extensions.Base64.{char_at, encode, returned, decode_without_padding}
use wasm_extensions.Base64.Groups.{groups, char_at-reverse_lookup}
use wasm_extensions.Base64.Encode.{encode-groups}
use wasm_extensions.Base64.Ungroup.{digit, digit-lt, ungroup, keep_if}
use wasm_extensions.Base64.Padding.{text_length, unpadded}
use wasm_extensions.Base64.Safety.{decode-ungroup}

char_at-digit : (c v : ℕ) → c < 256 → digit c ≡ some v → char_at v ≡ c
unfolding digit
char_at-digit c v h e = ground (arith, char_at-reverse_lookup c h)

-- Where a bind on a digit succeeds, the character is the digit's.
use_digit {ℓ} :
    {P : Type ℓ} (c : ℕ) (k : ℕ → Option Bytes) (out : Bytes)
    → c < 256
    → (digit c >>= k) ≡ some out
    → ((v : ℕ) → v < 64 → char_at v ≡ c → k v ≡ some out → P)
    → P
use_digit c k out h e go = elim (Option-cases (digit c)) [
  | inl e' ↦ absurd (cc)
  | inr (v, e') ↦ go v (digit-lt c v h e') (char_at-digit c v h e') (rw e' at e)
]

keep_if-some : (b : Bool) (s out : Bytes) → keep_if b s ≡ some out → (b ≡ true) × (s ≡ out)
keep_if-some true s out e = ground arith
keep_if-some false s out e = cc

get_or-some :
    (o : Option Bytes) (b : ℕ) (out : Bytes) → Option.get_or o [] ≡ b ∷ out → o ≡ some (b ∷ out)
get_or-some none b out e = absurd (cc)
get_or-some (some s) b out e = ap some e

returned-injective : (s t : Bytes) → returned s ≡ returned t → s ≡ t
returned-injective s t e = ground arith

unpadded-IsBytes : (input : Bytes) → IsBytes input → IsBytes (unpadded input)
unfolding unpadded
unpadded-IsBytes input h = All-take _ (text_length input) input h

-- The groups of what was decoded, and its bytes.
abbrev Decodes : Bytes → Bytes → Type 0
Decodes t out = (groups false out ≡ t) × IsBytes out

module _ (a b : ℕ) (la : a < 64) (lb : b < 64) where
  two_digits :
      (out : Bytes)
      → keep_if (b % 16 == 0) ((a * 4 + b / 16) ∷ []) ≡ some out
      → Decodes (char_at a ∷ char_at b ∷ []) out
  unfolding groups
  two_digits out e =
      let kept = keep_if-some _ _ out e in rw (← kept.1) (ground (arith, kept.0), omega arith)

  module _ (c : ℕ) (lc : c < 64) where
    three_digits :
        (out : Bytes)
        → keep_if (c % 4 == 0) ((a * 4 + b / 16) ∷ (b % 16 * 16 + c / 4) ∷ []) ≡ some out
        → Decodes (char_at a ∷ char_at b ∷ char_at c ∷ []) out
    unfolding groups
    three_digits out e =
        let kept = keep_if-some _ _ out e in rw (← kept.1) (ground (arith, kept.0), omega arith)

    four_digits :
        (d : ℕ) (t rest : Bytes)
        → d < 64
        → Decodes t rest
        → Decodes
            (char_at a ∷ char_at b ∷ char_at c ∷ char_at d ∷ t)
            ((a * 4 + b / 16) ∷ (b % 16 * 16 + c / 4) ∷ (c % 4 * 64 + d) ∷ rest)
    unfolding groups
    four_digits d t rest ld h =
        (ground (arith, h.0), (omega arith, (omega arith, (omega arith, h.1))))

bind_rest :
    (o : Option Bytes) (k : Bytes → Bytes) (out : Bytes)
    → (do rest ← o; some (k rest)) ≡ some out
    → (rest : Bytes) × (o ≡ some rest) × (k rest ≡ out)
bind_rest none k out e = cc
bind_rest (some rest) k out e = (rest, refl, ground arith)

Decodes-nil : (out : Bytes) → some [] ≡ some out → Decodes [] out
unfolding groups
Decodes-nil [] e = (refl, tt)
Decodes-nil (x ∷ out) e = absurd (ground arith)

pub groups-ungroup : (t out : Bytes) → IsBytes t → ungroup t ≡ some out → Decodes t out
unfolding ungroup
groups-ungroup [] out h e = Decodes-nil out e
groups-ungroup (p ∷ []) out h e = absurd (cc)
groups-ungroup (p ∷ q ∷ []) out h e = use_digit p _ out h.0 e λ a la ea e₁.
    use_digit q _ out h.1.0 e₁ λ b lb eb e₂. rw (← ea, ← eb) (two_digits a b la lb out e₂)
groups-ungroup (p ∷ q ∷ r ∷ []) out h e = use_digit p _ out h.0 e λ a la ea e₁.
    use_digit q _ out h.1.0 e₁ λ b lb eb e₂.
      use_digit r _ out h.1.1.0 e₂
        λ c lc ec e₃. rw (← ea, ← eb, ← ec) (three_digits a b la lb c lc out e₃)
groups-ungroup (p ∷ q ∷ r ∷ s ∷ t) out h e = use_digit p _ out h.0 e λ a la ea e₁.
    use_digit q _ out h.1.0 e₁ λ b lb eb e₂. use_digit r _ out h.1.1.0 e₂ λ c lc ec e₃.
      use_digit s _ out h.1.1.1.0 e₃ λ d ld ed e₄.
        let (rest, er, eo) = bind_rest (ungroup t) _ out e₄ in
        rw (← ea, ← eb, ← ec, ← ed, ← eo)
          (four_digits a b la lb c lc d t rest ld (groups-ungroup t rest h.1.1.1.1 er))

-- Whatever `decodeWithoutPadding` decodes to a non-empty string is, without its padding, what
-- `encode` writes for that string without padding: no two texts decode alike but for the `=` at
-- their end, and the bits that a short last group leaves over are zero.
pub encode-decode :
    (word : ℕ) (input : Bytes) (b : ℕ) (out : Bytes)
    → IsBytes input
    → length input < word
    → decode_without_padding word input ≡ returned (b ∷ out)
    → encode (b ∷ out) false ≡ unpadded input
encode-decode word input b out h fits e =
    let decoded = groups-ungroup (unpadded input) (b ∷ out) (unpadded-IsBytes input h) (
      get_or-some (ungroup (unpadded input)) b out
        (returned-injective _ _ (sym (decode-ungroup word input h fits) ∙ e))) in
    encode-groups (b ∷ out) false decoded.1 ∙ decoded.0
