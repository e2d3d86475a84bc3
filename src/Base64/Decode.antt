-- ===== src/Base64/Decode.antt =====
-- The loop of `Base64::decodeWithoutPadding` against the decoding by groups.
use wasm_extensions.Prelude.{
  ℕ, ◌+◌, ◌*◌, ◌/◌, ◌%◌, ◌<◌, ◌≡◌, refl, ap, none, some, [], ◌∷◌, ◌++◌, Bytes, arith, to_byte,
  bit_or, ◌>>=◌, not-ltb, lt→ltb, ◌==◌,
}
use mathlib.Core.Option
use wasm_extensions.Base64.{reverse_lookup, or_back, decode_base, decode_last, decode_loop}
use wasm_extensions.Base64.Groups.{join2, join4, join6, mask2, mask4, reverse_lookup-le}
use wasm_extensions.Base64.Ungroup.{digit, keep_if}

or_back-append :
    (ret : Bytes) (x v : ℕ) → or_back (ret ++ x ∷ []) v ≡ ret ++ to_byte (bit_or x v) ∷ []
unfolding or_back
or_back-append [] x v = refl
or_back-append (y ∷ []) x v = refl
or_back-append (y ∷ z ∷ r) x v = ap (◌∷◌ y) (or_back-append (z ∷ r) x v)

module _ (c : ℕ) (b : c < 256) (i : ℕ) (ret : Bytes) where
  pub base0 : i % 4 ≡ 0 → decode_base c i ret ≡ Option.map (λ v. ret ++ (v * 4) ∷ []) (digit c)
  unfolding decode_base digit
  base0 p = ground (arith, reverse_lookup-le c b)

  pub base1 :
      (x : ℕ)
      → x < 64
      → i % 4 ≡ 1
      → decode_base c i (ret ++ (x * 4) ∷ [])
        ≡ Option.map (λ v. (ret ++ (x * 4 + v / 16) ∷ []) ++ (v % 16 * 16) ∷ []) (digit c)
  unfolding decode_base digit
  base1 x h p =
      let v = reverse_lookup c in
      ground (arith, reverse_lookup-le c b, or_back-append ret (x * 4) (v / 16), join2 x (v / 16))

  pub base2 :
      (x : ℕ)
      → x < 16
      → i % 4 ≡ 2
      → decode_base c i (ret ++ (x * 16) ∷ [])
        ≡ Option.map (λ v. (ret ++ (x * 16 + v / 4) ∷ []) ++ (v % 4 * 64) ∷ []) (digit c)
  unfolding decode_base digit
  base2 x h p =
      let v = reverse_lookup c in
      ground (arith, reverse_lookup-le c b, or_back-append ret (x * 16) (v / 4), join4 x (v / 4))

  pub base3 :
      (x : ℕ)
      → x < 4
      → i % 4 ≡ 3
      → decode_base c i (ret ++ (x * 64) ∷ [])
        ≡ Option.map (λ v. ret ++ (x * 64 + v) ∷ []) (digit c)
  unfolding decode_base digit
  base3 x h p =
      let v = reverse_lookup c in
      ground (arith, reverse_lookup-le c b, or_back-append ret (x * 64) v, join6 x v)

  pub last0 : i % 4 ≡ 0 → decode_last c i ret ≡ none
  unfolding decode_last
  last0 p = ground arith

  pub last1 :
      (x : ℕ)
      → x < 64
      → i % 4 ≡ 1
      → decode_last c i (ret ++ (x * 4) ∷ [])
        ≡ (do v ← digit c; keep_if (v % 16 == 0) (ret ++ (x * 4 + v / 16) ∷ []))
  unfolding decode_last digit
  last1 x h p =
      let v = reverse_lookup c in
      ground (
        arith,
        reverse_lookup-le c b,
        mask4 v (omega (arith, reverse_lookup-le c b)),
        or_back-append ret (x * 4) (v / 16),
        join2 x (v / 16),
      )

  pub last2 :
      (x : ℕ)
      → x < 16
      → i % 4 ≡ 2
      → decode_last c i (ret ++ (x * 16) ∷ [])
        ≡ (do v ← digit c; keep_if (v % 4 == 0) (ret ++ (x * 16 + v / 4) ∷ []))
  unfolding decode_last digit
  last2 x h p =
      let v = reverse_lookup c in
      ground (
        arith,
        reverse_lookup-le c b,
        mask2 v (omega (arith, reverse_lookup-le c b)),
        or_back-append ret (x * 16) (v / 4),
        join4 x (v / 4),
      )

  pub last3 :
      (x : ℕ)
      → x < 4
      → i % 4 ≡ 3
      → decode_last c i (ret ++ (x * 64) ∷ [])
        ≡ Option.map (λ v. ret ++ (x * 64 + v) ∷ []) (digit c)
  unfolding decode_last digit
  last3 x h p =
      let v = reverse_lookup c in
      ground (arith, reverse_lookup-le c b, or_back-append ret (x * 64) v, join6 x v)

-- A step of the loop below `last`, and its end.
pub loop_step :
    (c : ℕ) (rest : Bytes) (i last : ℕ) (ret : Bytes)
    → i < last
    → decode_loop (c ∷ rest) i last ret ≡ elim (decode_base c i ret) [
      | none ↦ some none
      | some ret' ↦ decode_loop rest (i + 1) last ret'
    ]
unfolding decode_loop
loop_step c rest i last ret h = rw (lt→ltb i last h)

pub loop_end :
    (c : ℕ) (rest : Bytes) (i last : ℕ) (ret : Bytes)
    → i ≡ last
    → decode_loop (c ∷ rest) i last ret ≡ some (decode_last c i ret)
unfolding decode_loop
loop_end c rest i last ret h = rw (not-ltb i last (omega arith))
