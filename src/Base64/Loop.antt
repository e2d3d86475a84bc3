-- ===== src/Base64/Loop.antt =====
-- The whole loop of the decoder, over the text in front of the padding.
use wasm_extensions.Prelude.{
  ℕ, ◌+◌, ◌%◌, ◌<◌, ◌≡◌, refl, ◌∙◌, Option, none, some, inl, inr, [], ◌∷◌, ◌++◌, append_assoc,
  Bytes, IsBytes, arith, length, Option-cases, ◌>>=◌, Bool, true, false,
}
use mathlib.Core.Option
use wasm_extensions.Base64.{decode_base, decode_loop}
use wasm_extensions.Base64.Ungroup.{digit, digit-lt, ungroup, keep_if}
use wasm_extensions.Base64.Decode.{
  base0, base1, base2, base3, last0, last1, last2, last3, loop_step, loop_end,
}

abbrev under : Bytes → Option Bytes → Option (Option Bytes)
under ret o = some (Option.map (λ out. ret ++ out) o)

-- One round below `last`: the goal at the head follows from the goal at the tail for each value
-- of the digit.
round :
    (c : ℕ) (rest : Bytes) (i last : ℕ) (ret ret₀ : Bytes) (f : ℕ → Bytes) (k : ℕ → Option Bytes)
    → c < 256
    → i < last
    → decode_base c i ret ≡ Option.map f (digit c)
    → ((v : ℕ) → v < 64 → decode_loop rest (i + 1) last (f v) ≡ under ret₀ (k v))
    → decode_loop (c ∷ rest) i last ret ≡ under ret₀ (digit c >>= k)
round c rest i last ret ret₀ f k h before base next = elim (Option-cases (digit c)) [
  | inl e ↦ rw (loop_step c rest i last ret before, base, e)
  | inr (v, e) ↦ rw (loop_step c rest i last ret before, base, e) (next v (digit-lt c v h e))
]

-- The last digit of a short group, with no bits left over.
close :
    (ret₀ : Bytes) (o : Option ℕ) (keep : ℕ → Bool) (f g : ℕ → Bytes)
    → ((v : ℕ) → g v ≡ ret₀ ++ f v)
    → some (do v ← o; keep_if (keep v) (g v)) ≡ under ret₀ (do v ← o; keep_if (keep v) (f v))
close ret₀ none keep f g e = refl
close ret₀ (some v) keep f g e = rw (e v) (keep-map (keep v))
  where
    keep-map : (b : Bool) → some (keep_if b (ret₀ ++ f v)) ≡ under ret₀ (keep_if b (f v))
    keep-map true = refl
    keep-map false = refl

-- Three bytes written one by one.
append_three :
    (ret : Bytes) (a b c : ℕ) (out : Bytes)
    → ((ret ++ a ∷ []) ++ b ∷ []) ++ c ∷ out ≡ ret ++ a ∷ b ∷ c ∷ out
append_three ret a b c out = simp append_assoc

-- The last digit of a whole group.
close_whole :
    (ret : Bytes) (a b : ℕ) (o : Option ℕ) (f : ℕ → ℕ)
    → some (Option.map (λ v. ((ret ++ a ∷ []) ++ b ∷ []) ++ f v ∷ []) o)
      ≡ under ret (do d ← o; some (a ∷ b ∷ f d ∷ []))
close_whole ret a b none f = refl
close_whole ret a b (some v) f = rw append_three

-- After a whole group, the output of the rest is behind its three bytes.
under-under :
    (ret : Bytes) (a b c : ℕ) (o : Option Bytes)
    → under (((ret ++ a ∷ []) ++ b ∷ []) ++ c ∷ []) o
      ≡ under ret (do rest ← o; some (a ∷ b ∷ c ∷ rest))
under-under ret a b c none = refl
under-under ret a b c (some out) = rw (append_assoc, append_three)

pub decode_loop-ungroup :
    (t tail : Bytes) (i last : ℕ) (ret : Bytes)
    → IsBytes t
    → i % 4 ≡ 0
    → i + length t ≡ last + 1
    → 0 < length t
    → decode_loop (t ++ tail) i last ret ≡ some (Option.map (λ out. ret ++ out) (ungroup t))
unfolding ungroup
decode_loop-ungroup [] tail i last ret h p n z = absurd (omega arith)
decode_loop-ungroup (p ∷ []) tail i last ret h m n z =
    rw (loop_end p tail i last ret (omega arith), last0 p h.0 i ret m)
decode_loop-ungroup (p ∷ q ∷ []) tail i last ret h m n z =
    round p (q ∷ tail) i last ret ret _ _ h.0 (omega arith) (base0 p h.0 i ret m) λ a la.
      rw
        (loop_end q tail (i + 1) last _ (omega arith), last1 q h.1.0 (i + 1) ret a la (omega arith))
        (close ret (digit q) _ _ _ (λ v. refl))
decode_loop-ungroup (p ∷ q ∷ r ∷ []) tail i last ret h m n z =
    round p (q ∷ r ∷ tail) i last ret ret _ _ h.0 (omega arith) (base0 p h.0 i ret m) λ a la.
      round q (r ∷ tail) (i + 1) last _ ret _ _ h.1.0 (omega arith)
        (base1 q h.1.0 (i + 1) ret a la (omega arith))
        λ b lb.
          rw
            (
              loop_end r tail (i + 1 + 1) last _ (omega arith),
              last2 r h.1.1.0 (i + 1 + 1) _ (b % 16) (omega arith) (omega arith),
            )
            (close ret (digit r) _ _ _ (λ v. append_assoc ret _ _))
decode_loop-ungroup (p ∷ q ∷ r ∷ s ∷ []) tail i last ret h m n z =
    round p (q ∷ r ∷ s ∷ tail) i last ret ret _ _ h.0 (omega arith) (base0 p h.0 i ret m) λ a la.
      round q (r ∷ s ∷ tail) (i + 1) last _ ret _ _ h.1.0 (omega arith)
        (base1 q h.1.0 (i + 1) ret a la (omega arith))
        λ b lb.
          round r (s ∷ tail) (i + 1 + 1) last _ ret _ _ h.1.1.0 (omega arith)
            (base2 r h.1.1.0 (i + 1 + 1) _ (b % 16) (omega arith) (omega arith))
            λ c lc.
              rw
                (
                  loop_end s tail (i + 1 + 1 + 1) last _ (omega arith),
                  last3 s h.1.1.1.0 (i + 1 + 1 + 1) _ (c % 4) (omega arith) (omega arith),
                )
                (close_whole ret _ _ (digit s) _)
decode_loop-ungroup (p ∷ q ∷ r ∷ s ∷ x ∷ t) tail i last ret h m n z =
    round p (q ∷ r ∷ s ∷ x ∷ t ++ tail) i last ret ret _ _ h.0 (omega arith) (base0 p h.0 i ret m)
      λ a la.
        round q (r ∷ s ∷ x ∷ t ++ tail) (i + 1) last _ ret _ _ h.1.0 (omega arith)
          (base1 q h.1.0 (i + 1) ret a la (omega arith))
          λ b lb.
            round r (s ∷ x ∷ t ++ tail) (i + 1 + 1) last _ ret _ _ h.1.1.0 (omega arith)
              (base2 r h.1.1.0 (i + 1 + 1) _ (b % 16) (omega arith) (omega arith))
              λ c lc.
                round s (x ∷ t ++ tail) (i + 1 + 1 + 1) last _ ret _ _ h.1.1.1.0 (omega arith)
                  (base3 s h.1.1.1.0 (i + 1 + 1 + 1) _ (c % 4) (omega arith) (omega arith))
                  λ d ld.
                    (decode_loop-ungroup (x ∷ t) tail (i + 1 + 1 + 1 + 1) last _ h.1.1.1.1
                      (omega arith) (omega arith) (omega arith))
                    ∙ under-under ret _ _ _ (ungroup (x ∷ t))
