-- ===== src/Base64/Safety.antt =====
-- `Base64::decodeWithoutPadding` as a whole: its reads, its `ASSERT` and its result.
use wasm_extensions.Prelude.{
  ℕ, suc, ◌+◌, ◌-◌, ◌%◌, ◌<◌, ◌≡◌, refl, sym, ap, ◌⊎◌, zero, ◌∙◌, Option, none, some, inl, inr, [],
  ◌∷◌, ◌++◌, Bytes, IsBytes, arith, length, ◌>>=◌, ◌==◌, if◌then◌else◌, Bool, true, false, drop,
  take-append-drop, length-take_of_le, All-take,
}
use mathlib.Core.Option
use mathlib.Core.Path.{subst}
use wasm_extensions.Base64.{
  Decoded, returned, assertion_failed, decode_base, decode_loop, max_length, decode_without_padding,
  decode_body, reverse_lookup,
}
use wasm_extensions.Base64.Ungroup.{digit, ungroup, keep_if}
use wasm_extensions.Base64.Decode.{loop_step}
use wasm_extensions.Base64.Loop.{decode_loop-ungroup}
use wasm_extensions.Base64.Padding.{
  text_length, unpadded, text_length-le, text_length-zero, wrap_zero, wrap_pos,
  strip_length-text_length,
}

abbrev HasLength : ℕ → Option Bytes → Type 0
HasLength n none = Unit
HasLength n (some out) = length out ≡ n

keep_if-HasLength : (b : Bool) (n : ℕ) (out : Bytes) → length out ≡ n → HasLength n (keep_if b out)
keep_if-HasLength true n out h = h
keep_if-HasLength false n out h = tt

bind-HasLength :
    (n : ℕ) (o : Option ℕ) (k : ℕ → Option Bytes)
    → ((v : ℕ) → HasLength n (k v))
    → HasLength n (o >>= k)
bind-HasLength n none k h = tt
bind-HasLength n (some v) k h = h v

bind_rest-HasLength :
    (n m : ℕ) (o : Option Bytes) (a b c : ℕ)
    → HasLength m o
    → m + 3 ≡ n
    → HasLength n (do rest ← o; some (a ∷ b ∷ c ∷ rest))
bind_rest-HasLength n m none a b c h e = tt
bind_rest-HasLength n m (some rest) a b c h e = omega arith

max_length_four : (n : ℕ) → max_length n + 3 ≡ max_length (n + 4)
unfolding max_length
max_length_four n = ground arith

length-ungroup : (t : Bytes) → HasLength (max_length (length t)) (ungroup t)
unfolding ungroup max_length
length-ungroup [] = refl
length-ungroup (p ∷ []) = tt
length-ungroup (p ∷ q ∷ []) =
    bind-HasLength _ (digit p) _ λ a. bind-HasLength _ (digit q) _ λ b. keep_if-HasLength _ _ _ refl
length-ungroup (p ∷ q ∷ r ∷ []) = bind-HasLength _ (digit p) _ λ a.
    bind-HasLength _ (digit q) _ λ b. bind-HasLength _ (digit r) _ λ c. keep_if-HasLength _ _ _ refl
length-ungroup (p ∷ q ∷ r ∷ s ∷ t) = bind-HasLength _ (digit p) _ λ a.
    bind-HasLength _ (digit q) _ λ b. bind-HasLength _ (digit r) _ λ c.
      bind-HasLength _ (digit s) _ λ d.
        bind_rest-HasLength _ _ (ungroup t) _ _ _ (length-ungroup t) (
          max_length_four (length t)
          ∙ ap max_length {x = length t + 4} {y = suc (suc (suc (suc (length t))))} (omega arith))

-- The check of `ASSERT` passes on a result of the expected length.
asserted : ℕ → Option Bytes → Decoded
asserted n none = returned []
asserted n (some ret) = if length ret == max_length n then returned ret else assertion_failed

asserted-returned :
    (n : ℕ) (o : Option Bytes)
    → HasLength (max_length n) o
    → asserted n o ≡ returned (Option.get_or o [])
unfolding asserted
asserted-returned n none h = refl
asserted-returned n (some ret) h = ground arith

-- `decodeWithoutPadding`, once the loop's result is known.
body-asserted :
    (word c : ℕ) (input : Bytes) (o : Option Bytes)
    → length (c ∷ input) < word
    → decode_loop (c ∷ input) 0 ((text_length (c ∷ input) + word - 1) % word) [] ≡ some o
    → decode_without_padding word (c ∷ input) ≡ asserted (text_length (c ∷ input)) o
unfolding decode_without_padding decode_body asserted
body-asserted word c input none fits e =
    rw (strip_length-text_length word c input fits, decode_without_padding, decode_body, e)
body-asserted word c input (some ret) fits e =
    rw (strip_length-text_length word c input fits, decode_without_padding, decode_body, e)

pad_no_digit : (c i : ℕ) (ret : Bytes) → c ≡ b'=' → decode_base c i ret ≡ none
unfolding decode_base reverse_lookup
pad_no_digit c i ret e = rw e

map_nil : (o : Option Bytes) → Option.map (λ out. ◌++◌ {A = ℕ} [] out) o ≡ o
map_nil none = refl
map_nil (some out) = refl

decode_nil :
    (word : ℕ)
    → decode_without_padding word [] ≡ returned (Option.get_or (ungroup (unpadded [])) [])
unfolding decode_without_padding ungroup unpadded text_length
decode_nil word = refl

unpadded-zero :
    (c : ℕ) (input : Bytes)
    → text_length (c ∷ input) ≡ 0
    → returned (Option.get_or (ungroup (unpadded (c ∷ input))) []) ≡ returned []
unfolding ungroup unpadded
unpadded-zero c input e = rw e

zero_or_pos : (n : ℕ) → (n ≡ 0) ⊎ (0 < n)
zero_or_pos zero = inl refl
zero_or_pos (suc n) = inr (omega arith)

module _ (word c : ℕ) (input : Bytes) (h : IsBytes (c ∷ input))
    (fits : length (c ∷ input) < word) where
  abbrev n : ℕ
  n = text_length (c ∷ input)

  decode_pad : n ≡ 0 → decode_without_padding word (c ∷ input) ≡ returned []
  unfolding asserted
  decode_pad e = body-asserted word c input none fits (
      loop_step c input 0 ((n + word - 1) % word) []
        (rw e (omega (arith, wrap_zero word (omega arith))))
      ∙ rw (pad_no_digit c 0 [] (text_length-zero c input e)))

  decode_text :
      0 < n
      → decode_without_padding word (c ∷ input)
        ≡ returned (Option.get_or (ungroup (unpadded (c ∷ input))) [])
  unfolding unpadded
  decode_text e =
      let t = unpadded (c ∷ input) in
      let le = text_length-le c input in
      let whole : length t ≡ n = length-take_of_le n (c ∷ input) le in
      body-asserted word c input (ungroup t) fits (
        rw (take-append-drop n (c ∷ input), map_nil (ungroup t)) at
          (decode_loop-ungroup t (drop n (c ∷ input)) 0 ((n + word - 1) % word) []
            (All-take _ n (c ∷ input) h) refl
            (omega (arith, whole, wrap_pos word n e (omega arith))) (omega (arith, whole))))
      ∙ asserted-returned n (ungroup t)
          (subst (λ m. HasLength (max_length m) (ungroup t)) whole (length-ungroup t))

-- For every byte string shorter than `size_t` can count, `decodeWithoutPadding` returns: it reads
-- within its input and its `ASSERT` holds. What it returns is the decoding by groups of the text in
-- front of at most two `=`, and the empty string where that decoding fails.
pub decode-ungroup :
    (word : ℕ) (input : Bytes)
    → IsBytes input
    → length input < word
    → decode_without_padding word input ≡ returned (Option.get_or (ungroup (unpadded input)) [])
decode-ungroup word [] h fits = decode_nil word
decode-ungroup word (c ∷ input) h fits = elim (zero_or_pos (text_length (c ∷ input))) [
  | inl e ↦ decode_pad word c input h fits e ∙ sym (unpadded-zero c input e)
  | inr e ↦ decode_text word c input h fits e
]
