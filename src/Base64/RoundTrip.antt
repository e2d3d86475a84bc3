-- ===== src/Base64/RoundTrip.antt =====
-- Decoding what the encoder wrote.
use wasm_extensions.Prelude.{
  ℕ, zero, suc, ◌+◌, ◌-◌, ◌*◌, ◌/◌, ◌%◌, ◌<◌, ◌≡◌, ◌≢◌, refl, ap, ◌∙◌, some, [], ◌∷◌, ◌++◌, ltb,
  ltb→lt, Bytes, IsBytes, arith, length, if◌then◌else◌, Bool, true, false, All, All-append,
  take_append, get_or, get_or_append, holds_below, test_holds, append-nil, length-append,
}
use wasm_extensions.Base64.{char_at, encode, returned, decode_without_padding, reverse_lookup}
use wasm_extensions.Base64.Groups.{groups, reverse_lookup-char_at}
use wasm_extensions.Base64.Encode.{encode-groups}
use wasm_extensions.Base64.Ungroup.{digit, ungroup}
use wasm_extensions.Base64.Padding.{text_length, unpadded}
use wasm_extensions.Base64.Safety.{decode-ungroup}

digit-char_at : (v : ℕ) → v < 64 → digit (char_at v) ≡ some v
unfolding digit
digit-char_at v h = ground (arith, reverse_lookup-char_at v h)

pub ungroup-groups : (s : Bytes) → IsBytes s → ungroup (groups false s) ≡ some s
unfolding ungroup groups
ungroup-groups [] h = refl
ungroup-groups (a ∷ []) h =
    rw (digit-char_at (a / 4) (omega arith), digit-char_at (a % 4 * 16) (omega arith))
      (ground arith)
ungroup-groups (a ∷ b ∷ []) h =
    rw
      (
        digit-char_at (a / 4) (omega arith),
        digit-char_at (a % 4 * 16 + b / 16) (omega arith),
        digit-char_at (b % 16 * 4) (omega arith),
      )
      (ground arith)
ungroup-groups (a ∷ b ∷ c ∷ r) h =
    rw
      (
        digit-char_at (a / 4) (omega arith),
        digit-char_at (a % 4 * 16 + b / 16) (omega arith),
        digit-char_at (b % 16 * 4 + c / 64) (omega arith),
        digit-char_at (c % 64) (omega arith),
        ungroup-groups r h.1.1.1,
      )
      (ground arith)

-- A digit is a byte other than `=`.
abbrev IsDigit : ℕ → Type 0
IsDigit c = (c < 256) × (c ≢ b'=')

char_table_bytes : holds_below 64 (λ v. ltb (char_at v) 256) ≡ true
unfolding holds_below char_at
char_table_bytes = refl

reverse_lookup-pad : reverse_lookup b'=' ≡ 64
unfolding reverse_lookup
reverse_lookup-pad = refl

char_at-IsDigit : (v : ℕ) → v < 64 → IsDigit (char_at v)
char_at-IsDigit v h = (
  ltb→lt _ _ (test_holds 64 _ v char_table_bytes h),
  λ e. omega (arith, reverse_lookup-char_at v h, ap reverse_lookup e, reverse_lookup-pad),
)

groups-IsDigit : (s : Bytes) → IsBytes s → All IsDigit (groups false s)
unfolding groups
groups-IsDigit [] h = tt
groups-IsDigit (a ∷ []) h = (char_at-IsDigit _ (omega arith), (char_at-IsDigit _ (omega arith), tt))
groups-IsDigit (a ∷ b ∷ []) h = (
  char_at-IsDigit _ (omega arith),
  (char_at-IsDigit _ (omega arith), (char_at-IsDigit _ (omega arith), tt)),
)
groups-IsDigit (a ∷ b ∷ c ∷ r) h = (
  char_at-IsDigit _ (omega arith),
  (
    char_at-IsDigit _ (omega arith),
    (char_at-IsDigit _ (omega arith), (char_at-IsDigit _ (omega arith), groups-IsDigit r h.1.1.1)),
  ),
)

-- The `=` characters that fill up the last group.
padding : Bool → Bytes → Bytes
padding pad [] = []
padding pad (a ∷ []) = if pad then b'=' ∷ b'=' ∷ [] else []
padding pad (a ∷ b ∷ []) = if pad then b'=' ∷ [] else []
padding pad (a ∷ b ∷ c ∷ r) = padding pad r

groups-padding : (pad : Bool) (s : Bytes) → groups pad s ≡ groups false s ++ padding pad s
unfolding groups padding
groups-padding pad [] = refl
groups-padding pad (a ∷ []) = refl
groups-padding pad (a ∷ b ∷ []) = refl
groups-padding pad (a ∷ b ∷ c ∷ r) = rw (groups-padding pad r)

data IsPadding : Bytes → Type 0 where
  pad_none : IsPadding []
  pad_one : IsPadding (b'=' ∷ [])
  pad_two : IsPadding (b'=' ∷ b'=' ∷ [])

padding-IsPadding : (pad : Bool) (s : Bytes) → IsPadding (padding pad s)
unfolding padding
padding-IsPadding pad [] = pad_none
padding-IsPadding true (a ∷ []) = pad_two
padding-IsPadding false (a ∷ []) = pad_none
padding-IsPadding true (a ∷ b ∷ []) = pad_one
padding-IsPadding false (a ∷ b ∷ []) = pad_none
padding-IsPadding pad (a ∷ b ∷ c ∷ r) = padding-IsPadding pad r

get_or-IsDigit : (t : Bytes) (k : ℕ) → All IsDigit t → get_or t k 0 ≢ b'='
get_or-IsDigit [] k h e = omega arith
get_or-IsDigit (x ∷ t) zero h e = h.0.1 e
get_or-IsDigit (x ∷ t) (suc k) h e = get_or-IsDigit t k h.1 e

get_or_append_left : (t p : Bytes) (k : ℕ) → k < length t → get_or (t ++ p) k 0 ≡ get_or t k 0
get_or_append_left [] p k h = absurd (omega arith)
get_or_append_left (x ∷ t) p zero h = refl
get_or_append_left (x ∷ t) p (suc k) h = get_or_append_left t p k (omega arith)

-- The byte at an index that is known as a distance from the digits' end.
byte_at : (t p : Bytes) (i k : ℕ) → i ≡ length t + k → get_or (t ++ p) i 0 ≡ get_or p k 0
byte_at t p i k e = rw e (get_or_append t p k 0)

digit_at : (t p : Bytes) (i : ℕ) → All IsDigit t → i < length t → get_or (t ++ p) i 0 ≢ b'='
digit_at t p i h lt = rw (get_or_append_left t p i lt) (get_or-IsDigit t i h)

module _ (t : Bytes) (h : All IsDigit t) where
  text_length-append : (p : Bytes) → IsPadding p → text_length (t ++ p) ≡ length t
  unfolding text_length
  text_length-append p pad_none =
      rw (append-nil t) (ground (arith, get_or-IsDigit t (length t - 1) h))
  text_length-append p pad_one =
      let n = length (t ++ b'=' ∷ []) in
      let e : n ≡ length t + 1 = length-append t (b'=' ∷ []) in
      ground (
        arith,
        e,
        byte_at t (b'=' ∷ []) (n - 1) 0 (omega arith),
        digit_at t (b'=' ∷ []) (n - 1 - 1) h,
      )
  text_length-append p pad_two =
      let n = length (t ++ b'=' ∷ b'=' ∷ []) in
      let e : n ≡ length t + 2 = length-append t (b'=' ∷ b'=' ∷ []) in
      ground (
        arith,
        e,
        byte_at t (b'=' ∷ b'=' ∷ []) (n - 1) 1 (omega arith),
        byte_at t (b'=' ∷ b'=' ∷ []) (n - 1 - 1) 0 (omega arith),
      )

pub unpadded-groups :
    (pad : Bool) (s : Bytes) → IsBytes s → unpadded (groups pad s) ≡ groups false s
unfolding unpadded
unpadded-groups pad s h =
    let t = groups false s in
    rw
      (
        groups-padding pad s,
        text_length-append t (groups-IsDigit s h) (padding pad s) (padding-IsPadding pad s),
      )
      (take_append t (padding pad s))

IsPadding-IsBytes : {p : Bytes} → IsPadding p → IsBytes p
IsPadding-IsBytes pad_none = tt
IsPadding-IsBytes pad_one = omega arith
IsPadding-IsBytes pad_two = omega arith

IsDigit-IsBytes : (t : Bytes) → All IsDigit t → IsBytes t
IsDigit-IsBytes [] h = tt
IsDigit-IsBytes (x ∷ t) h = (h.0.0, IsDigit-IsBytes t h.1)

groups-IsBytes : (pad : Bool) (s : Bytes) → IsBytes s → IsBytes (groups pad s)
groups-IsBytes pad s h = rw (groups-padding pad s) (
    All-append _ (groups false s) (padding pad s)
      (IsDigit-IsBytes (groups false s) (groups-IsDigit s h))
      (IsPadding-IsBytes (padding-IsPadding pad s)))

-- Decoding an encoded byte string gives it back, with padding or without it, as long as `size_t`
-- can count the encoded text.
pub decode-encode :
    (word : ℕ) (s : Bytes) (add_padding : Bool)
    → IsBytes s
    → length (encode s add_padding) < word
    → decode_without_padding word (encode s add_padding) ≡ returned s
decode-encode word s add_padding h fits =
    let fits' = rw (encode-groups s add_padding h) at fits in
    rw (encode-groups s add_padding h) (
      decode-ungroup word (groups add_padding s) (groups-IsBytes add_padding s h) fits'
      ∙ rw (unpadded-groups add_padding s h, ungroup-groups s h))
