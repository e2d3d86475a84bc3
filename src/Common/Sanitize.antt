-- ===== src/Common/Sanitize.antt =====
-- `sanitizeBytes` of extensions/common/context.cc. `from_utf8` is `flatbuffers::FromUTF8` at the
-- start of the rest of the buffer, which NUL ends: the number of bytes that follow the first one of
-- the code point that it reads.
use mathlib.Core.Path.{subst}
use wasm_extensions.Prelude.{
  ℕ, zero, suc, ◌≤◌, ◌≡◌, refl, ap, ◌↔◌, Bytes, Bool, true, false, [], ◌∷◌, ◌++◌, Option, none,
  some, inl, inr, length, take, drop, arith, Option-cases,
}

not_modified : ¬ (true ≡ false)
not_modified e = cc

module _ (from_utf8 : Bytes → Option ℕ) where
  -- The loop: the bytes written, and `modified`. `skip` bytes of a code point are still to be passed.
  unfoldable pub sanitize_from : ℕ → Bytes → Bytes × Bool
  sanitize_from skip [] = ([], false)
  sanitize_from (suc skip) (c ∷ cs) =
      let (rest, modified) = sanitize_from skip cs in (c ∷ rest, modified)
  sanitize_from zero (c ∷ cs) =
      let replaced = sanitize_from zero cs in
      elim (from_utf8 (c ∷ cs)) [
        | none ↦ (32 ∷ replaced.0, true)
        | some n ↦ let (rest, modified) = sanitize_from n cs in (c ∷ rest, modified)
      ]

  -- `sanitizeBytes`
  unfoldable pub sanitize_bytes : Bytes → Bytes × Bool
  sanitize_bytes = sanitize_from zero

  -- A text: from each place where a code point ends, another is read, until the end.
  abbrev pub IsTextFrom : ℕ → Bytes → Type 0
  IsTextFrom skip [] = Unit
  IsTextFrom (suc skip) (c ∷ cs) = IsTextFrom skip cs
  IsTextFrom zero (c ∷ cs) = (n : ℕ) × (from_utf8 (c ∷ cs) ≡ some n) × IsTextFrom n cs

  abbrev pub IsText : Bytes → Type 0
  IsText = IsTextFrom zero

  sanitize-length : (k : ℕ) (s : Bytes) → length (sanitize_from k s).0 ≡ length s
  unfolding sanitize_from
  sanitize-length k [] = refl
  sanitize-length (suc k) (c ∷ cs) = ap suc (sanitize-length k cs)
  sanitize-length zero (c ∷ cs) = elim (Option-cases (from_utf8 (c ∷ cs))) [
    | inl e ↦ rw (e, sanitize_from) (ap suc (sanitize-length zero cs))
    | inr (n, e) ↦ rw (e, sanitize_from) (ap suc (sanitize-length n cs))
  ]

  -- A text is left as it is.
  text_kept :
      (k : ℕ) (s : Bytes) → IsTextFrom k s → ◌≡◌ {A = Bytes × Bool} (sanitize_from k s) (s, false)
  unfolding sanitize_from
  text_kept k [] t = refl
  text_kept (suc k) (c ∷ cs) t = rw (text_kept k cs t, sanitize_from) refl
  text_kept zero (c ∷ cs) (n, e, t) = rw (e, text_kept n cs t, sanitize_from) refl

  unmodified_text : (k : ℕ) (s : Bytes) → (sanitize_from k s).1 ≡ false → IsTextFrom k s
  unfolding sanitize_from
  unmodified_text k [] e = tt
  unmodified_text (suc k) (c ∷ cs) e = unmodified_text k cs e
  unmodified_text zero (c ∷ cs) e = elim (Option-cases (from_utf8 (c ∷ cs))) [
    | inl n ↦ absurd (not_modified (rw (n, sanitize_from) at e))
    | inr (n, f) ↦ (n, f, unmodified_text n cs (rw (f, sanitize_from) at e))
  ]

  -- What UTF-8 promises: a space is a code point, the bytes after a code point do not change how it
  -- is read, and it lies inside the buffer.
  pub record Utf8Laws : Type 0 where
    pub space : (s : Bytes) → from_utf8 (32 ∷ s) ≡ some 0
    pub local :
        (c n : ℕ) (cs : Bytes) (s : Bytes)
        → from_utf8 (c ∷ cs) ≡ some n
        → from_utf8 (c ∷ take n cs ++ s) ≡ some n
    pub inside : (c n : ℕ) (cs : Bytes) → from_utf8 (c ∷ cs) ≡ some n → n ≤ length cs

  module _ (laws : Utf8Laws) where
    -- The first bytes of a code point are copied.
    split-skip :
        (k : ℕ) (s : Bytes)
        → k ≤ length s
        → (sanitize_from k s).0 ≡ take k s ++ (sanitize_from zero (drop k s)).0
    unfolding sanitize_from
    split-skip zero s b = refl
    split-skip (suc k) [] b = refl
    split-skip (suc k) (c ∷ cs) b = ap (◌∷◌ c) (split-skip k cs (omega arith))

    clean : (k : ℕ) (s : Bytes) → IsTextFrom k (sanitize_from k s).0
    unfolding sanitize_from
    clean k [] = tt
    clean (suc k) (c ∷ cs) = clean k cs
    clean zero (c ∷ cs) = elim (Option-cases (from_utf8 (c ∷ cs))) [
      | inl e ↦ rw (e, sanitize_from) (0, laws.space _, clean zero cs)
      | inr (n, e) ↦
          rw (e, sanitize_from)
            (n, rw (split-skip n cs (laws.inside c n cs e)) (laws.local c n cs _ e), clean n cs)
    ]

    -- When `FromUTF8` reads UTF-8, `sanitizeBytes` leaves a text of the same length; it reports a
    -- change if and only if the buffer was not a text, and leaves a text as it is.
    pub sanitize_bytes-IsText :
        (s : Bytes)
        → IsText (sanitize_bytes s).0
          × (length (sanitize_bytes s).0 ≡ length s)
          × (((sanitize_bytes s).1 ≡ false) ↔ IsText s)
          × (((sanitize_bytes s).1 ≡ false) ↔ ((sanitize_bytes s).0 ≡ s))
    unfolding sanitize_bytes
    sanitize_bytes-IsText s = (
      clean zero s,
      sanitize-length zero s,
      (unmodified_text zero s, λ t. ap (λ r. r.1) (text_kept zero s t)),
      (
        λ e. ap (λ r. r.0) (text_kept zero s (unmodified_text zero s e)),
        λ e. ap (λ r. r.1) (text_kept zero s (subst IsText e (clean zero s))),
      ),
    )
