-- ===== src/BasicAuth/Scan.antt =====
-- Abseil's string functions by scanning, to show that the behaviour that is asked of them can be
-- met.
use wasm_extensions.Prelude.{
  Bool, true, false, ◌≡◌, ◌↔◌, inl, inr, refl, ap, [], ◌∷◌, ◌++◌, ◌==◌, if◌then◌else◌, Bytes,
  Bool-cases, bytes_eq, bytes_eq_iff, ==_iff,
}
use wasm_extensions.BasicAuth.Strings.{AbslStrings}

abbrev starts : Bytes → Bytes → Bool
starts s [] = true
starts [] (p ∷ ps) = false
starts (c ∷ s) (p ∷ ps) = if c == p then starts s ps else false

abbrev ends : Bytes → Bytes → Bool
ends [] p = bytes_eq [] p
ends (c ∷ s) p = if bytes_eq (c ∷ s) p then true else ends s p

abbrev holds : Bytes → Bytes → Bool
holds [] n = starts [] n
holds (c ∷ s) n = if starts (c ∷ s) n then true else holds s n

abbrev strip : Bytes → Bytes → Bytes
strip s [] = s
strip [] (p ∷ ps) = []
strip (c ∷ s) (p ∷ ps) = strip s ps

starts→ : (s p : Bytes) → starts s p ≡ true → (r : Bytes) × (s ≡ p ++ r)
starts→ s [] e = (s, refl)
starts→ [] (p ∷ ps) e = absurd (cc)
starts→ (c ∷ s) (p ∷ ps) e = elim (Bool-cases (c == p)) [
  | inl y ↦ let (r, f) = starts→ s ps (rw y at e) in (r, rw ((==_iff c p).0 y, f))
  | inr n ↦ absurd (cc (rw n at e))
]

starts-append : (p r : Bytes) → starts (p ++ r) p ≡ true
starts-append [] r = refl
starts-append (c ∷ p) r = rw ((==_iff c c).1 refl) (starts-append p r)

pub starts_iff : (s p : Bytes) → (starts s p ≡ true) ↔ ((r : Bytes) × (s ≡ p ++ r))
starts_iff s p = (starts→ s p, λ h. rw h.1 (starts-append p h.0))

ends→ : (s p : Bytes) → ends s p ≡ true → (r : Bytes) × (s ≡ r ++ p)
ends→ [] p e = ([], (bytes_eq_iff [] p).0 e)
ends→ (c ∷ s) p e = elim (Bool-cases (bytes_eq (c ∷ s) p)) [
  | inl y ↦ ([], (bytes_eq_iff (c ∷ s) p).0 y)
  | inr n ↦ let (r, f) = ends→ s p (rw n at e) in (c ∷ r, ap (◌∷◌ c) f)
]

ends_whole : (p : Bytes) → ends p p ≡ true
ends_whole [] = (bytes_eq_iff [] []).1 refl
ends_whole (c ∷ p) = rw ((bytes_eq_iff (c ∷ p) (c ∷ p)).1 refl)

ends-append : (r p : Bytes) → ends (r ++ p) p ≡ true
ends-append [] p = ends_whole p
ends-append (c ∷ r) p = elim (Bool-cases (bytes_eq (c ∷ r ++ p) p)) [
  | inl y ↦ rw y
  | inr n ↦ rw n (ends-append r p)
]

pub ends_iff : (s p : Bytes) → (ends s p ≡ true) ↔ ((r : Bytes) × (s ≡ r ++ p))
ends_iff s p = (ends→ s p, λ h. rw h.1 (ends-append h.0 p))

holds→ : (s n : Bytes) → holds s n ≡ true → (a : Bytes) × (b : Bytes) × (s ≡ a ++ n ++ b)
holds→ [] n e = let (r, f) = starts→ [] n e in ([], r, f)
holds→ (c ∷ s) n e = elim (Bool-cases (starts (c ∷ s) n)) [
  | inl y ↦ let (r, f) = starts→ (c ∷ s) n y in ([], r, f)
  | inr no_ ↦ let (a, b, f) = holds→ s n (rw no_ at e) in (c ∷ a, b, ap (◌∷◌ c) f)
]

holds_whole : (s n : Bytes) → starts s n ≡ true → holds s n ≡ true
holds_whole [] n e = e
holds_whole (c ∷ s) n e = rw e

holds-append : (a n b : Bytes) → holds (a ++ n ++ b) n ≡ true
holds-append [] n b = holds_whole (n ++ b) n (starts-append n b)
holds-append (c ∷ a) n b = elim (Bool-cases (starts (c ∷ a ++ n ++ b) n)) [
  | inl y ↦ rw y
  | inr no_ ↦ rw no_ (holds-append a n b)
]

pub holds_iff : (s n : Bytes) → (holds s n ≡ true) ↔ ((a : Bytes) × (b : Bytes) × (s ≡ a ++ n ++ b))
holds_iff s n = (holds→ s n, λ h. rw h.2 (holds-append h.0 n h.1))

pub strip-append : (p r : Bytes) → strip (p ++ r) p ≡ r
strip-append [] r = refl
strip-append (c ∷ p) r = strip-append p r

abbrev pub scan : AbslStrings
scan = record {
  starts_with = starts;
  ends_with = ends;
  str_contains = holds;
  strip_prefix = strip;
  starts_with_iff = starts_iff;
  ends_with_iff = ends_iff;
  str_contains_iff = holds_iff;
  strip_prefix_present = strip-append;
}
