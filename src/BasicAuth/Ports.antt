-- ===== src/BasicAuth/Ports.antt =====
-- `hostMatch`'s removal of a port from the request's host.
use wasm_extensions.Prelude.{
  ℕ, ◌<◌, ◌≡◌, ◌≢◌, refl, none, some, [], ◌∷◌, ◌++◌, length, take_append, length-append, lt→ltb,
  not-ltb, arith, All, Bytes, Option-cases, inl, inr,
}
use wasm_extensions.BasicAuth.Find.{rfind}
use wasm_extensions.BasicAuth.Check.{cut_port, strip_port}

rfind_missing : (c : ℕ) (s : Bytes) → All (λ x. x ≢ c) s → rfind c s ≡ none
unfolding rfind
rfind_missing c [] h = refl
rfind_missing c (x ∷ s) h = rw (rfind_missing c s h.1) (ground (arith, h.0))

rfind_last : (c : ℕ) (a b : Bytes) → All (λ x. x ≢ c) b → rfind c (a ++ c ∷ b) ≡ some (length a)
unfolding rfind
rfind_last c [] b h = rw (rfind_missing c b h) (ground arith)
rfind_last c (x ∷ a) b h = rw (rfind_last c a b h) refl

-- A search in a longer text finds what it finds in the first part, if the rest has no such byte.
rfind_front : (c : ℕ) (a b : Bytes) → All (λ x. x ≢ c) b → rfind c (a ++ b) ≡ rfind c a
unfolding rfind
rfind_front c [] b h = rfind_missing c b h
rfind_front c (x ∷ a) b h = rw (rfind_front c a b h) refl

rfind-lt : (c : ℕ) (a : Bytes) (i : ℕ) → rfind c a ≡ some i → i < length a
unfolding rfind
rfind-lt c [] i e = absurd (cc)
rfind-lt c (x ∷ a) i e = elim (Option-cases (rfind c a)) [
  | inl m ↦ ground (arith, m, e)
  | inr (j, f) ↦ ground (arith, f, e, rfind-lt c a j f)
]

cut_port_at : (a b : Bytes) → cut_port (length a) (a ++ b':' ∷ b) ≡ a
unfolding cut_port
cut_port_at a b = rw (take_append a (b':' ∷ b)) (ground (arith, length-append a (b':' ∷ b)))

-- A port, which is written without a colon and a bracket, is removed from any host in front of it,
-- also from an address in brackets, whatever the host holds.
pub strip_port_present :
    (host port : Bytes)
    → All (λ x. x ≢ b':') port
    → All (λ x. x ≢ b']') port
    → strip_port (host ++ b':' ∷ port) ≡ host
unfolding strip_port
strip_port_present host port colon bracket =
    let at = rfind_last b':' host port colon in
    let v6 = rfind_front b']' host (b':' ∷ port) ((λ e. omega (arith, e)), bracket) in
    elim (Option-cases (rfind b']' host)) [
      | inl none_ ↦ rw (at, strip_port, v6, none_) (cut_port_at host port)
      | inr (i, found) ↦
          rw (at, strip_port, v6, found, lt→ltb i (length host) (rfind-lt b']' host i found))
            (cut_port_at host port)
    ]

-- A host that ends in a bracket, an IPv6 address without a port, stays as it is.
pub strip_port_bracket :
    (address : Bytes) → strip_port (address ++ b']' ∷ []) ≡ address ++ b']' ∷ []
unfolding strip_port
strip_port_bracket address =
    let v6 = rfind_last b']' address [] tt in
    let colon = rfind_front b':' address (b']' ∷ []) ((λ e. omega (arith, e)), tt) in
    elim (Option-cases (rfind b':' address)) [
      | inl none_ ↦ rw (colon, strip_port, none_)
      | inr (i, found) ↦ rw (
        colon,
        strip_port,
        found,
        v6,
        not-ltb (length address) i (omega (arith, rfind-lt b':' address i found)),
      )
    ]
