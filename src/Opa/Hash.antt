-- ===== src/Opa/Hash.antt =====
-- `computeHash`, and what a hit of `ResultCache::check` says about the request.
use mathlib.Core.List.{Perm, Permᴰ}
use mathlib.Core.Logic.{∥∥₁_elim}
use native.Mathlib.Nat.{ℕ_set}
use wasm_extensions.Prelude.{ℕ, ◌+◌, ◌*◌, ◌%◌, ◌≡◌, refl, ap, ◌∙◌, arith, Bytes, List, [], ◌∷◌}
use wasm_extensions.Opa.Cache.{
  Payload, ResultCache, defined, ◌>>=◌, word64, compute_hash, check, check_hash,
}

-- The four strings of a payload.
abbrev pub strings : Payload → List Bytes
strings p = p.source_principal ∷ p.destination_workload ∷ p.request_method ∷ p.request_url_path ∷ []

-- The sum of their hashes.
abbrev total : (Bytes → ℕ) → List Bytes → ℕ
total hash_of [] = 0
total hash_of (s ∷ ss) = hash_of s + total hash_of ss

total-Permᴰ :
    (hash_of : Bytes → ℕ) {ss ts : List Bytes} → Permᴰ ss ts → total hash_of ss ≡ total hash_of ts
total-Permᴰ hash_of Permᴰ.nil = refl
total-Permᴰ hash_of (Permᴰ.cons e p) = omega (arith, ap hash_of e, total-Permᴰ hash_of p)
total-Permᴰ hash_of (Permᴰ.swap e f) = omega (arith, ap hash_of e, ap hash_of f)
total-Permᴰ hash_of (Permᴰ.trans p q) = total-Permᴰ hash_of p ∙ total-Permᴰ hash_of q

total-Perm :
    (hash_of : Bytes → ℕ) (ss ts : List Bytes) → Perm ss ts → total hash_of ss ≡ total hash_of ts
total-Perm hash_of ss ts p = ∥∥₁_elim p (ℕ_set _ _) (λ d. total-Permᴰ hash_of d)

-- The hash is the product of a constant and the sum of the four fields' hashes, modulo 2 ^ 64.
pub compute_hash-sum :
    (hash_of : Bytes → ℕ) (p : Payload)
    → compute_hash hash_of p ≡ total hash_of (strings p) * 0x9ddfea08eb382d69 % word64
unfolding compute_hash
compute_hash-sum hash_of p = omega arith

-- Whatever the string hash is, two payloads with the same four strings, in any two orders, are one
-- entry of the cache: `check` of either gives the same hash, the same answer and the same cache.
pub check_reordered :
    (max_entries : ℕ) (hash_of : Bytes → ℕ) (timestamp : ℕ) (p q : Payload) (c : ResultCache)
    → Perm (strings p) (strings q)
    → check max_entries hash_of p timestamp c ≡ check max_entries hash_of q timestamp c
unfolding check
check_reordered max_entries hash_of timestamp p q c same =
    let equal : compute_hash hash_of p ≡ compute_hash hash_of q =
      rw
        (
          compute_hash-sum hash_of p,
          compute_hash-sum hash_of q,
          total-Perm hash_of (strings p) (strings q) same,
        )
        refl in
    ap (λ h. do (c', hit) ← check_hash max_entries h timestamp c; defined (h, c', hit)) equal
