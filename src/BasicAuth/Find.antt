-- ===== src/BasicAuth/Find.antt =====
-- Searches in strings and sets that the standard library provides.
use wasm_extensions.Prelude.{
  ℕ, suc, Bool, false, ◌||◌, Option, none, some, List, [], ◌∷◌, if◌then◌else◌, ◌==◌, Bytes,
  bytes_eq,
}

-- `rfind(c)`: the position of the last `c`, or `none` for `npos`.
unfoldable pub rfind : ℕ → Bytes → Option ℕ
rfind c [] = none
rfind c (x ∷ s) = elim (rfind c s) [
  | some i ↦ some (suc i)
  | none ↦ if x == c then some 0 else none
]

-- A search in an `unordered_set` of strings, and an insertion.
unfoldable pub contains : Bytes → List Bytes → Bool
contains c [] = false
contains c (x ∷ xs) = bytes_eq x c || contains c xs

unfoldable pub insert : Bytes → List Bytes → List Bytes
insert c xs = if contains c xs then xs else c ∷ xs
