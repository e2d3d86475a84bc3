-- ===== src/BasicAuth/Strings.antt =====
-- What extensions/basic_auth/plugin.cc uses of Abseil's strings, which are not part of the
-- repository: the record `AbslStrings` has the functions with their documented behaviour.
use wasm_extensions.Prelude.{Bool, true, ◌≡◌, ◌↔◌, ◌++◌, Bytes}

pub record AbslStrings : Type 0 where
  pub starts_with : Bytes → Bytes → Bool
  pub ends_with : Bytes → Bytes → Bool
  pub str_contains : Bytes → Bytes → Bool
  pub strip_prefix : Bytes → Bytes → Bytes
  pub starts_with_iff :
      (s prefix : Bytes) → (starts_with s prefix ≡ true) ↔ ((r : Bytes) × (s ≡ prefix ++ r))
  pub ends_with_iff :
      (s suffix : Bytes) → (ends_with s suffix ≡ true) ↔ ((r : Bytes) × (s ≡ r ++ suffix))
  pub str_contains_iff :
      (s needle : Bytes)
      → (str_contains s needle ≡ true) ↔ ((a : Bytes) × (b : Bytes) × (s ≡ a ++ needle ++ b))
  pub strip_prefix_present : (prefix r : Bytes) → strip_prefix (prefix ++ r) prefix ≡ r
