-- ===== src/Common/Tests.antt =====
-- Requests filled in from hosts that are given, and bytes that are sanitized.
use text.Mathlib.Text.{◌==◌ as str_eq}
use text.Mathlib.TextEquality.{eq_iff}
use wasm_extensions.Prelude.{
  [], ◌∷◌, if◌then◌else◌, Bool-cases, inl, inr, ℕ, ◌≤◌, ◌≡◌, ◌↔◌, refl, Bytes, bytes_eq, codes,
  Bool, true, false, [], ◌∷◌, ◌++◌, Option, none, some, if◌then◌else◌, ltb, ◌==◌, arith, length,
}
use wasm_extensions.Common.Properties.{Properties, TextLib}
use wasm_extensions.Common.Request.{new_request}
use wasm_extensions.Common.Populate.{populate_request_info}
use wasm_extensions.Common.Peer.{
  FlatBuffers, empty_node, upstream_keys, maybe_waiting, peer_node_info, fallback_node,
  extract_peer_metadata, extract_from_host_metadata, metadata_not_found,
}
use wasm_extensions.Common.Sanitize.{
  sanitize_bytes, sanitize_from, IsText, Utf8Laws, sanitize_bytes-IsText,
}
use wasm_extensions.Common.Untrusted.{with_host, SameElsewhere, populate_request_info_host}

-- One byte for each code point.
abbrev ascii : Bytes → Option ℕ
ascii [] = none
ascii (c ∷ cs) = if ltb c 128 then some 0 else none

zero_below : (c n : ℕ) (cs : Bytes) → ascii (c ∷ cs) ≡ some n → n ≤ length cs
zero_below c n cs e = ground arith

ascii_laws : Utf8Laws ascii
ascii_laws = record { space = λ s. refl; local = λ c n cs s e. e; inside = zero_below }

-- The bytes that are no code points become spaces.
sanitize_spaces :
    ◌≡◌ {A = Bytes × Bool} (sanitize_bytes ascii (codes "a" ++ 200 ∷ codes "b")) (codes "a b", true)
unfolding sanitize_bytes sanitize_from
sanitize_spaces = refl

abbrev broken : Bytes
broken = 97 ∷ 200 ∷ []

sanitize_bytes-IsText_example :
    IsText ascii (sanitize_bytes ascii broken).0
    × (length (sanitize_bytes ascii broken).0 ≡ length broken)
    × (((sanitize_bytes ascii broken).1 ≡ false) ↔ IsText ascii broken)
    × (((sanitize_bytes ascii broken).1 ≡ false) ↔ ((sanitize_bytes ascii broken).0 ≡ broken))
sanitize_bytes-IsText_example = sanitize_bytes-IsText ascii ascii_laws broken

-- A host on which every name is that of a route to nowhere.
abbrev one_service : Properties
one_service = record {
  string = λ p. some (codes "block_all");
  number = λ p. none;
  bool = λ p. some true;
  pairs = λ p. none;
  header = λ k. [];
}

-- The same host for a request with other headers and another host among its properties.
abbrev evil_request : Properties
evil_request = record one_service {
  string = λ p. elim p [
    | [] ↦ none
    | q ∷ ps ↦ if str_eq q "request" then some (codes "evil") else some (codes "block_all")
  ];
  header = λ k. codes "evil";
}

evil_request-SameElsewhere : SameElsewhere evil_request one_service
evil_request-SameElsewhere = record {
  string = λ p ps e. elim (Bool-cases (str_eq p "request")) [
    | inl h ↦ absurd (e ((eq_iff p "request").0 h))
    | inr h ↦ rw h refl
  ];
  number = λ p ps e. refl;
  bool = λ p ps e. refl;
  pairs = λ p ps e. refl;
}

populate_request_info_host_example :
    populate_request_info evil_request false false (with_host (codes "evil") (new_request 0 0 1))
    ≡ with_host (codes "evil") (populate_request_info one_service false false (new_request 0 0 1))
populate_request_info_host_example =
    populate_request_info_host evil_request one_service evil_request-SameElsewhere false
      (codes "evil") (new_request 0 0 1)

-- A peer that is announced and not yet there is waited for, one that is absent is not.
abbrev announced : Bytes → Properties
announced id = record one_service { string = λ p. if length p == 1 then some id else none }

abbrev no_lib : TextLib
no_lib = record { str_split = λ c s. s ∷ []; simple_atoi = λ s n. (false, n); from_utf8 = ascii }

abbrev no_flat : FlatBuffers
no_flat = record { get_root = λ b. empty_node; sorted_tables = λ ps k. none }

absent_peer :
    maybe_waiting (peer_node_info (announced metadata_not_found) no_lib no_flat upstream_keys)
    ≡ false
unfolding maybe_waiting peer_node_info bytes_eq fallback_node extract_from_host_metadata
    extract_peer_metadata
absent_peer = refl
