-- ===== src/BasicAuth/Defaults.antt =====
-- The configuration of a rule whose only path field is the empty string.
use wasm_extensions.Prelude.{ℕ, ◌≡◌, refl, false, none, some, List, [], ◌∷◌, Bytes, codes}
use wasm_extensions.Json.{JsonLib}
use wasm_extensions.BasicAuth.Strings.{AbslStrings}
use wasm_extensions.BasicAuth.Config.{
  MatchType, BasicAuthConfigRule, path_field, visit_host, visit_method, visit_credential, collect,
  not_empty, count_field, exactly_one, set_path, extract_rule,
}
use wasm_extensions.BasicAuth.Check.{path_match}

module _ (strings : AbslStrings) (lib : JsonLib) where
  open lib use {Json}

  -- A rule with the empty prefix, and with hosts, at least one method and at least one credential
  -- that are read, is accepted without a path pattern being assigned. Where the memory holds no
  -- value of the enumeration, the rule is about no path at all, so it protects nothing.
  pub extract_rule_empty :
      (word : ℕ) (j : Json) (m : Bytes) (ms : List Bytes) (c : Bytes) (cs : List Bytes)
      (hosts : List (MatchType × Bytes))
      → path_field strings lib j (codes "prefix") ≡ some (some [])
      → path_field strings lib j (codes "exact") ≡ some none
      → path_field strings lib j (codes "suffix") ≡ some none
      → collect strings lib j (codes "hosts") (visit_host strings lib) [] ≡ some hosts
      → collect strings lib j (codes "request_methods") (visit_method strings lib) []
        ≡ some (m ∷ ms)
      → collect strings lib j (codes "credentials") (visit_credential strings lib word) []
        ≡ some (c ∷ cs)
      → (rule : BasicAuthConfigRule) × (extract_rule strings lib word none j ≡ some (m ∷ ms, rule))
        × ((path : Bytes) → path_match strings rule path ≡ false)
  unfolding extract_rule path_match set_path exactly_one count_field not_empty
  extract_rule_empty word j m ms c cs hosts prefix exact suffix h methods credentials = (
    record { request_path = []; path_pattern = none; hosts = hosts; encoded_credentials = c ∷ cs },
    rw (prefix, exact, suffix, h, methods, credentials),
    λ path. refl,
  )
