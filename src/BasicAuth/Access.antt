-- ===== src/BasicAuth/Access.antt =====
-- Who is let through by `check`: the loop over the rules against a statement about all rules.
use mathlib.Core.Path.{subst}
use wasm_extensions.Prelude.{
  true, false, none, some, List, [], ◌∷◌, ◌++◌, ◌≡◌, ◌⊎◌, inl, inr, refl, sym, ◌∙◌, All, arith,
  Bool-cases, Option-cases, Bytes, codes,
}
use wasm_extensions.Host.{continue, stop_iteration}
use wasm_extensions.BasicAuth.Strings.{AbslStrings}
use wasm_extensions.BasicAuth.Find.{contains}
use wasm_extensions.BasicAuth.Config.{BasicAuthConfigRule, Root}
use wasm_extensions.BasicAuth.Check.{
  Request, Decision, denied_no_basic_auth_data, denied_invalid_credentials, host_match, path_match,
  credentials_check, next_rule, check_rules, check,
}

-- The decision is to go on without a reply, or to stop with a reply 401.
pub data Decided (P : Type 0) (realm : Bytes) (d : Decision) : Type 0 where
  goes_on : P → d ≡ (continue, none) → Decided P realm d
  no_credentials :
      ¬ P → d ≡ (stop_iteration, some (denied_no_basic_auth_data realm)) → Decided P realm d
  wrong_credentials :
      ¬ P → d ≡ (stop_iteration, some (denied_invalid_credentials realm)) → Decided P realm d

module _ (strings : AbslStrings) where
  open strings use {starts_with, strip_prefix, starts_with_iff, strip_prefix_present}

  -- The header presents one of the rule's credentials.
  abbrev pub Authorized : BasicAuthConfigRule → Bytes → Type 0
  Authorized rule authorization =
      (c : Bytes) × (authorization ≡ codes "Basic " ++ c)
      × (contains c rule.encoded_credentials ≡ true)

  -- The rule is about the request's host and path.
  abbrev pub Applies : BasicAuthConfigRule → Request → Type 0
  Applies rule request =
      (host_match strings rule request.authority ≡ true)
      × (path_match strings rule request.path ≡ true)

  stripped_to : (a c : Bytes) → a ≡ codes "Basic " ++ c → strip_prefix a (codes "Basic ") ≡ c
  stripped_to a c e =
      subst (λ x. strip_prefix x (codes "Basic ") ≡ c) (sym e)
        (strip_prefix_present (codes "Basic ") c)

  disagree : {c d : Bytes} (l : List Bytes) → c ≡ d → contains c l ≡ false → ¬ (contains d l ≡ true)
  disagree l e f t = cc

  credentials_check-Decided :
      (realm : Bytes) (rule : BasicAuthConfigRule) (a : Bytes)
      → Decided (Authorized rule a) realm (credentials_check strings realm rule a)
  unfolding credentials_check
  credentials_check-Decided realm rule a = elim (Bool-cases (starts_with a (codes "Basic "))) [
    | inl basic ↦
        let (c, e) = (starts_with_iff a (codes "Basic ")).0 basic in
        let stripped = stripped_to a c e in
        elim (Bool-cases (contains c rule.encoded_credentials)) [
          | inl known ↦ goes_on (c, e, known) (rw (basic, stripped, known))
          | inr unknown ↦
              wrong_credentials
                (λ p.
                  disagree rule.encoded_credentials (sym stripped ∙ stripped_to a p.0 p.1) unknown
                    p.2)
                (rw (basic, stripped, unknown))
        ]
    | inr other ↦
        no_credentials
          (λ p. absurd (cc (sym other ∙ (starts_with_iff a (codes "Basic ")).1 (p.0, p.1))))
          (rw other)
  ]

  -- Every rule in the list that is about the request is met by its header.
  abbrev pub Met : Request → List BasicAuthConfigRule → Type 0
  Met request = All (λ rule. Applies rule request → Authorized rule request.authorization)

  skipped :
      (realm : Bytes) (request : Request) (rule : BasicAuthConfigRule)
      (rules : List BasicAuthConfigRule) (d : Decision)
      → ¬ Applies rule request
      → Decided (Met request rules) realm d
      → Decided (Met request (rule ∷ rules)) realm d
  skipped realm request rule rules d no_ (goes_on m e) = goes_on (λ a. absurd (no_ a), m) e
  skipped realm request rule rules d no_ (no_credentials m e) = no_credentials (λ k. m k.1) e
  skipped realm request rule rules d no_ (wrong_credentials m e) = wrong_credentials (λ k. m k.1) e

  applied :
      (realm : Bytes) (request : Request) (rule : BasicAuthConfigRule)
      (rules : List BasicAuthConfigRule) (d rest : Decision)
      → Applies rule request
      → Decided (Authorized rule request.authorization) realm d
      → Decided (Met request rules) realm rest
      → Decided (Met request (rule ∷ rules)) realm (next_rule d rest)
  unfolding next_rule
  applied realm request rule rules d rest a (goes_on p e) r = rw e (later r)
    where
      later :
          Decided (Met request rules) realm rest → Decided (Met request (rule ∷ rules)) realm rest
      later (goes_on m f) = goes_on (λ a'. p, m) f
      later (no_credentials m f) = no_credentials (λ k. m k.1) f
      later (wrong_credentials m f) = wrong_credentials (λ k. m k.1) f
  applied realm request rule rules d rest a (no_credentials p e) r =
      rw e (no_credentials (λ k. p (k.0 a)) refl)
  applied realm request rule rules d rest a (wrong_credentials p e) r =
      rw e (wrong_credentials (λ k. p (k.0 a)) refl)

  rule_met :
      (realm : Bytes) (request : Request) (rule : BasicAuthConfigRule)
      (rules : List BasicAuthConfigRule)
      → Applies rule request
      → check_rules strings realm request (rule ∷ rules)
        ≡ next_rule
            (credentials_check strings realm rule request.authorization)
            (check_rules strings realm request rules)
  unfolding check_rules
  rule_met realm request rule rules (host, path) = rw (host, path)

  rule_left_out :
      (realm : Bytes) (request : Request) (rule : BasicAuthConfigRule)
      (rules : List BasicAuthConfigRule)
      → (host_match strings rule request.authority ≡ false)
        ⊎ (path_match strings rule request.path ≡ false)
      → check_rules strings realm request (rule ∷ rules) ≡ check_rules strings realm request rules
  unfolding check_rules
  rule_left_out realm request rule rules (inl host) = rw host
  rule_left_out realm request rule rules (inr path) = ground (arith, path)

  left_out :
      (request : Request) (rule : BasicAuthConfigRule)
      → (host_match strings rule request.authority ≡ false)
        ⊎ (path_match strings rule request.path ≡ false)
      → ¬ Applies rule request
  left_out request rule (inl host) (a, b) = cc
  left_out request rule (inr path) (a, b) = cc

  which :
      (request : Request) (rule : BasicAuthConfigRule)
      → Applies rule request
        ⊎ ((host_match strings rule request.authority ≡ false)
            ⊎ (path_match strings rule request.path ≡ false))
  which request rule = elim (Bool-cases (host_match strings rule request.authority)) [
    | inl host ↦ elim (Bool-cases (path_match strings rule request.path)) [
      | inl path ↦ inl (host, path)
      | inr path ↦ inr (inr path)
    ]
    | inr host ↦ inr (inl host)
  ]

  check_rules-Decided :
      (realm : Bytes) (request : Request) (rules : List BasicAuthConfigRule)
      → Decided (Met request rules) realm (check_rules strings realm request rules)
  unfolding check_rules
  check_rules-Decided realm request [] = goes_on tt refl
  check_rules-Decided realm request (rule ∷ rules) =
      let rest = check_rules-Decided realm request rules in
      elim (which request rule) [
        | inl a ↦
            subst (Decided (Met request (rule ∷ rules)) realm)
              (sym (rule_met realm request rule rules a))
              (applied realm request rule rules _ _ a
                (credentials_check-Decided realm rule request.authorization) rest)
        | inr l ↦
            subst (Decided (Met request (rule ∷ rules)) realm)
              (sym (rule_left_out realm request rule rules l))
              (skipped realm request rule rules _ (left_out request rule l) rest)
      ]

  -- Every configured rule for the request's method that is about its host and path is met.
  abbrev pub Permitted : Root → Request → Type 0
  Permitted root request =
      (rules : List BasicAuthConfigRule)
      → root.basic_auth_configuration request.method ≡ some rules
      → Met request rules

  some_injective : {a b : List BasicAuthConfigRule} → some a ≡ some b → a ≡ b
  some_injective e = cc

  none-some : {a : List BasicAuthConfigRule} → ¬ (none ≡ some a)
  none-some e = cc

  some_rules :
      (root : Root) (request : Request) (rules : List BasicAuthConfigRule) (d : Decision)
      → root.basic_auth_configuration request.method ≡ some rules
      → Decided (Met request rules) root.realm d
      → Decided (Permitted root request) root.realm d
  some_rules root request rules d found (goes_on m e) =
      goes_on (λ r f. subst (Met request) (some_injective (sym found ∙ f)) m) e
  some_rules root request rules d found (no_credentials m e) =
      no_credentials (λ p. m (p rules found)) e
  some_rules root request rules d found (wrong_credentials m e) =
      wrong_credentials (λ p. m (p rules found)) e

  check_found :
      (root : Root) (request : Request) (rules : List BasicAuthConfigRule)
      → root.basic_auth_configuration request.method ≡ some rules
      → check_rules strings root.realm request rules ≡ check strings root request
  unfolding check
  check_found root request rules found = rw (found, check)

  -- A request goes on, with no reply, exactly if each rule for its method that is about its host and
  -- path has the credentials of its header among its own; any other request is stopped by a reply
  -- 401 with the configured realm.
  pub check-Decided :
      (root : Root) (request : Request)
      → Decided (Permitted root request) root.realm (check strings root request)
  unfolding check
  check-Decided root request = elim (Option-cases (root.basic_auth_configuration request.method)) [
    | inl missing ↦ goes_on (λ rules f. absurd (none-some (sym missing ∙ f))) (rw (missing, check))
    | inr (rules, found) ↦
        subst (Decided (Permitted root request) root.realm) (check_found root request rules found)
          (some_rules root request rules _ found (check_rules-Decided root.realm request rules))
  ]
