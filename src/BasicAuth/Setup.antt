-- ===== src/BasicAuth/Setup.antt =====
-- What the extraction of a rule makes of a credential, of a host and of the paths.
use wasm_extensions.Prelude.{
  ℕ, ◌≡◌, inl, inr, refl, ap, true, none, List, [], ◌∷◌, ◌++◌, Bool-cases, Bytes, codes,
  bytes_eq_iff,
}
use wasm_extensions.Base64.{encode}
use wasm_extensions.Json.{JsonLib}
use wasm_extensions.Host.{continue}
use wasm_extensions.BasicAuth.Strings.{AbslStrings}
use wasm_extensions.BasicAuth.Find.{contains, insert}
use wasm_extensions.BasicAuth.Config.{BasicAuthConfigRule, add_credential}
use wasm_extensions.BasicAuth.Check.{credentials_check}

contains-insert : (c : Bytes) (xs : List Bytes) → contains c (insert c xs) ≡ true
unfolding insert contains
contains-insert c xs = elim (Bool-cases (contains c xs)) [
  | inl old ↦ rw (old, old)
  | inr new ↦ rw (new, (bytes_eq_iff c c).1 refl) refl
]

colon_between : (user password : Bytes) → user ++ b':' ∷ password ≡ user ++ codes ":" ++ password
colon_between [] password = refl
colon_between (c ∷ user) password = ap (◌∷◌ c) (colon_between user password)

module _ (strings : AbslStrings) (lib : JsonLib) where
  open strings use {
    starts_with, str_contains, starts_with_iff, str_contains_iff, strip_prefix_present,
  }

  -- A request that presents a credential of the rule goes on.
  presented :
      (realm c : Bytes) (rule : BasicAuthConfigRule)
      → contains c rule.encoded_credentials ≡ true
      → credentials_check strings realm rule (codes "Basic " ++ c) ≡ (continue, none)
  unfolding credentials_check
  presented realm c rule known = rw (
    (starts_with_iff (codes "Basic " ++ c) (codes "Basic ")).1 (c, refl),
    strip_prefix_present (codes "Basic ") c,
    known,
  )

  -- A credential in plain text, which has a colon, is accepted by the configuration, and a request
  -- that presents its encoding in the form of RFC 7617 is let through by every rule that holds the
  -- credentials collected so far with this one.
  pub add_credential-accepted :
      (word : ℕ) (realm user password : Bytes) (credentials : List Bytes)
      (rule : BasicAuthConfigRule)
      → rule.encoded_credentials
        ≡ (add_credential strings lib word (user ++ b':' ∷ password) credentials).1
      → ((add_credential strings lib word (user ++ b':' ∷ password) credentials).0 ≡ true)
        × (credentials_check strings realm rule
              (codes "Basic " ++ encode (user ++ b':' ∷ password) true)
            ≡ (continue, none))
  unfolding add_credential
  add_credential-accepted word realm user password credentials rule e =
      let colon =
        (str_contains_iff (user ++ b':' ∷ password) (codes ":")).1
          (user, password, colon_between user password) in
      (rw colon, presented realm _ rule (rw e (rw colon (contains-insert _ credentials))))
