-- ===== src/BasicAuth/Tests.antt =====
-- Runs of the configuration and of the decision on a request.
use wasm_extensions.Prelude.{
  ◌≡◌, ◌++◌, refl, true, false, none, some, [], ◌∷◌, if◌then◌else◌, Bytes, codes, bytes_eq,
}
use wasm_extensions.Host.{continue}
use wasm_extensions.Base64.{encode}
use wasm_extensions.Json.{value_as_string, array_iterate, visit_elements, is_ok as read_ok}
use wasm_extensions.Json.Toy.{Value, string, array, object, nil, cons, end, field, toy}
use wasm_extensions.BasicAuth.Find.{rfind, contains, insert}
use wasm_extensions.BasicAuth.Config.{
  prefix, exact, BasicAuthConfigRule, Root, add_credential, string_value, path_field, visit_host,
  visit_method, visit_credential, collect, extract_rule,
}
use wasm_extensions.BasicAuth.Check.{
  Request, strip_port, credentials_check, check_rules, host_match, any_host, matches, cut_port,
  next_rule, path_match, check,
}
use wasm_extensions.BasicAuth.Access.{Decided, Permitted, check-Decided}
use wasm_extensions.BasicAuth.Setup.{add_credential-accepted}
use wasm_extensions.BasicAuth.Defaults.{extract_rule_empty}
use wasm_extensions.BasicAuth.Scan.{scan}

abbrev api_rule : BasicAuthConfigRule
api_rule = record {
  request_path = codes "/api";
  path_pattern = some prefix;
  hosts = (exact, codes "foo.com") ∷ [];
  encoded_credentials = codes "b2s6dGVzdA==" ∷ [];
}

abbrev root : Root
root = record {
  basic_auth_configuration =
      λ method. if bytes_eq method (codes "GET") then some (api_rule ∷ []) else none;
  realm = codes "istio";
}

abbrev request : Request
request = record {
  path = codes "/api/reviews";
  method = codes "GET";
  authority = codes "foo.com:80";
  authorization = codes "Basic b2s6dGVzdA==";
}

check-Decided_example :
    Decided (Permitted scan root request) (codes "istio") (check scan root request)
check-Decided_example = check-Decided scan root request

goes_on : check scan root request ≡ (continue, none)
unfolding check bytes_eq check_rules host_match any_host matches strip_port rfind cut_port
    path_match next_rule credentials_check contains
goes_on = refl

abbrev document : Value
document = object (
    field (codes "prefix") (string []) (
      field (codes "request_methods") (array (cons (string (codes "GET")) nil))
        (field (codes "credentials") (array (cons (string (codes "ok:test")) nil)) end)))

added :
    api_rule.encoded_credentials
    ≡ (add_credential scan (toy document) 4294967296 (codes "ok" ++ b':' ∷ codes "test") []).1
unfolding add_credential insert contains encode
added = refl

read_prefix : path_field scan (toy document) document (codes "prefix") ≡ some (some [])
unfolding path_field string_value value_as_string bytes_eq read_ok collect array_iterate
    visit_elements visit_host visit_method visit_credential add_credential insert contains encode
read_prefix = refl

no_exact : path_field scan (toy document) document (codes "exact") ≡ some none
unfolding path_field string_value value_as_string bytes_eq read_ok collect array_iterate
    visit_elements visit_host visit_method visit_credential add_credential insert contains encode
no_exact = refl

no_suffix : path_field scan (toy document) document (codes "suffix") ≡ some none
unfolding path_field string_value value_as_string bytes_eq read_ok collect array_iterate
    visit_elements visit_host visit_method visit_credential add_credential insert contains encode
no_suffix = refl

no_hosts :
    collect scan (toy document) document (codes "hosts") (visit_host scan (toy document)) []
    ≡ some []
unfolding path_field string_value value_as_string bytes_eq read_ok collect array_iterate
    visit_elements visit_host visit_method visit_credential add_credential insert contains encode
no_hosts = refl

get_method :
    collect scan
      (toy document)
      document
      (codes "request_methods")
      (visit_method scan (toy document))
      []
    ≡ some (codes "GET" ∷ [])
unfolding path_field string_value value_as_string bytes_eq read_ok collect array_iterate
    visit_elements visit_host visit_method visit_credential add_credential insert contains encode
get_method = refl

one_credential :
    collect scan
      (toy document)
      document
      (codes "credentials")
      (visit_credential scan (toy document) 4294967296)
      []
    ≡ some (codes "b2s6dGVzdA==" ∷ [])
unfolding path_field string_value value_as_string bytes_eq read_ok collect array_iterate
    visit_elements visit_host visit_method visit_credential add_credential insert contains encode
one_credential = refl

add_credential-accepted_example :
    ((add_credential scan (toy document) 4294967296 (codes "ok" ++ b':' ∷ codes "test") []).0
      ≡ true)
    × (credentials_check scan
          (codes "istio")
          api_rule
          (codes "Basic " ++ encode (codes "ok" ++ b':' ∷ codes "test") true)
        ≡ (continue, none))
add_credential-accepted_example =
    add_credential-accepted scan (toy document) 4294967296 (codes "istio") (codes "ok")
      (codes "test") [] api_rule added

extract_rule_empty_example :
    (rule : BasicAuthConfigRule) × (extract_rule scan (toy document) 4294967296 none document
      ≡ some (codes "GET" ∷ [], rule))
    × ((path : Bytes) → path_match scan rule path ≡ false)
extract_rule_empty_example =
    extract_rule_empty scan (toy document) 4294967296 document (codes "GET") []
      (codes "b2s6dGVzdA==") [] [] read_prefix no_exact no_suffix no_hosts get_method one_credential
