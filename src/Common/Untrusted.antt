-- ===== src/Common/Untrusted.antt =====
-- What a client's request can change in a `RequestInfo` (extensions/common/context.cc).
use wasm_extensions.Prelude.{
  Bytes, ◌≡◌, ◌≢◌, refl, ap, ◌∙◌, [], Bool, true, false, Bool-cases, Option-cases, inl, inr, List,
  ◌∷◌, String,
}
use wasm_extensions.Common.Properties.{Properties, get_value}
use wasm_extensions.Common.Request.{RequestInfo}
use wasm_extensions.Common.Populate.{
  populate_request_info, populate_peers, populate_destination_service, destination_host,
  destination_service, get_service_name_fallback,
}

abbrev pub with_host : Bytes → RequestInfo → RequestInfo
with_host h r = record r { url_host = h }

-- Two hosts that agree but for the headers and for the properties of the request, whose paths start
-- with `request`; the empty path names no property.
pub record SameElsewhere (host host' : Properties) : Type 0 where
  pub string :
      (p : String) (ps : List String) → p ≢ "request" → host.string (p ∷ ps) ≡ host'.string (p ∷ ps)
  pub number :
      (p : String) (ps : List String) → p ≢ "request" → host.number (p ∷ ps) ≡ host'.number (p ∷ ps)
  pub bool :
      (p : String) (ps : List String) → p ≢ "request" → host.bool (p ∷ ps) ≡ host'.bool (p ∷ ps)
  pub pairs :
      (p : String) (ps : List String) → p ≢ "request" → host.pairs (p ∷ ps) ≡ host'.pairs (p ∷ ps)

module _ (host host' : Properties) (same : SameElsewhere host host') where
  get_service_name_fallback-Same : get_service_name_fallback host ≡ get_service_name_fallback host'
  unfolding get_service_name_fallback
  get_service_name_fallback-Same =
      rw (get_service_name_fallback, same.pairs "node" ("metadata" ∷ "LABELS" ∷ []) (λ e. cc)) refl

  destination_service-Same :
      (service_host route cluster : Bytes)
      → destination_service host service_host route cluster
        ≡ destination_service host' service_host route cluster
  unfolding destination_service
  destination_service-Same service_host route cluster =
      let path : String → List String =
        λ field. "filter_metadata" ∷ "istio" ∷ "services" ∷ "0" ∷ field ∷ [] in
      let at_name = same.string "cluster_metadata" (path "name") (λ e. cc) in
      let at_host = same.string "cluster_metadata" (path "host") (λ e. cc) in
      elim (Option-cases (host'.string ("cluster_metadata" ∷ path "name"))) [
        | inl n ↦ rw (destination_service, at_name, n) refl
        | inr (name, n) ↦ rw (destination_service, at_name, n, at_host) refl
      ]

  destination_host-Same :
      (outbound : Bool) (h h' : Bytes)
      → destination_host host outbound false h ≡ destination_host host' outbound false h'
  unfolding destination_host
  destination_host-Same true h h' = refl
  destination_host-Same false h h' = get_service_name_fallback-Same

  populate_destination_service-Same :
      (outbound : Bool) (h : Bytes) (r : RequestInfo)
      → populate_destination_service host outbound false (with_host h r)
        ≡ with_host h (populate_destination_service host' outbound false r)
  unfolding populate_destination_service
  populate_destination_service-Same outbound h r =
      rw
        (
          populate_destination_service,
          destination_host-Same outbound h r.url_host,
          destination_service-Same (destination_host host' outbound false r.url_host) r.route_name
              r.upstream_cluster,
        )
        refl

  populate_peers-Same :
      (outbound : Bool) (h : Bytes) (r : RequestInfo)
      → populate_peers host outbound (with_host h r) ≡ with_host h (populate_peers host' outbound r)
  unfolding populate_peers
  populate_peers-Same true h r =
      rw
        (
          populate_peers,
          same.string "upstream" ("uri_san_peer_certificate" ∷ []) (λ e. cc),
          same.string "upstream" ("uri_san_local_certificate" ∷ []) (λ e. cc),
          same.number "upstream" ("port" ∷ []) (λ e. cc),
        )
        refl
  populate_peers-Same false h r =
      rw
        (
          populate_peers,
          same.string "connection" ("uri_san_local_certificate" ∷ []) (λ e. cc),
          same.string "connection" ("uri_san_peer_certificate" ∷ []) (λ e. cc),
          same.bool "connection" ("mtls" ∷ []) (λ e. cc),
          same.number "destination" ("port" ∷ []) (λ e. cc),
        )
        refl

  -- When the fallback to the host header is disabled, neither the headers of the request, nor its
  -- properties, nor the host of the URL that the request so far holds change what
  -- `populateRequestInfo` fills in: on two hosts that agree elsewhere, from requests that differ in
  -- that host only, the results differ in it only.
  pub populate_request_info_host :
      (outbound : Bool) (h : Bytes) (r : RequestInfo)
      → populate_request_info host outbound false (with_host h r)
        ≡ with_host h (populate_request_info host' outbound false r)
  unfolding populate_request_info
  populate_request_info_host outbound h r = elim (Bool-cases r.is_populated) [
    | inl e ↦ rw (e, populate_request_info) refl
    | inr e ↦
        let r' = record r {
          is_populated = true;
          upstream_cluster = get_value (host'.string ("cluster_name" ∷ [])) r.upstream_cluster;
          route_name = get_value (host'.string ("route_name" ∷ [])) r.route_name;
        } in
        rw
          (
            e,
            populate_request_info,
            same.string "cluster_name" [] (λ e. cc),
            same.string "route_name" [] (λ e. cc),
          )
          (ap (populate_peers host outbound) (populate_destination_service-Same outbound h r')
            ∙ populate_peers-Same outbound h (populate_destination_service host' outbound false r'))
  ]
