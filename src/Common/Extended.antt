-- ===== src/Common/Extended.antt =====
-- The fields for access logs, the direction and the audit policy, in
-- extensions/common/context.cc.
use wasm_extensions.Prelude.{
  ℕ, ◌==◌, Bytes, bytes_eq, codes, Bool, true, false, List, [], ◌∷◌, none, some, if◌then◌else◌,
  is_empty, String,
}
use wasm_extensions.Common.Properties.{Properties, get_value, TextLib}
use wasm_extensions.Common.Request.{RequestInfo}
use wasm_extensions.Common.Sanitize.{sanitize_bytes}

-- `TrafficDirection`; another number keeps its value.
pub data TrafficDirection : Type 0 where
  unspecified_direction inbound outbound : TrafficDirection
  other_direction : ℕ → TrafficDirection

abbrev direction_of : ℕ → TrafficDirection
direction_of n =
    if n == 0
    then unspecified_direction
    else (if n == 1 then inbound else (if n == 2 then outbound else other_direction n))

module _ (host : Properties) where
  -- `getTrafficDirection`
  unfoldable pub get_traffic_direction : TrafficDirection
  get_traffic_direction = elim (host.number ("listener_direction" ∷ [])) [
    | none ↦ unspecified_direction
    | some n ↦ direction_of n
  ]

  -- `getAuditPolicy`
  unfoldable pub get_audit_policy : Bool
  get_audit_policy =
      elim (host.bool ("metadata" ∷ "filter_metadata" ∷ "envoy.common" ∷ "access_log_hint" ∷ [])) [
        | none ↦ false
        | some should_audit ↦ should_audit
      ]

  module _ (lib : TextLib) where
    abbrev clean : Bytes → Bytes
    clean s = (sanitize_bytes lib.from_utf8 s).0

    -- A property that is sanitized when it can be read.
    abbrev read_clean : List String → Bytes → Bytes
    read_clean path old = elim (host.string path) [ none ↦ old | some v ↦ clean v ]

    -- A property that replaces the details when it is not empty.
    abbrev read_details : List String → Bytes → Bytes
    read_details path old =
        let details = get_value (host.string path) [] in if is_empty details then old else details

    -- `populateExtendedRequestInfo`
    unfoldable pub populate_extended_request_info : RequestInfo → RequestInfo
    populate_extended_request_info r = record r {
      source_address = get_value (host.string ("source" ∷ "address" ∷ [])) r.source_address;
      destination_address =
          get_value (host.string ("destination" ∷ "address" ∷ [])) r.destination_address;
      source_port = get_value (host.number ("source" ∷ "port" ∷ [])) r.source_port;
      connection_id = get_value (host.number ("connection_id" ∷ [])) r.connection_id;
      upstream_host = get_value (host.string ("upstream" ∷ "address" ∷ [])) r.upstream_host;
      requested_server_name =
          get_value (host.string ("connection" ∷ "requested_server_name" ∷ []))
            r.requested_server_name;
      x_envoy_original_path = clean (host.header "x-envoy-original-path");
      x_envoy_original_dst_host = clean (host.header "x-envoy-original-dst-host");
      upstream_transport_failure_reason =
          get_value (host.string ("upstream" ∷ "transport_failure_reason" ∷ []))
            r.upstream_transport_failure_reason;
      response_details =
          read_details ("connection" ∷ "termination_details" ∷ []) r.response_details;
    }

    abbrev trace_sampled : Bool
    trace_sampled =
        bytes_eq (get_value (host.string ("request" ∷ "headers" ∷ "x-b3-sampled" ∷ [])) [])
          (codes "1")

    -- The identifiers of the trace, when it is sampled.
    unfoldable pub populate_trace : RequestInfo → RequestInfo
    populate_trace r =
        if trace_sampled
        then record r {
          b3_trace_id = read_clean ("request" ∷ "headers" ∷ "x-b3-traceid" ∷ []) r.b3_trace_id;
          b3_span_id = read_clean ("request" ∷ "headers" ∷ "x-b3-spanid" ∷ []) r.b3_span_id;
          b3_trace_sampled = true;
        }
        else r

    -- `populateExtendedHTTPRequestInfo`
    unfoldable pub populate_extended_http_request_info : RequestInfo → RequestInfo
    populate_extended_http_request_info r =
        let r₁ = populate_extended_request_info r in
        let r₂ = populate_trace (record r₁ {
          referer = read_clean ("request" ∷ "referer" ∷ []) r₁.referer;
          user_agent = read_clean ("request" ∷ "useragent" ∷ []) r₁.user_agent;
          request_id = read_clean ("request" ∷ "id" ∷ []) r₁.request_id;
        }) in
        record r₂ {
          path = get_value (host.string ("request" ∷ "path" ∷ [])) r₂.path;
          url_host = get_value (host.string ("request" ∷ "host" ∷ [])) r₂.url_host;
          url_scheme = get_value (host.string ("request" ∷ "scheme" ∷ [])) r₂.url_scheme;
          response_details = read_details ("response" ∷ "code_details" ∷ []) r₂.response_details;
        }
