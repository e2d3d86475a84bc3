-- ===== src/Common/Populate.antt =====
-- The functions of extensions/common/context.cc that fill in a `RequestInfo`.
use wasm_extensions.Prelude.{
  ℕ, ◌%◌, ◌^◌, Bytes, bytes_eq, codes, Bool, true, false, ◌||◌, List, [], ◌∷◌, none, some,
  if◌then◌else◌, String,
}
use wasm_extensions.ResponseFlag.{parse_response_flag}
use wasm_extensions.Common.Properties.{Properties, get_value, TextLib}
use wasm_extensions.Common.Request.{RequestInfo, tcp, http, grpc, is_grpc, mutual_tls, none_policy}

abbrev pub canonical_service_label : Bytes
canonical_service_label = codes "service.istio.io/canonical-name"

-- The loop of `getServiceNameFallback`.
unfoldable pub find_canonical : List (Bytes × Bytes) → Bytes
find_canonical [] = codes "unknown"
find_canonical ((key, val) ∷ ps) =
    let rest = find_canonical ps in if bytes_eq key canonical_service_label then val else rest

-- The clusters that name the destination themselves.
abbrev is_named_cluster : Bytes → Bool
is_named_cluster c =
    bytes_eq c (codes "BlackHoleCluster")
    || bytes_eq c (codes "PassthroughCluster")
    || bytes_eq c (codes "InboundPassthroughClusterIpv4")
    || bytes_eq c (codes "InboundPassthroughClusterIpv6")

-- The path of a field of the first service of the cluster.
abbrev service_path : String → List String
service_path field =
    "cluster_metadata" ∷ "filter_metadata" ∷ "istio" ∷ "services" ∷ "0" ∷ field ∷ []

module _ (host : Properties) where
  -- `getServiceNameFallback`
  unfoldable pub get_service_name_fallback : Bytes
  get_service_name_fallback = elim (host.pairs ("node" ∷ "metadata" ∷ "LABELS" ∷ [])) [
    | none ↦ codes "unknown"
    | some ps ↦ find_canonical ps
  ]

  -- The first lines of `populateDestinationService`.
  unfoldable pub destination_host : Bool → Bool → Bytes → Bytes
  destination_host outbound use_host_header url_host =
      if use_host_header
      then url_host
      else (if outbound then codes "unknown" else get_service_name_fallback)

  -- What `populateDestinationService` leaves in the name and the host of the service, from the host
  -- so far, the name before, the route and the cluster.
  unfoldable pub destination_service : Bytes → Bytes → Bytes → Bytes × Bytes
  destination_service service_host route cluster =
      if bytes_eq route (codes "block_all")
      then (codes "BlackHoleCluster", service_host)
      else (if bytes_eq route (codes "allow_any")
          then (codes "PassthroughCluster", service_host)
          else (if is_named_cluster cluster
              then (cluster, service_host)
              else elim (host.string (service_path "name")) [
                | some name ↦ (name, get_value (host.string (service_path "host")) service_host)
                | none ↦ (service_host, service_host)
              ]))

  -- `populateDestinationService`
  unfoldable pub populate_destination_service : Bool → Bool → RequestInfo → RequestInfo
  populate_destination_service outbound use_host_header r =
      let (name, service_host) =
        destination_service (destination_host outbound use_host_header r.url_host) r.route_name
          r.upstream_cluster in
      record r { destination_service_name = name; destination_service_host = service_host }

  -- The branch on the direction in `populateRequestInfo`.
  unfoldable pub populate_peers : Bool → RequestInfo → RequestInfo
  populate_peers true r = record r {
    destination_principal =
        get_value (host.string ("upstream" ∷ "uri_san_peer_certificate" ∷ []))
          r.destination_principal;
    source_principal =
        get_value (host.string ("upstream" ∷ "uri_san_local_certificate" ∷ [])) r.source_principal;
    destination_port = get_value (host.number ("upstream" ∷ "port" ∷ [])) 0 % 2 ^ 32;
  }
  populate_peers false r = record r {
    service_auth_policy = elim (host.bool ("connection" ∷ "mtls" ∷ [])) [
      | none ↦ r.service_auth_policy
      | some mtls ↦ if mtls then mutual_tls else none_policy
    ];
    destination_principal =
        get_value (host.string ("connection" ∷ "uri_san_local_certificate" ∷ []))
          r.destination_principal;
    source_principal =
        get_value (host.string ("connection" ∷ "uri_san_peer_certificate" ∷ [])) r.source_principal;
    destination_port = get_value (host.number ("destination" ∷ "port" ∷ [])) 0 % 2 ^ 32;
  }

  -- `populateRequestInfo`
  unfoldable pub populate_request_info : Bool → Bool → RequestInfo → RequestInfo
  populate_request_info outbound use_host_header_fallback r =
      if r.is_populated
      then r
      else populate_peers outbound (
          populate_destination_service outbound use_host_header_fallback (record r {
            is_populated = true;
            upstream_cluster = get_value (host.string ("cluster_name" ∷ [])) r.upstream_cluster;
            route_name = get_value (host.string ("route_name" ∷ [])) r.route_name;
          }))

  -- `parseResponseFlag` of the flags, when they can be read.
  abbrev read_flags : Bytes → Bytes
  read_flags old = elim (host.number ("response" ∷ "flags" ∷ [])) [
    | none ↦ old
    | some flags ↦ parse_response_flag flags
  ]

  -- `populateTCPRequestInfo`
  unfoldable pub populate_tcp_request_info : Bool → RequestInfo → RequestInfo
  populate_tcp_request_info outbound r =
      let r' = populate_request_info outbound false r in
      record r' { response_flag = read_flags r'.response_flag; request_protocol = tcp }

  abbrev is_grpc_content_type : Bytes → Bool
  is_grpc_content_type t =
      bytes_eq t (codes "application/grpc")
      || bytes_eq t (codes "application/grpc+proto")
      || bytes_eq t (codes "application/grpc+json")

  -- `populateRequestProtocol`
  unfoldable pub populate_request_protocol : RequestInfo → RequestInfo
  populate_request_protocol r = record r {
    request_protocol = if is_grpc_content_type (host.header "content-type") then grpc else http;
  }

  module _ (lib : TextLib) where
    -- The numbers of "x,y", which `absl::SimpleAtoi` writes; the second is read only when the first
    -- is one.
    unfoldable pub read_counts : List Bytes → ℕ → ℕ → Bool × ℕ × ℕ
    read_counts (x ∷ y ∷ []) requests responses =
        let (read_x, requests') = lib.simple_atoi x requests in
        let (read_y, responses') = lib.simple_atoi y responses in
        if read_x then (read_y, requests', responses') else (false, requests', responses)
    read_counts parts requests responses = (false, requests, responses)

    -- `populateGRPCInfo`
    unfoldable pub populate_grpc_info : RequestInfo → Bool × RequestInfo
    populate_grpc_info r =
        elim (host.string ("filter_state" ∷ "envoy.filters.http.grpc_stats" ∷ [])) [
          | none ↦ (false, r)
          | some value ↦
              let (filled, requests, responses) =
                read_counts (lib.str_split 44 value) r.request_message_count
                  r.response_message_count in
              (
                filled,
                record r { request_message_count = requests; response_message_count = responses },
              )
        ]

    -- The part of `populateHTTPRequestInfo` for gRPC.
    unfoldable pub populate_grpc_status : RequestInfo → RequestInfo
    populate_grpc_status r =
        if is_grpc r.request_protocol
        then (let (filled, r') = populate_grpc_info (record r {
          grpc_status = get_value (host.number ("response" ∷ "grpc_status" ∷ [])) 2 % 2 ^ 32;
        }) in
            r')
        else r

    abbrev read_code : ℕ → ℕ
    read_code old = elim (host.number ("response" ∷ "code" ∷ [])) [
      | none ↦ old
      | some code ↦ code % 2 ^ 32
    ]

    -- `populateHTTPRequestInfo`
    unfoldable pub populate_http_request_info : Bool → Bool → RequestInfo → RequestInfo
    populate_http_request_info outbound use_host_header_fallback r =
        let r₁ = populate_request_protocol r in
        let r₂ = populate_request_info outbound use_host_header_fallback (record r₁ {
          url_path = get_value (host.string ("request" ∷ "url_path" ∷ [])) r₁.url_path;
        }) in
        let r₃ = populate_grpc_status (record r₂ {
          response_code = read_code r₂.response_code;
          response_flag = read_flags r₂.response_flag;
        }) in
        record r₃ {
          request_operation =
              get_value (host.string ("istio_operationId" ∷ [])) (host.header ":method");
          start_time = get_value (host.number ("request" ∷ "time" ∷ [])) r₃.start_time;
          duration = get_value (host.number ("request" ∷ "duration" ∷ [])) r₃.duration;
          request_size = get_value (host.number ("request" ∷ "total_size" ∷ [])) r₃.request_size;
          response_size = get_value (host.number ("response" ∷ "total_size" ∷ [])) r₃.response_size;
        }
