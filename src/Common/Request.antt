-- ===== src/Common/Request.antt =====
-- The types and constants of extensions/common/context.h, and the names of context.cc for them.
use wasm_extensions.Prelude.{ℕ, Bytes, codes, Bool, true, false, []}

pub data ServiceAuthenticationPolicy : Type 0 where
  unspecified_policy none_policy mutual_tls : ServiceAuthenticationPolicy

pub data TcpConnectionState : Type 0 where
  unspecified_state open_state connected_state close_state : TcpConnectionState

pub data Protocol : Type 0 where
  unspecified tcp http grpc : Protocol

-- The value of the enumerator, a mask.
abbrev pub protocol_mask : Protocol → ℕ
protocol_mask unspecified = 0
protocol_mask tcp = 1
protocol_mask http = 2
protocol_mask grpc = 4

abbrev pub is_grpc : Protocol → Bool
is_grpc grpc = true
is_grpc p = false

abbrev pub is_tcp : Protocol → Bool
is_tcp tcp = true
is_tcp p = false

-- `AuthenticationPolicyString`
unfoldable pub authentication_policy_string : ServiceAuthenticationPolicy → Bytes
authentication_policy_string none_policy = codes "NONE"
authentication_policy_string mutual_tls = codes "MUTUAL_TLS"
authentication_policy_string p = []

-- `TCPConnectionStateString`
unfoldable pub tcp_connection_state_string : TcpConnectionState → Bytes
tcp_connection_state_string open_state = codes "OPEN"
tcp_connection_state_string connected_state = codes "CONNECTED"
tcp_connection_state_string close_state = codes "CLOSE"
tcp_connection_state_string s = []

-- `ProtocolString`
unfoldable pub protocol_string : Protocol → Bytes
protocol_string tcp = codes "tcp"
protocol_string http = codes "http"
protocol_string grpc = codes "grpc"
protocol_string p = []

-- `RequestInfo`
pub record RequestInfo : Type 0 where
  pub start_time : ℕ
  pub duration : ℕ
  pub request_size : ℕ
  pub response_size : ℕ
  pub destination_port : ℕ
  pub source_port : ℕ
  pub request_protocol : Protocol
  pub response_code : ℕ
  pub grpc_status : ℕ
  pub response_flag : Bytes
  pub destination_service_host : Bytes
  pub destination_service_name : Bytes
  pub request_operation : Bytes
  pub upstream_transport_failure_reason : Bytes
  pub service_auth_policy : ServiceAuthenticationPolicy
  pub source_principal : Bytes
  pub destination_principal : Bytes
  pub connection_id : ℕ
  pub source_address : Bytes
  pub destination_address : Bytes
  pub response_details : Bytes
  pub route_name : Bytes
  pub upstream_host : Bytes
  pub upstream_cluster : Bytes
  pub requested_server_name : Bytes
  pub x_envoy_original_path : Bytes
  pub x_envoy_original_dst_host : Bytes
  pub referer : Bytes
  pub user_agent : Bytes
  pub request_id : Bytes
  pub b3_trace_id : Bytes
  pub b3_span_id : Bytes
  pub b3_trace_sampled : Bool
  pub path : Bytes
  pub url_path : Bytes
  pub url_host : Bytes
  pub url_scheme : Bytes
  pub tcp_connections_opened : ℕ
  pub tcp_connections_closed : ℕ
  pub tcp_sent_bytes : ℕ
  pub tcp_received_bytes : ℕ
  pub tcp_total_sent_bytes : ℕ
  pub tcp_total_received_bytes : ℕ
  pub tcp_connection_state : TcpConnectionState
  pub is_populated : Bool
  pub log_sampled : Bool
  pub request_message_count : ℕ
  pub response_message_count : ℕ
  pub last_request_message_count : ℕ
  pub last_response_message_count : ℕ

-- A `RequestInfo` as a stream starts with it. Three numbers have no initializer.
abbrev pub new_request : ℕ → ℕ → ℕ → RequestInfo
new_request start duration connection = record {
  start_time = start;
  duration = duration;
  request_size = 0;
  response_size = 0;
  destination_port = 0;
  source_port = 0;
  request_protocol = unspecified;
  response_code = 0;
  grpc_status = 2;
  response_flag = [];
  destination_service_host = [];
  destination_service_name = [];
  request_operation = [];
  upstream_transport_failure_reason = [];
  service_auth_policy = unspecified_policy;
  source_principal = [];
  destination_principal = [];
  connection_id = connection;
  source_address = [];
  destination_address = [];
  response_details = [];
  route_name = [];
  upstream_host = [];
  upstream_cluster = [];
  requested_server_name = [];
  x_envoy_original_path = [];
  x_envoy_original_dst_host = [];
  referer = [];
  user_agent = [];
  request_id = [];
  b3_trace_id = [];
  b3_span_id = [];
  b3_trace_sampled = false;
  path = [];
  url_path = [];
  url_host = [];
  url_scheme = [];
  tcp_connections_opened = 0;
  tcp_connections_closed = 0;
  tcp_sent_bytes = 0;
  tcp_received_bytes = 0;
  tcp_total_sent_bytes = 0;
  tcp_total_received_bytes = 0;
  tcp_connection_state = unspecified_state;
  is_populated = false;
  log_sampled = false;
  request_message_count = 0;
  response_message_count = 0;
  last_request_message_count = 0;
  last_response_message_count = 0;
}
