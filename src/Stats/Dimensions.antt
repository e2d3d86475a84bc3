-- ===== src/Stats/Dimensions.antt =====
-- The functions of extensions/stats/plugin.cc that fill in the dimensions of a report.
use wasm_extensions.Prelude.{
  ℕ, zero, suc, Bytes, codes, Bool, true, false, not, List, [], ◌∷◌, Option, none, some,
  if◌then◌else◌, is_empty,
}
use wasm_extensions.ResponseFlag.{to_string}
use wasm_extensions.Common.Properties.{get_value}
use wasm_extensions.Common.Request.{
  RequestInfo, is_grpc, protocol_string, authentication_policy_string,
}
use wasm_extensions.Common.Populate.{canonical_service_label}
use wasm_extensions.Common.Peer.{FlatNode, canonical_revision_label}
use wasm_extensions.Stats.Labels.{
  source_workload, source_workload_namespace, source_principal, source_app, source_version,
  source_canonical_service, source_canonical_revision, source_cluster, destination_workload,
  destination_workload_namespace, destination_principal, destination_app, destination_version,
  destination_service, destination_service_name, destination_service_namespace,
  destination_canonical_service, destination_canonical_revision, destination_cluster,
  request_protocol, response_flags, connection_security_policy, response_code, grpc_response_status,
  count_standard_labels, set_at, set_all,
}

-- `GetFromFbStringView`
abbrev pub view : Option Bytes → Bytes
view s = get_value s []

-- The value of a label; a missing entry has none.
abbrev label_value : Option (Option Bytes) → Bytes
label_value none = []
label_value (some v) = view v

-- What `map_node` reads of a node for the application, the version, the canonical service and the
-- canonical revision.
unfoldable pub node_labels : FlatNode → Bytes × Bytes × Bytes × Bytes
node_labels node = elim node.labels [
  | none ↦ ([], [], [], codes "latest")
  | some look_up ↦ (
    label_value (look_up (codes "app")),
    label_value (look_up (codes "version")),
    view (get_value (look_up canonical_service_label) node.workload_name),
    elim (look_up canonical_revision_label) [ none ↦ codes "latest" | some v ↦ view v ],
  )
]

-- `map_node`
unfoldable pub map_node : Bool → FlatNode → List Bytes → List Bytes
map_node true node =
    let (app, version, service, revision) = node_labels node in
    set_all (
      (source_workload, view node.workload_name)
      ∷ (source_workload_namespace, view node.namespace)
      ∷ (source_cluster, view node.cluster_id)
      ∷ (source_app, app)
      ∷ (source_version, version)
      ∷ (source_canonical_service, service)
      ∷ (source_canonical_revision, revision)
      ∷ [])
map_node false node =
    let (app, version, service, revision) = node_labels node in
    set_all (
      (destination_workload, view node.workload_name)
      ∷ (destination_workload_namespace, view node.namespace)
      ∷ (destination_cluster, view node.cluster_id)
      ∷ (destination_app, app)
      ∷ (destination_version, version)
      ∷ (destination_canonical_service, service)
      ∷ (destination_canonical_revision, revision)
      ∷ (destination_service_namespace, view node.namespace)
      ∷ [])

-- `map_peer`
unfoldable pub map_peer : Bool → FlatNode → List Bytes → List Bytes
map_peer outbound = map_node (not outbound)

unfoldable pub or_unknown : Bytes → Bytes
or_unknown s = if is_empty s then codes "unknown" else s

-- `map_unknown_if_empty`, over the first `count` dimensions.
abbrev pub unknown_if_empty : ℕ → List Bytes → List Bytes
unknown_if_empty zero xs = xs
unknown_if_empty (suc count) [] = []
unknown_if_empty (suc count) (x ∷ xs) = or_unknown x ∷ unknown_if_empty count xs

unfoldable pub map_unknown_if_empty : List Bytes → List Bytes
map_unknown_if_empty = unknown_if_empty count_standard_labels

module _ (ascii_str_to_lower : Bytes → Bytes) where
  -- `map_request`
  unfoldable pub map_request : RequestInfo → List Bytes → List Bytes
  map_request request = set_all (
      (source_principal, request.source_principal)
      ∷ (destination_principal, request.destination_principal)
      ∷ (destination_service, request.destination_service_host)
      ∷ (destination_service_name, request.destination_service_name)
      ∷ (request_protocol, protocol_string request.request_protocol)
      ∷ (response_code, to_string request.response_code)
      ∷ (response_flags, request.response_flag)
      ∷ (
        connection_security_policy,
        ascii_str_to_lower (authentication_policy_string request.service_auth_policy),
      )
      ∷ [])

  -- `map`
  unfoldable pub map_dimensions : Bool → FlatNode → RequestInfo → List Bytes → List Bytes
  map_dimensions outbound peer_node request dims =
      set_at grpc_response_status
        (if is_grpc request.request_protocol then to_string request.grpc_status else [])
        (map_unknown_if_empty (map_request request (map_peer outbound peer_node dims)))
