-- ===== src/Common/Peer.antt =====
-- The nodes of extensions/common/context.cc: the local one, and the peer's (`PeerNodeInfo`).
use wasm_extensions.Prelude.{
  Bytes, bytes_eq, codes, Bool, true, false, not, ◌&&◌, List, [], ◌∷◌, ◌++◌, Option, none, some,
  if◌then◌else◌, is_empty, String,
}
use wasm_extensions.Common.Properties.{Properties, get_value, TextLib}
use wasm_extensions.Common.Populate.{canonical_service_label}

-- The accessors of a FlatBuffers `FlatNode` that the extensions call. `labels` is what `LookupByKey`
-- gives: an entry, whose value may be missing.
pub record FlatNode : Type 0 where
  pub name : Option Bytes
  pub namespace : Option Bytes
  pub owner : Option Bytes
  pub workload_name : Option Bytes
  pub istio_version : Option Bytes
  pub mesh_id : Option Bytes
  pub cluster_id : Option Bytes
  pub labels : Option (Bytes → Option (Option Bytes))
  pub platform_metadata : Option (Bytes → Option (Option Bytes))
  pub app_containers : List Bytes
  pub instance_ips : List Bytes

-- The FlatBuffers library: `GetRoot` on the bytes of a node, and `LookupByKey` on the vector that
-- `CreateVectorOfSortedTables` builds of keys and values.
pub record FlatBuffers : Type 0 where
  pub get_root : Bytes → FlatNode
  pub sorted_tables : List (Bytes × Bytes) → Bytes → Option (Option Bytes)

-- `extractEmptyNodeFlatBuffer`
abbrev pub empty_node : FlatNode
empty_node = record {
  name = none;
  namespace = none;
  owner = none;
  workload_name = none;
  istio_version = none;
  mesh_id = none;
  cluster_id = none;
  labels = none;
  platform_metadata = none;
  app_containers = [];
  instance_ips = [];
}

abbrev pub canonical_revision_label : Bytes
canonical_revision_label = codes "service.istio.io/canonical-revision"

-- `kMetadataNotFoundValue`
abbrev pub metadata_not_found : Bytes
metadata_not_found = codes "envoy.wasm.metadata_exchange.peer_unknown"

-- Which peer a root context asks for: the keys of the identifier and of the node.
pub data PeerKeys : Type 0 where
  upstream_keys downstream_keys : PeerKeys

abbrev id_key : PeerKeys → String
id_key upstream_keys = "upstream_peer_id"
id_key downstream_keys = "downstream_peer_id"

abbrev node_key : PeerKeys → String
node_key upstream_keys = "upstream_peer"
node_key downstream_keys = "downstream_peer"

abbrev is_downstream : PeerKeys → Bool
is_downstream upstream_keys = false
is_downstream downstream_keys = true

-- `PeerNodeInfo`; `node` is what `get` returns.
pub record PeerNodeInfo : Type 0 where
  pub found : Bool
  pub peer_id : Bytes
  pub node : FlatNode

-- `maybeWaiting`
unfoldable pub maybe_waiting : PeerNodeInfo → Bool
maybe_waiting p = not p.found && not (bytes_eq p.peer_id metadata_not_found)

module _ (host : Properties) (lib : TextLib) (flat : FlatBuffers) where
  abbrev node_string : String → Option Bytes
  node_string field = host.string ("node" ∷ "metadata" ∷ field ∷ [])

  abbrev node_pairs : String → List (Bytes × Bytes)
  node_pairs field = get_value (host.pairs ("node" ∷ "metadata" ∷ field ∷ [])) []

  abbrev node_list : String → List Bytes
  node_list field = elim (node_string field) [ none ↦ [] | some v ↦ lib.str_split 44 v ]

  -- `extractLocalNodeFlatBuffer`
  unfoldable pub extract_local_node : FlatNode
  extract_local_node = record {
    name = node_string "NAME";
    namespace = node_string "NAMESPACE";
    owner = node_string "OWNER";
    workload_name = node_string "WORKLOAD_NAME";
    istio_version = node_string "ISTIO_VERSION";
    mesh_id = node_string "MESH_ID";
    cluster_id = node_string "CLUSTER_ID";
    labels = some (flat.sorted_tables (node_pairs "LABELS"));
    platform_metadata = some (flat.sorted_tables (node_pairs "PLATFORM_METADATA"));
    app_containers = node_list "APP_CONTAINERS";
    instance_ips = node_list "INSTANCE_IPS";
  }

  -- A label for a part that is not empty.
  abbrev part_label : Bytes → Bytes → List (Bytes × Bytes)
  part_label key part = if is_empty part then [] else (key, part) ∷ []

  -- The node of the parts of a workload label; fewer than five parts make none.
  unfoldable pub node_of_parts : List Bytes → Option FlatNode
  node_of_parts (workload ∷ ns ∷ service ∷ revision ∷ cluster ∷ more) = some (record empty_node {
    workload_name = some workload;
    namespace = some ns;
    cluster_id = some cluster;
    labels = some (
        flat.sorted_tables (
          part_label canonical_service_label service
          ++ part_label canonical_revision_label revision));
  })
  node_of_parts parts = none

  -- `extractPeerMetadataFromUpstreamMetadata`
  unfoldable pub extract_peer_metadata : String → Option FlatNode
  extract_peer_metadata metadata_type =
      elim (host.string (metadata_type ∷ "filter_metadata" ∷ "istio" ∷ "workload" ∷ [])) [
        | none ↦ none
        | some endpoint_labels ↦ node_of_parts (lib.str_split 59 endpoint_labels)
      ]

  -- `extractPeerMetadataFromUpstreamHostMetadata`
  unfoldable pub extract_from_host_metadata : Option FlatNode
  extract_from_host_metadata = extract_peer_metadata "upstream_host_metadata"

  -- `extractPeerMetadataFromUpstreamClusterMetadata`
  unfoldable pub extract_from_cluster_metadata : Option FlatNode
  extract_from_cluster_metadata = extract_peer_metadata "cluster_metadata"

  -- The node when the filter state has none.
  unfoldable pub fallback_node : PeerKeys → FlatNode
  fallback_node keys =
      if is_downstream keys then empty_node else get_value extract_from_host_metadata empty_node

  -- The constructor of `PeerNodeInfo`
  unfoldable pub peer_node_info : PeerKeys → PeerNodeInfo
  peer_node_info keys =
      let fallback = fallback_node keys in
      elim (host.string (id_key keys ∷ [])) [
        | none ↦ record { found = false; peer_id = []; node = fallback }
        | some id ↦
            if bytes_eq id metadata_not_found
            then record { found = false; peer_id = id; node = fallback }
            else elim (host.string (node_key keys ∷ [])) [
              | none ↦ record { found = false; peer_id = id; node = fallback }
              | some bytes ↦ record { found = true; peer_id = id; node = flat.get_root bytes }
            ]
      ]
