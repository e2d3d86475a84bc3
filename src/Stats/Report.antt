-- ===== src/Stats/Report.antt =====
-- The root context of extensions/stats/plugin.{h,cc} while streams run: `report`, the queue of
-- requests and `onTick`. Which functions of libraries and of the host it uses are `Libs` and `Env`.
use wasm_extensions.Prelude.{
  ℕ, ◌+◌, ◌==◌, Bytes, bytes_eq, codes, Bool, true, false, not, ◌&&◌, ◌||◌, List, [], ◌∷◌, ◌++◌,
  Option, none, some, if◌then◌else◌,
}
use wasm_extensions.Common.Properties.{Properties, get_value, TextLib}
use wasm_extensions.Common.Request.{RequestInfo, is_grpc, is_tcp}
use wasm_extensions.Common.Populate.{
  populate_request_info, populate_tcp_request_info, populate_http_request_info, populate_grpc_info,
}
use wasm_extensions.Common.Peer.{
  FlatNode, FlatBuffers, PeerKeys, upstream_keys, downstream_keys, PeerNodeInfo, peer_node_info,
  maybe_waiting,
}
use wasm_extensions.Stats.Labels.{count_standard_labels, set_at}
use wasm_extensions.Stats.Dimensions.{map_dimensions}
use wasm_extensions.Stats.Metrics.{
  SimpleStat, Recorded, record_stat, StatGen, matches_protocol, resolve,
}

pub record Libs : Type 0 where
  pub text : TextLib
  pub flat : FlatBuffers
  pub ascii_str_to_lower : Bytes → Bytes
  pub resolve_full_name : Bytes → ℕ

-- What the host gives for one stream at one time: its properties, and the results of
-- `evaluateExpression` into a string and into an `int64_t`.
pub record Env : Type 0 where
  pub properties : Properties
  pub evaluate_string : ℕ → Option Bytes
  pub evaluate_int : ℕ → Option ℕ

-- The members of `PluginRootContext`, with the values of its two counters. An entry of
-- `request_queue` is the identifier of a stream, whose `request_info_` the source points to.
pub record Root : Type 0 where
  pub local_node_info : FlatNode
  pub istio_dimensions : List Bytes
  pub expressions : List (ℕ × Bytes)
  pub input_expressions : List (Bytes × ℕ)
  pub int_expressions : List ℕ
  pub outbound : Bool
  pub use_host_header_fallback : Bool
  pub cache_hits_accumulator : ℕ
  pub cache_hits : ℕ
  pub cache_misses : ℕ
  pub metrics : List (List Bytes × List SimpleStat)
  pub request_queue : List ℕ
  pub stats : List StatGen
  pub initialized : Bool

-- `operator==` on vectors of strings, and `find` in `metrics_`.
unfoldable pub dims_eq : List Bytes → List Bytes → Bool
dims_eq [] [] = true
dims_eq (x ∷ xs) (y ∷ ys) = bytes_eq x y && dims_eq xs ys
dims_eq xs ys = false

unfoldable pub find_metrics {ℓ} : {V : Type ℓ} → List Bytes → List (List Bytes × V) → Option V
find_metrics k [] = none
find_metrics k ((l, v) ∷ rest) =
    let found = find_metrics k rest in if dims_eq k l then some v else found

-- The keys that the constructor sets.
abbrev pub peer_keys : Root → PeerKeys
peer_keys root = if root.outbound then upstream_keys else downstream_keys

-- `cache_hits_accumulator_`, flushed to the counter by the hundred.
unfoldable pub count_hit : Root → Root
count_hit root =
    let hits = root.cache_hits_accumulator + 1 in
    if hits == 100
    then record root { cache_hits = root.cache_hits + hits; cache_hits_accumulator = 0 }
    else record root { cache_hits_accumulator = hits }

module _ (libs : Libs) (env : Env) where
  -- The evaluation of the expressions into the dimensions from index `i` on.
  unfoldable pub evaluate_expressions : ℕ → List (ℕ × Bytes) → List Bytes → List Bytes
  evaluate_expressions i [] dims = dims
  evaluate_expressions i ((token, e) ∷ es) dims =
      evaluate_expressions (i + 1) es
        (set_at i (get_value (env.evaluate_string token) (codes "unknown")) dims)

  -- A statistic is recorded at the end of a stream, and before it when it is recurrent.
  unfoldable pub record_if_due : Bool → SimpleStat → RequestInfo → List Recorded × RequestInfo
  record_if_due end_stream stat r =
      if end_stream || stat.recurrent then record_stat env.evaluate_int stat r else ([], r)

  -- The loop over the statistics of a cache entry.
  unfoldable pub record_hit : Bool → List SimpleStat → RequestInfo → List Recorded × RequestInfo
  record_hit end_stream [] r = ([], r)
  record_hit end_stream (stat ∷ stats) r =
      let (now, r') = record_if_due end_stream stat r in
      let (later, r'') = record_hit end_stream stats r' in (now ++ later, r'')

  -- The loop over the generators, with the statistics that it collects.
  unfoldable pub record_miss :
      Bool → List Bytes → List StatGen → RequestInfo → List Recorded × RequestInfo × List SimpleStat
  record_miss end_stream dims [] r = ([], r, [])
  record_miss end_stream dims (g ∷ gs) r =
      if not (matches_protocol g r.request_protocol)
      then record_miss end_stream dims gs r
      else (let stat = resolve libs.resolve_full_name g dims in
          let (now, r') = record_if_due end_stream stat r in
          let (later, r'', stats) = record_miss end_stream dims gs r' in
          (now ++ later, r'', stat ∷ stats))

  -- The first part of `report`: the request filled in, or none while metadata may still arrive.
  unfoldable pub populate : Root → PeerNodeInfo → RequestInfo → Bool → Option RequestInfo
  populate root peer r end_stream =
      if is_tcp r.request_protocol
      then (if maybe_waiting peer && not end_stream
          then none
          else some (populate_tcp_request_info env.properties root.outbound r))
      else (if end_stream
          then some (
              populate_http_request_info env.properties libs.text root.outbound
                root.use_host_header_fallback r)
          else (let r' =
                populate_request_info env.properties root.outbound root.use_host_header_fallback
                  r in
              if is_grpc r'.request_protocol
              then some (populate_grpc_info env.properties libs.text r').1
              else some r'))

  -- The second part of `report`: the records of the dimensions, from the cache or not.
  unfoldable pub record_metrics : Bool → RequestInfo → Root → List Recorded × RequestInfo × Root
  record_metrics end_stream r root = elim (find_metrics root.istio_dimensions root.metrics) [
    | some stats ↦ let (out, r') = record_hit end_stream stats r in (out, r', count_hit root)
    | none ↦
        let (out, r', stats) = record_miss end_stream root.istio_dimensions root.stats r in
        (
          out,
          r',
          record root {
            cache_misses = root.cache_misses + 1;
            metrics = (root.istio_dimensions, stats) ∷ root.metrics;
          },
        )
  ]

  -- The dimensions of a report.
  unfoldable pub report_dimensions : Root → FlatNode → RequestInfo → List Bytes
  report_dimensions root peer_node r =
      evaluate_expressions count_standard_labels root.expressions
        (map_dimensions libs.ascii_str_to_lower root.outbound peer_node r root.istio_dimensions)

  -- `report`, once the plugin is initialized.
  unfoldable pub report_initialized : Bool → RequestInfo → Root → List Recorded × RequestInfo × Root
  report_initialized end_stream r root =
      let peer = peer_node_info env.properties libs.text libs.flat (peer_keys root) in
      elim (populate root peer r end_stream) [
        | none ↦ ([], r, root)
        | some r' ↦
            record_metrics end_stream r'
              (record root { istio_dimensions = report_dimensions root peer.node r' })
      ]

  -- `report`
  unfoldable pub report : Bool → RequestInfo → Root → List Recorded × RequestInfo × Root
  report end_stream r root =
      if not root.initialized then ([], r, root) else report_initialized end_stream r root

-- The queue without an identifier.
unfoldable pub others : ℕ → List ℕ → List ℕ
others id [] = []
others id (j ∷ js) = let rest = others id js in if j == id then rest else j ∷ rest

-- `addToRequestQueue`
unfoldable pub add_to_request_queue : ℕ → Root → Root
add_to_request_queue id root = record root { request_queue = id ∷ others id root.request_queue }

-- `deleteFromRequestQueue`
unfoldable pub delete_from_request_queue : ℕ → Root → Root
delete_from_request_queue id root = record root { request_queue = others id root.request_queue }
