-- ===== src/Stats/Traffic.antt =====
-- The bytes of TCP streams that extensions/stats counts and reports, in either direction.
use mathlib.Core.Option.{some-injective, none-ne-some}
use wasm_extensions.Prelude.{
  ℕ, ◌+◌, ◌≡◌, ap, ◌∙◌, sym, Bytes, Bool, true, false, not, ◌&&◌, List, [], ◌∷◌, ◌++◌, Option, some,
  inl, inr, if◌then◌else◌, arith, Bool-cases, Option-cases,
}
use wasm_extensions.Common.Properties.{Properties, TextLib}
use wasm_extensions.Common.Request.{RequestInfo, is_grpc, is_tcp}
use wasm_extensions.Common.Populate.{
  populate_request_info, populate_peers, populate_destination_service, populate_tcp_request_info,
  populate_http_request_info, populate_grpc_info, populate_grpc_status, populate_request_protocol,
}
use wasm_extensions.Stats.Metrics.{
  Extractor, tcp_sent, tcp_received, extract, SimpleStat, Recorded, record_stat, StatGen,
  matches_protocol, resolve,
}
use wasm_extensions.Stats.Report.{
  Libs, Env, Root, record_if_due, record_hit, record_miss, record_metrics, populate,
  report_initialized, report, find_metrics, peer_keys,
}
use wasm_extensions.Common.Peer.{PeerNodeInfo, peer_node_info, maybe_waiting}

pub data Direction : Type 0 where
  sent received : Direction

-- The bytes that wait in a request.
abbrev pub pending : Direction → RequestInfo → ℕ
pending sent r = r.tcp_sent_bytes
pending received r = r.tcp_received_bytes

abbrev pub counts : Direction → Extractor → Bool
counts sent tcp_sent = true
counts received tcp_received = true
counts d e = false

-- The bytes that are reported.
abbrev pub reported : Direction → List Recorded → ℕ
reported d [] = 0
reported d (x ∷ xs) =
    let rest = reported d xs in (if counts d x.stat.value_fn then x.value else 0) + rest

reported-append :
    (d : Direction) (xs ys : List Recorded) → reported d (xs ++ ys) ≡ reported d xs + reported d ys
reported-append d [] ys = omega arith
reported-append d (x ∷ xs) ys = omega (arith, reported-append d xs ys)

-- An extractor of the bytes takes all of them, and no other takes any.
extract-pending :
    (d : Direction) (evaluate : ℕ → Option ℕ) (e : Extractor) (r : RequestInfo)
    → (if counts d e then (extract evaluate e r).0 else 0) + pending d (extract evaluate e r).1
      ≡ pending d r
unfolding extract
extract-pending sent evaluate tcp_sent r = omega arith
extract-pending received evaluate tcp_received r = omega arith
extract-pending sent evaluate e r = ground arith
extract-pending received evaluate e r = ground arith

record_stat-pending :
    (d : Direction) (evaluate : ℕ → Option ℕ) (stat : SimpleStat) (r : RequestInfo)
    → reported d (record_stat evaluate stat r).0 + pending d (record_stat evaluate stat r).1
      ≡ pending d r
unfolding record_stat
record_stat-pending d evaluate stat r = ground (arith, extract-pending d evaluate stat.value_fn r)

module _ (host : Properties) where
  populate_request_info-pending :
      (d : Direction) (outbound fallback : Bool) (r : RequestInfo)
      → pending d (populate_request_info host outbound fallback r) ≡ pending d r
  unfolding populate_request_info populate_peers populate_destination_service
  populate_request_info-pending sent true fallback r = ground arith
  populate_request_info-pending sent false fallback r = ground arith
  populate_request_info-pending received true fallback r = ground arith
  populate_request_info-pending received false fallback r = ground arith

  populate_tcp-pending :
      (d : Direction) (outbound : Bool) (r : RequestInfo)
      → pending d (populate_tcp_request_info host outbound r) ≡ pending d r
  unfolding populate_tcp_request_info
  populate_tcp-pending sent outbound r = populate_request_info-pending sent outbound false r
  populate_tcp-pending received outbound r = populate_request_info-pending received outbound false r

  populate_grpc-pending :
      (lib : TextLib) (d : Direction) (r : RequestInfo)
      → pending d (populate_grpc_info host lib r).1 ≡ pending d r
  unfolding populate_grpc_info
  populate_grpc-pending lib sent r = ground arith
  populate_grpc-pending lib received r = ground arith

  populate_grpc_status-pending :
      (lib : TextLib) (d : Direction) (r : RequestInfo)
      → pending d (populate_grpc_status host lib r) ≡ pending d r
  unfolding populate_grpc_status populate_grpc_info
  populate_grpc_status-pending lib sent r = ground arith
  populate_grpc_status-pending lib received r = ground arith

  populate_http-pending :
      (lib : TextLib) (d : Direction) (outbound fallback : Bool) (r : RequestInfo)
      → pending d (populate_http_request_info host lib outbound fallback r) ≡ pending d r
  unfolding populate_http_request_info populate_request_protocol
  populate_http-pending lib sent outbound fallback r =
      populate_grpc_status-pending lib sent _
      ∙ populate_request_info-pending sent outbound fallback _
  populate_http-pending lib received outbound fallback r =
      populate_grpc_status-pending lib received _
      ∙ populate_request_info-pending received outbound fallback _

module _ (libs : Libs) (env : Env) where
  record_if_due-pending :
      (d : Direction) (end_stream : Bool) (stat : SimpleStat) (r : RequestInfo)
      → reported d (record_if_due libs env end_stream stat r).0
          + pending d (record_if_due libs env end_stream stat r).1
        ≡ pending d r
  unfolding record_if_due
  record_if_due-pending d end_stream stat r =
      ground (arith, record_stat-pending d env.evaluate_int stat r)

  record_hit-pending :
      (d : Direction) (end_stream : Bool) (stats : List SimpleStat) (r : RequestInfo)
      → reported d (record_hit libs env end_stream stats r).0
          + pending d (record_hit libs env end_stream stats r).1
        ≡ pending d r
  unfolding record_hit
  record_hit-pending d end_stream [] r = omega arith
  record_hit-pending d end_stream (stat ∷ stats) r = omega (
    arith,
    reported-append d (record_if_due libs env end_stream stat r).0
        (record_hit libs env end_stream stats (record_if_due libs env end_stream stat r).1).0,
    record_if_due-pending d end_stream stat r,
    record_hit-pending d end_stream stats (record_if_due libs env end_stream stat r).1,
  )

  record_miss-pending :
      (d : Direction) (end_stream : Bool) (dims : List Bytes) (gs : List StatGen) (r : RequestInfo)
      → reported d (record_miss libs env end_stream dims gs r).0
          + pending d (record_miss libs env end_stream dims gs r).1
        ≡ pending d r
  unfolding record_miss
  record_miss-pending d end_stream dims [] r = omega arith
  record_miss-pending d end_stream dims (g ∷ gs) r =
      let stat = resolve libs.resolve_full_name g dims in
      elim (Bool-cases (matches_protocol g r.request_protocol)) [
        | inr e ↦ rw (e, record_miss) (record_miss-pending d end_stream dims gs r)
        | inl e ↦
            rw (e, record_miss)
              (omega (
                arith,
                reported-append d (record_if_due libs env end_stream stat r).0
                    (record_miss libs env end_stream dims gs
                      (record_if_due libs env end_stream stat r).1).0,
                record_if_due-pending d end_stream stat r,
                record_miss-pending d end_stream dims gs
                    (record_if_due libs env end_stream stat r).1,
              ))
      ]

  record_metrics-pending :
      (d : Direction) (end_stream : Bool) (r : RequestInfo) (root : Root)
      → reported d (record_metrics libs env end_stream r root).0
          + pending d (record_metrics libs env end_stream r root).1
        ≡ pending d r
  unfolding record_metrics
  record_metrics-pending d end_stream r root =
      elim (Option-cases (find_metrics root.istio_dimensions root.metrics)) [
        | inl e ↦
            rw (e, record_metrics)
              (record_miss-pending d end_stream root.istio_dimensions root.stats r)
        | inr (stats, e) ↦ rw (e, record_metrics) (record_hit-pending d end_stream stats r)
      ]

  from_some : (d : Direction) (s t : RequestInfo) → some t ≡ some s → pending d s ≡ pending d t
  from_some d s t e = ap (pending d) (sym (some-injective t s e))

  -- The request as it is before the end of a stream that is not TCP.
  abbrev early : Root → RequestInfo → RequestInfo
  early root r = populate_request_info env.properties root.outbound root.use_host_header_fallback r

  populate-pending :
      (d : Direction) (root : Root) (peer : PeerNodeInfo) (r s : RequestInfo) (end_stream : Bool)
      → populate libs env root peer r end_stream ≡ some s
      → pending d s ≡ pending d r
  unfolding populate
  populate-pending d root peer r s end_stream e = elim (Bool-cases (is_tcp r.request_protocol)) [
    | inl t ↦ elim (Bool-cases (maybe_waiting peer && not end_stream)) [
      | inl w ↦ absurd (none-ne-some s (rw (t, w, populate) at e))
      | inr w ↦
          from_some d s _ (rw (t, w, populate) at e)
          ∙ populate_tcp-pending env.properties d root.outbound r
    ]
    | inr t ↦ elim (Bool-cases end_stream) [
      | inl w ↦
          from_some d s _ (rw (t, w, populate) at e)
          ∙ populate_http-pending env.properties libs.text d root.outbound
              root.use_host_header_fallback r
      | inr w ↦ elim (Bool-cases (is_grpc (early root r).request_protocol)) [
        | inl g ↦
            from_some d s _ (rw (t, w, g, populate) at e)
            ∙ populate_grpc-pending env.properties libs.text d (early root r)
            ∙ early-pending
        | inr g ↦ from_some d s _ (rw (t, w, g, populate) at e) ∙ early-pending
      ]
    ]
  ]
    where
      early-pending : pending d (early root r) ≡ pending d r
      early-pending =
          populate_request_info-pending env.properties d root.outbound root.use_host_header_fallback
            r

  report_initialized-pending :
      (d : Direction) (end_stream : Bool) (r : RequestInfo) (root : Root)
      → reported d (report_initialized libs env end_stream r root).0
          + pending d (report_initialized libs env end_stream r root).1
        ≡ pending d r
  unfolding report_initialized
  report_initialized-pending d end_stream r root =
      let peer = peer_node_info env.properties libs.text libs.flat (peer_keys root) in
      elim (Option-cases (populate libs env root peer r end_stream)) [
        | inl n ↦ rw (n, report_initialized) (omega arith)
        | inr (s, n) ↦
            rw (n, report_initialized)
              (record_metrics-pending d end_stream s _
                ∙ populate-pending d root peer r s end_stream n)
      ]

  -- One report moves bytes from the request to the records, and loses none.
  pub report-pending :
      (d : Direction) (end_stream : Bool) (r : RequestInfo) (root : Root)
      → reported d (report libs env end_stream r root).0
          + pending d (report libs env end_stream r root).1
        ≡ pending d r
  unfolding report
  report-pending d end_stream r root =
      ground (arith, report_initialized-pending d end_stream r root)
