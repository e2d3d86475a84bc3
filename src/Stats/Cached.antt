-- ===== src/Stats/Cached.antt =====
-- The cache of resolved statistics in `report` of extensions/stats/plugin.cc, against reports that
-- resolve them anew.
use mathlib.Core.Path.{subst}
use wasm_extensions.Prelude.{
  ℕ, zero, suc, ◌+◌, ◌≤◌, ◌<◌, ◌==◌, ◌≡◌, refl, ap, ◌∙◌, sym, Bytes, bytes_eq, codes, Bool, true,
  false, not, List, [], ◌∷◌, inl, inr, if◌then◌else◌, arith, Bool-cases, Option-cases, All, get_or,
  length,
}
use wasm_extensions.Common.Properties.{get_value}
use wasm_extensions.Common.Request.{
  RequestInfo, Protocol, unspecified, tcp, http, grpc, protocol_string,
}
use wasm_extensions.Common.Peer.{FlatNode, PeerNodeInfo, peer_node_info}
use wasm_extensions.Stats.Labels.{count_standard_labels, request_protocol, set_at, length-set_at}
use wasm_extensions.Stats.Dimensions.{
  or_unknown, map_node, map_peer, map_unknown_if_empty, map_request, map_dimensions,
}
use wasm_extensions.Stats.History.{Strings, before, split_first}
use wasm_extensions.Stats.Metrics.{Recorded}
use wasm_extensions.Stats.Report.{
  Libs, Env, Root, find_metrics, evaluate_expressions, record_hit, record_metrics, count_hit,
  populate, report_dimensions, report_initialized, report, peer_keys,
}
use wasm_extensions.Stats.Resolved.{protocol_at, find_metrics-All, stats_for, record_miss-hit}

get-set_at :
    (i k : ℕ) (v : Bytes) (xs : List Bytes) → k < i → get_or (set_at i v xs) k [] ≡ get_or xs k []
get-set_at i k v [] h = refl
get-set_at zero k v (x ∷ xs) h = absurd (omega arith)
get-set_at (suc i) zero v (x ∷ xs) h = refl
get-set_at (suc i) (suc k) v (x ∷ xs) h = get-set_at i k v xs (omega arith)

module _ (lower : Bytes → Bytes) where
  mapped :
      (outbound : Bool) (node : FlatNode) (r : RequestInfo) (v : Strings 25) (rest : List Bytes)
      → (get_or (map_dimensions lower outbound node r (before 25 v rest)) request_protocol []
          ≡ or_unknown (protocol_string r.request_protocol))
        × (length (map_dimensions lower outbound node r (before 25 v rest))
            ≡ length (before 25 v rest))
  unfolding map_dimensions map_unknown_if_empty map_request map_peer map_node
  mapped true node r v rest = (refl, refl)
  mapped false node r v rest = (refl, refl)

-- The name of a protocol is read back.
protocol_read :
    (p : Protocol) (dims : List Bytes)
    → get_or dims request_protocol [] ≡ or_unknown (protocol_string p)
    → protocol_at dims ≡ p
unfolding protocol_string or_unknown bytes_eq
protocol_read unspecified dims e = rw (e) refl
protocol_read tcp dims e = rw (e) refl
protocol_read http dims e = rw (e) refl
protocol_read grpc dims e = rw (e) refl

-- An empty cache.
abbrev pub cold : Root → Root
cold root = record root { metrics = [] }

module _ (libs : Libs) where
  -- Each entry is what the generators give now, and the dimensions have their place.
  pub record IsReady (root : Root) : Type 0 where
    pub cached :
        All
          (λ x. x.1 ≡ stats_for libs.resolve_full_name root.stats (protocol_at x.0) x.0)
          root.metrics
    pub room : count_standard_labels ≤ length root.istio_dimensions

  count_hit-IsReady : (root : Root) → IsReady root → IsReady (count_hit root)
  unfolding count_hit
  count_hit-IsReady root ready = elim (Bool-cases (root.cache_hits_accumulator + 1 == 100)) [
    | inl e ↦ rw (e, count_hit) (record { cached = ready.cached; room = ready.room })
    | inr e ↦ rw (e, count_hit) (record { cached = ready.cached; room = ready.room })
  ]

module _ (libs : Libs) (env : Env) where
  get-evaluate_expressions :
      (i k : ℕ) (es : List (ℕ × Bytes)) (dims : List Bytes)
      → k < i
      → (get_or (evaluate_expressions libs env i es dims) k [] ≡ get_or dims k [])
        × (length (evaluate_expressions libs env i es dims) ≡ length dims)
  unfolding evaluate_expressions
  get-evaluate_expressions i k [] dims h = (refl, refl)
  get-evaluate_expressions i k ((token, e) ∷ es) dims h =
      let v = get_value (env.evaluate_string token) (codes "unknown") in
      let rest = get-evaluate_expressions (i + 1) k es (set_at i v dims) (omega arith) in
      (rest.0 ∙ get-set_at i k v dims h, rest.1 ∙ length-set_at i v dims)

  abbrev Named : ℕ → RequestInfo → List Bytes → Type 0
  Named n r dims = (protocol_at dims ≡ r.request_protocol) × (length dims ≡ n)

  dimensions-Named :
      (es : List (ℕ × Bytes)) (outbound : Bool) (node : FlatNode) (r : RequestInfo)
      (dims : List Bytes)
      → count_standard_labels ≤ length dims
      → Named (length dims) r (
          evaluate_expressions libs env count_standard_labels es
            (map_dimensions libs.ascii_str_to_lower outbound node r dims))
  dimensions-Named es outbound node r dims h =
      let (v, rest, e) = split_first 25 dims h in
      let m = mapped libs.ascii_str_to_lower outbound node r v rest in
      let x =
        get-evaluate_expressions count_standard_labels request_protocol es
          (map_dimensions libs.ascii_str_to_lower outbound node r (before 25 v rest))
          (omega arith) in
      subst
        (λ d. Named (length d) r (
          evaluate_expressions libs env count_standard_labels es
            (map_dimensions libs.ascii_str_to_lower outbound node r d)))
        (sym e)
        (
          protocol_read r.request_protocol
              (evaluate_expressions libs env count_standard_labels es
                (map_dimensions libs.ascii_str_to_lower outbound node r (before 25 v rest)))
              (x.0 ∙ m.0),
          x.1 ∙ m.1,
        )

  report_dimensions-Named :
      (root : Root) (node : FlatNode) (r : RequestInfo)
      → count_standard_labels ≤ length root.istio_dimensions
      → Named (length root.istio_dimensions) r (report_dimensions libs env root node r)
  unfolding report_dimensions
  report_dimensions-Named root node r h =
      dimensions-Named root.expressions root.outbound node r root.istio_dimensions h

  record_metrics-cold :
      (end_stream : Bool) (r : RequestInfo) (root : Root)
      → protocol_at root.istio_dimensions ≡ r.request_protocol
      → IsReady libs root
      → ((record_metrics libs env end_stream r root).0
          ≡ (record_metrics libs env end_stream r (cold root)).0)
        × ((record_metrics libs env end_stream r root).1
            ≡ (record_metrics libs env end_stream r (cold root)).1)
        × IsReady libs (record_metrics libs env end_stream r root).2
  unfolding record_metrics find_metrics
  record_metrics-cold end_stream r root p ready =
      let dims = root.istio_dimensions in
      let anew = record_miss-hit libs env end_stream dims root.stats r (protocol_at dims) (sym p) in
      elim (Option-cases (find_metrics dims root.metrics)) [
        | inl e ↦
            rw (e, record_metrics)
              (
                refl,
                refl,
                record { cached = (ap (λ x. x.2) anew, ready.cached); room = ready.room },
              )
        | inr (stats, e) ↦
            let entry =
              find_metrics-All
                (λ x. x.1 ≡ stats_for libs.resolve_full_name root.stats (protocol_at x.0) x.0) dims
                stats root.metrics e ready.cached in
            rw (e, record_metrics)
              (
                ap (λ l. (record_hit libs env end_stream l r).0) entry ∙ sym (ap (λ x. x.0) anew),
                ap (λ l. (record_hit libs env end_stream l r).1) entry ∙ sym (ap (λ x. x.1) anew),
                count_hit-IsReady libs root ready,
              )
      ]

  populate-cold :
      (root : Root) (peer : PeerNodeInfo) (r : RequestInfo) (end_stream : Bool)
      → populate libs env (cold root) peer r end_stream ≡ populate libs env root peer r end_stream
  unfolding populate
  populate-cold root peer r end_stream = refl

  dims-cold :
      (root : Root) (node : FlatNode) (r : RequestInfo)
      → report_dimensions libs env (cold root) node r ≡ report_dimensions libs env root node r
  unfolding report_dimensions
  dims-cold root node r = refl

  report_initialized-cold :
      (end_stream : Bool) (r : RequestInfo) (root : Root)
      → IsReady libs root
      → ((report_initialized libs env end_stream r root).0
          ≡ (report_initialized libs env end_stream r (cold root)).0)
        × ((report_initialized libs env end_stream r root).1
            ≡ (report_initialized libs env end_stream r (cold root)).1)
        × IsReady libs (report_initialized libs env end_stream r root).2
  unfolding report_initialized
  report_initialized-cold end_stream r root ready =
      let peer = peer_node_info env.properties libs.text libs.flat (peer_keys root) in
      elim (Option-cases (populate libs env root peer r end_stream)) [
        | inl n ↦
            rw (populate-cold root peer r end_stream, n, report_initialized) (refl, refl, ready)
        | inr (s, n) ↦
            let named = report_dimensions-Named root peer.node s ready.room in
            rw
              (
                populate-cold root peer r end_stream,
                n,
                dims-cold root peer.node s,
                report_initialized,
              )
              (record_metrics-cold end_stream s
                (record root { istio_dimensions = report_dimensions libs env root peer.node s })
                named.0
                (record { cached = ready.cached; room = omega (arith, ready.room, named.1) }))
      ]

  -- The statement about `report` with its first test as `b`.
  abbrev chosen : Bool → Bool → RequestInfo → Root → List Recorded × RequestInfo × Root
  chosen b end_stream r root =
      if not b then ([], r, root) else report_initialized libs env end_stream r root

  abbrev Chosen : Bool → Bool → RequestInfo → Root → Type 0
  Chosen b end_stream r root =
      ((chosen b end_stream r root).0 ≡ (chosen b end_stream r (cold root)).0)
      × ((chosen b end_stream r root).1 ≡ (chosen b end_stream r (cold root)).1)
      × IsReady libs (chosen b end_stream r root).2

  -- With generators that the cache was filled by, `report` records and leaves in the request what it
  -- does with an empty cache, whatever the host answers, and the cache keeps to the generators.
  pub report-cold :
      (end_stream : Bool) (r : RequestInfo) (root : Root)
      → IsReady libs root
      → ((report libs env end_stream r root).0 ≡ (report libs env end_stream r (cold root)).0)
        × ((report libs env end_stream r root).1 ≡ (report libs env end_stream r (cold root)).1)
        × IsReady libs (report libs env end_stream r root).2
  unfolding report
  report-cold end_stream r root ready = elim (Bool-cases root.initialized) [
    | inr e ↦ subst (λ b. Chosen b end_stream r root) (sym e) (refl, refl, ready)
    | inl e ↦
        subst (λ b. Chosen b end_stream r root) (sym e)
          (report_initialized-cold end_stream r root ready)
  ]
