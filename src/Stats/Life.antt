-- ===== src/Stats/Life.antt =====
-- A root context of extensions/stats/plugin.{h,cc} from its constructor to `onDone`: configurations
-- and reports, in any order and number.
use wasm_extensions.Prelude.{
  ℕ, ◌≡◌, refl, sym, Bytes, Bool, false, List, [], ◌∷◌, Option, arith, Option-cases, inl, inr,
}
use mathlib.Core.Path.{subst}
use wasm_extensions.Expressions.{ExprHost, ExprLaws}
use wasm_extensions.Expressions.Ownership.{Owned}
use wasm_extensions.Json.{JsonLib}
use wasm_extensions.Common.Request.{RequestInfo}
use wasm_extensions.Common.Peer.{FlatNode, peer_node_info, empty_node}
use wasm_extensions.Stats.Report.{
  Libs, Env, Root, report, report_initialized, record_metrics, count_hit, populate, find_metrics,
  peer_keys,
}
use wasm_extensions.Stats.Config.{cleanup_expressions}
use wasm_extensions.Stats.Setup.{on_configure, on_done}
use wasm_extensions.Stats.Tokens.{tokens, Holds, cleanup-Holds}
use wasm_extensions.Stats.Freed.{on_configure-Holds}

-- The constructor; whether the host header is used has no value until a configuration is applied.
unfoldable pub new_root : Bool → Bool → Root
new_root outbound fallback = record {
  local_node_info = empty_node;
  istio_dimensions = [];
  expressions = [];
  input_expressions = [];
  int_expressions = [];
  outbound = outbound;
  use_host_header_fallback = fallback;
  cache_hits_accumulator = 0;
  cache_hits = 0;
  cache_misses = 0;
  metrics = [];
  request_queue = [];
  stats = [];
  initialized = false;
}

-- A configuration, with the local node at its time, or a report.
pub data Turn : Type 0 where
  configured : FlatNode → Bytes → Turn
  reported : Env → Bool → RequestInfo → Turn

module _ (libs : Libs) (env : Env) where
  record_metrics-tokens :
      (end_stream : Bool) (r : RequestInfo) (root : Root)
      → tokens (record_metrics libs env end_stream r root).2 ≡ tokens root
  unfolding record_metrics count_hit
  record_metrics-tokens end_stream r root =
      elim (Option-cases (find_metrics root.istio_dimensions root.metrics)) [
        | inl e ↦ rw (e, record_metrics) refl
        | inr (stats, e) ↦ rw (e, record_metrics) (ground arith)
      ]

  report_initialized-tokens :
      (end_stream : Bool) (r : RequestInfo) (root : Root)
      → tokens (report_initialized libs env end_stream r root).2 ≡ tokens root
  unfolding report_initialized
  report_initialized-tokens end_stream r root =
      let peer = peer_node_info env.properties libs.text libs.flat (peer_keys root) in
      elim (Option-cases (populate libs env root peer r end_stream)) [
        | inl n ↦ rw (n, report_initialized) refl
        | inr (s, n) ↦ rw (n, report_initialized) (record_metrics-tokens end_stream s _)
      ]

  -- A report keeps the expressions.
  report-tokens :
      (end_stream : Bool) (r : RequestInfo) (root : Root)
      → tokens (report libs env end_stream r root).2 ≡ tokens root
  unfolding report
  report-tokens end_stream r root = ground (arith, report_initialized-tokens end_stream r root)

module _ {H : Type 0} (exprs : ExprHost H) (lib : JsonLib) (libs : Libs) where
  module _ (parse_duration : Bytes → Option ℕ) (prefix : Bytes) where
    -- One turn.
    unfoldable pub take_turn : Turn → Root × H → Root × H
    take_turn (configured local_node text) (root, h) =
        let (result, period, root', h') =
          on_configure exprs lib parse_duration prefix local_node text root h in
        (root', h')
    take_turn (reported env end_stream r) (root, h) =
        let (out, r', root') = report libs env end_stream r root in (root', h)

    -- The turns, one after the other, and `onDone`.
    unfoldable pub take_turns : List Turn → Root × H → Root × H
    take_turns [] s = s
    take_turns (t ∷ ts) s = take_turns ts (take_turn t s)

    unfoldable pub life : List Turn → Root × H → Root × H
    life ts s =
        let (root, h) = take_turns ts s in
        let (result, root', h') = on_done exprs root h in (root', h')

    module _ (laws : ExprLaws exprs) (base : ℕ → Bool) where
      take_turn-Holds :
          (t : Turn) (root : Root) (h : H)
          → Holds exprs laws base root h
          → Holds exprs laws base (take_turn t (root, h)).0 (take_turn t (root, h)).1
      unfolding take_turn
      take_turn-Holds (configured local_node text) root h o =
          on_configure-Holds exprs lib laws base parse_duration prefix local_node text root h o
      take_turn-Holds (reported env end_stream r) root h o =
          subst (λ ts. Owned exprs base ts h) (sym (report-tokens libs env end_stream r root)) o

      take_turns-Holds :
          (ts : List Turn) (root : Root) (h : H)
          → Holds exprs laws base root h
          → Holds exprs laws base (take_turns ts (root, h)).0 (take_turns ts (root, h)).1
      unfolding take_turns
      take_turns-Holds [] root h o = o
      take_turns-Holds (t ∷ ts) root h o = take_turns-Holds ts _ _ (take_turn-Holds t root h o)

    -- Given the host's laws, from the constructor through any configurations, accepted or not, and
    -- any reports, after `onDone` an expression is live if and only if it was live at the start.
    pub life_frees :
        (laws : ExprLaws exprs) (ts : List Turn) (outbound fallback : Bool) (h : H) (u : ℕ)
        → exprs.live (life ts (new_root outbound fallback, h)).1 u ≡ exprs.live h u
    unfolding life on_done new_root cleanup_expressions
    life_frees laws ts outbound fallback h u =
        let held =
          take_turns-Holds laws (exprs.live h) ts (new_root outbound fallback) h
            (record { live_exactly = λ u. refl; disjoint = λ u e. absurd (cc); distinct = tt }) in
        (cleanup-Holds exprs laws (exprs.live h) (take_turns ts (new_root outbound fallback, h)).0 _
            held).live_exactly
          u
