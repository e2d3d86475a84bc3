-- ===== src/Stats/First.antt =====
-- The cache of extensions/stats/plugin.cc after the first configuration of a root context.
use wasm_extensions.Prelude.{
  ℕ, ◌≡◌, refl, sym, ap, Bytes, Bool, List, Option, some, arith, All, ◌∙◌, [],
}
use mathlib.Core.Path.{subst}
use wasm_extensions.Expressions.{ExprHost}
use wasm_extensions.Json.{JsonLib, json_parse}
use wasm_extensions.Common.Request.{RequestInfo}
use wasm_extensions.Common.Peer.{FlatNode}
use wasm_extensions.Stats.Report.{Libs, Env, Root}
use wasm_extensions.Stats.Metrics.{SimpleStat}
use wasm_extensions.Stats.Setup.{initialize_dimensions, configure, on_configure}
use wasm_extensions.Stats.Overrides.{initialize_dimensions-InPlace}
use wasm_extensions.Stats.Freed.{initialize_dimensions-metrics}
use wasm_extensions.Stats.Life.{new_root}
use wasm_extensions.Stats.Cached.{IsReady, cold, report-cold}
use wasm_extensions.Stats.Warm.{run-IsReady}
use wasm_extensions.Stats.Stream.{Event, report_stream, run, put, tag}

All-none :
    (P : List Bytes × List SimpleStat → Type 0) {xs : List (List Bytes × List SimpleStat)}
    → xs ≡ []
    → All P xs
All-none P e = subst (All P) (sym e) tt

module _ {H : Type 0} (exprs : ExprHost H) (lib : JsonLib) (libs : Libs) where
  -- A configuration that finds the cache empty.
  initialize_dimensions-IsReady :
      (prefix : Bytes) (j : lib.Json) (root : Root) (h : H)
      → root.metrics ≡ []
      → IsReady libs (initialize_dimensions exprs lib prefix j root h).0
  initialize_dimensions-IsReady prefix j root h e =
      let dims = (initialize_dimensions-InPlace exprs lib prefix j root h).1 in
      record {
        cached = All-none _ (initialize_dimensions-metrics exprs lib prefix j root h ∙ e);
        room = omega (arith, dims);
      }

  module _ (parse_duration : Bytes → Option ℕ) (prefix : Bytes) where
    on_configure-IsReady :
        (local_node : FlatNode) (text : Bytes) (j : lib.Json) (root : Root) (h : H)
        → root.metrics ≡ []
        → json_parse lib text ≡ some j
        → IsReady libs (on_configure exprs lib parse_duration prefix local_node text root h).2
    unfolding on_configure configure
    on_configure-IsReady local_node text j root h e parsed =
        let ready = initialize_dimensions-IsReady prefix j _ h e in
        rw (parsed, on_configure, configure) (record { cached = ready.cached; room = ready.room })

    -- After a first configuration that parses, and any callbacks of any streams, a report for any
    -- stream records and leaves in its request what it does with an empty cache.
    pub first_configuration-cold :
        (local_node : FlatNode) (text : Bytes) (j : lib.Json) (outbound fallback : Bool) (h : H)
        (requests : ℕ → RequestInfo) (es : List ((ℕ → Env) × Event)) (env : Env) (end_stream : Bool)
        (id : ℕ)
        → json_parse lib text ≡ some j
        → let root =
            (on_configure exprs lib parse_duration prefix local_node text
              (new_root outbound fallback)
              h).2 in
          let s = (run libs es (record { root = root; requests = requests })).1 in
          let out = report_stream libs env end_stream id s in
          let out' = report_stream libs env end_stream id (record s { root = cold s.root }) in
          (out.0 ≡ out'.0) × (out.1.requests ≡ out'.1.requests)
    unfolding report_stream new_root
    first_configuration-cold local_node text j outbound fallback h requests es env end_stream id e =
        let ready = on_configure-IsReady local_node text j (new_root outbound fallback) h refl e in
        let s =
          (run libs es (record {
            root =
                (on_configure exprs lib parse_duration prefix local_node text
                  (new_root outbound fallback) h).2;
            requests = requests;
          })).1 in
        let same =
          report-cold libs env end_stream (s.requests id) s.root (run-IsReady libs es _ ready) in
        (ap (tag id) same.0, ap (λ r. (put id r s).requests) same.1)
