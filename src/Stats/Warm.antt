-- ===== src/Stats/Warm.antt =====
-- The cache of extensions/stats over the callbacks of all streams.
use wasm_extensions.Prelude.{ℕ, Bool, true, false, List, [], ◌∷◌, inl, inr, Bool-cases}
use wasm_extensions.Common.Request.{is_tcp}
use wasm_extensions.Stats.Report.{Libs, Env, add_to_request_queue, delete_from_request_queue}
use wasm_extensions.Stats.Stream.{
  System, Event, request_headers, response_headers, new_connection, log, downstream_data,
  upstream_data, tick, report_stream, tick_loop, on_request_headers, on_log, on_new_connection,
  on_downstream_data, on_upstream_data, on_event, run,
}
use wasm_extensions.Stats.Cached.{IsReady, report-cold}

module _ (libs : Libs) where
  report_stream-IsReady :
      (env : Env) (end_stream : Bool) (id : ℕ) (s : System)
      → IsReady libs s.root
      → IsReady libs (report_stream libs env end_stream id s).1.root
  unfolding report_stream
  report_stream-IsReady env end_stream id s ready =
      (report-cold libs env end_stream (s.requests id) s.root ready).2

  tick_loop-IsReady :
      (env : ℕ → Env) (exists_context : ℕ → Bool) (ids : List ℕ) (s : System)
      → IsReady libs s.root
      → IsReady libs (tick_loop libs env exists_context ids s).1.root
  unfolding tick_loop
  tick_loop-IsReady env exists_context [] s ready = ready
  tick_loop-IsReady env exists_context (id ∷ ids) s ready = elim (Bool-cases (exists_context id)) [
    | inr e ↦ rw (e, tick_loop) (tick_loop-IsReady env exists_context ids s ready)
    | inl e ↦
        rw (e, tick_loop)
          (tick_loop-IsReady env exists_context ids _
            (report_stream-IsReady (env id) false id s ready))
  ]

  on_log-IsReady :
      (env : Env) (id : ℕ) (s : System)
      → IsReady libs s.root
      → IsReady libs (on_log libs env id s).1.root
  unfolding on_log delete_from_request_queue
  on_log-IsReady env id s ready = elim (Bool-cases (is_tcp (s.requests id).request_protocol)) [
    | inl e ↦
        rw (e, on_log)
          (report_stream-IsReady env true id _
            (record { cached = ready.cached; room = ready.room }))
    | inr e ↦
        rw (e, on_log)
          (report_stream-IsReady env true id _
            (record { cached = ready.cached; room = ready.room }))
  ]

  on_event-IsReady :
      (env : ℕ → Env) (e : Event) (s : System)
      → IsReady libs s.root
      → IsReady libs (on_event libs env e s).1.root
  unfolding on_event on_request_headers on_new_connection on_downstream_data on_upstream_data
      add_to_request_queue
  on_event-IsReady env (request_headers id) s ready = ready
  on_event-IsReady env (response_headers id) s ready = record {
    cached = ready.cached;
    room = ready.room;
  }
  on_event-IsReady env (new_connection id) s ready = record {
    cached = ready.cached;
    room = ready.room;
  }
  on_event-IsReady env (downstream_data id size) s ready = ready
  on_event-IsReady env (upstream_data id size) s ready = ready
  on_event-IsReady env (log id) s ready = on_log-IsReady (env id) id s ready
  on_event-IsReady env (tick exists_context) s ready =
      tick_loop-IsReady env exists_context s.root.request_queue s ready

  -- Over any callbacks of any streams, a cache whose entries are what the generators give keeps to
  -- them, and the dimensions keep a place for each standard label.
  pub run-IsReady :
      (es : List ((ℕ → Env) × Event)) (s : System)
      → IsReady libs s.root
      → IsReady libs (run libs es s).1.root
  unfolding run
  run-IsReady [] s ready = ready
  run-IsReady ((env, e) ∷ es) s ready = run-IsReady es _ (on_event-IsReady env e s ready)
