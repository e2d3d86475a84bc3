-- ===== src/Stats/Stream.antt =====
-- The streams of extensions/stats/plugin.h: the callbacks of `PluginContext` and `onTick`, on the
-- requests of all streams. A record is kept with the stream that it is made for.
use wasm_extensions.Prelude.{
  ℕ, ◌+◌, ◌%◌, ◌^◌, ◌==◌, Bool, true, false, List, [], ◌∷◌, ◌++◌, map, if◌then◌else◌,
}
use wasm_extensions.Common.Properties.{get_value}
use wasm_extensions.Common.Request.{RequestInfo, tcp, is_tcp}
use wasm_extensions.Common.Populate.{populate_request_protocol}
use wasm_extensions.Stats.Metrics.{Recorded}
use wasm_extensions.Stats.Report.{
  Libs, Env, Root, report, add_to_request_queue, delete_from_request_queue,
}

-- The root context, and the `request_info_` of each stream by its identifier.
pub record System : Type 0 where
  pub root : Root
  pub requests : ℕ → RequestInfo

-- The callbacks. `exists_context` says for which identifiers `getContext` gives one.
pub data Event : Type 0 where
  request_headers response_headers new_connection log : ℕ → Event
  downstream_data upstream_data : ℕ → ℕ → Event
  tick : (ℕ → Bool) → Event

abbrev pub put : ℕ → RequestInfo → System → System
put id r s = record s { requests = λ j. if j == id then r else s.requests j }

abbrev pub tag : ℕ → List Recorded → List (ℕ × Recorded)
tag id = map (λ x. (id, x))

module _ (libs : Libs) where
  -- `report` on the request of a stream.
  unfoldable pub report_stream : Env → Bool → ℕ → System → List (ℕ × Recorded) × System
  report_stream env end_stream id s =
      let (out, r, root) = report libs env end_stream (s.requests id) s.root in
      (tag id out, put id r (record s { root = root }))

  -- The loop of `onTick`.
  unfoldable pub tick_loop : (ℕ → Env) → (ℕ → Bool) → List ℕ → System → List (ℕ × Recorded) × System
  tick_loop env exists_context [] s = ([], s)
  tick_loop env exists_context (id ∷ ids) s =
      if exists_context id
      then (let (now, s') = report_stream (env id) false id s in
          let (later, s'') = tick_loop env exists_context ids s' in (now ++ later, s''))
      else tick_loop env exists_context ids s

  -- `onRequestHeaders`
  unfoldable pub on_request_headers : Env → ℕ → System → System
  on_request_headers env id s =
      let r = populate_request_protocol env.properties (s.requests id) in
      put id
        (if s.root.use_host_header_fallback
          then record r {
            url_host = get_value (env.properties.string ("request" ∷ "host" ∷ [])) r.url_host;
          }
          else r)
        s

  -- `onLog`
  unfoldable pub on_log : Env → ℕ → System → List (ℕ × Recorded) × System
  on_log env id s =
      let r = s.requests id in
      let s' = record s { root = delete_from_request_queue id s.root } in
      report_stream env true id (
        if is_tcp r.request_protocol
        then put id (record r { tcp_connections_closed = (r.tcp_connections_closed + 1) % 2 ^ 8 })
            s'
        else s')

  -- `onNewConnection`
  unfoldable pub on_new_connection : ℕ → System → System
  on_new_connection id s =
      let r = s.requests id in
      put id
        (record r {
          request_protocol = tcp;
          tcp_connections_opened = (r.tcp_connections_opened + 1) % 2 ^ 8;
        })
        (record s { root = add_to_request_queue id s.root })

  -- `onDownstreamData`
  unfoldable pub on_downstream_data : ℕ → ℕ → System → System
  on_downstream_data id size s =
      let r = s.requests id in
      put id (record r { tcp_received_bytes = (r.tcp_received_bytes + size) % 2 ^ 64 }) s

  -- `onUpstreamData`
  unfoldable pub on_upstream_data : ℕ → ℕ → System → System
  on_upstream_data id size s =
      let r = s.requests id in
      put id (record r { tcp_sent_bytes = (r.tcp_sent_bytes + size) % 2 ^ 64 }) s

  -- One callback: what it records, and the state after it.
  unfoldable pub on_event : (ℕ → Env) → Event → System → List (ℕ × Recorded) × System
  on_event env (request_headers id) s = ([], on_request_headers (env id) id s)
  on_event env (response_headers id) s = ([], record s { root = add_to_request_queue id s.root })
  on_event env (new_connection id) s = ([], on_new_connection id s)
  on_event env (downstream_data id size) s = ([], on_downstream_data id size s)
  on_event env (upstream_data id size) s = ([], on_upstream_data id size s)
  on_event env (tick exists_context) s = tick_loop env exists_context s.root.request_queue s
  on_event env (log id) s = on_log (env id) id s

  -- The callbacks, one after the other, each with what the host gives at its time.
  unfoldable pub run : List ((ℕ → Env) × Event) → System → List (ℕ × Recorded) × System
  run [] s = ([], s)
  run ((env, e) ∷ es) s =
      let (now, s') = on_event env e s in let (later, s'') = run es s' in (now ++ later, s'')
