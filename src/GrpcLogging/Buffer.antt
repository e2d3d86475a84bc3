-- ===== src/GrpcLogging/Buffer.antt =====
-- extensions/grpc_logging/plugin.{h,cc}: the buffers of the root context and the calls in flight. A
-- log entry, which is filled from properties that the host gives, is of any type. `accepts i` says
-- whether the host accepts the i-th call of a run of `sendLogRequest`.
use wasm_extensions.Prelude.{
  ℕ, suc, ◌+◌, ◌-◌, Bool, true, false, ◌&&◌, not, List, [], ◌∷◌, ◌++◌, if◌then◌else◌, ◌==◌, leb,
  is_empty,
}

-- The members of `PluginRootContext`.
pub record Root (Entry : Type 0) : Type 0 where
  pub cur_log_req : List Entry
  pub log_entry_count : ℕ
  pub req_buffer : List (List Entry)
  pub in_flight_export_call : ℕ
  pub is_on_done : Bool

abbrev pub max_entries : ℕ
max_entries = 500

module _ {Entry : Type 0} where
  -- The constructor.
  abbrev pub new_root : Root Entry
  new_root = record {
    cur_log_req = [];
    log_entry_count = 0;
    req_buffer = [];
    in_flight_export_call = 0;
    is_on_done = false;
  }

  -- `flushLogBuffer`
  unfoldable pub flush_log_buffer : Root Entry → Root Entry
  flush_log_buffer root = if leb root.log_entry_count 0 then root else record root {
    cur_log_req = [];
    req_buffer = root.req_buffer ++ root.cur_log_req ∷ [];
    log_entry_count = 0;
  }

  -- `addLogEntry`
  unfoldable pub add_log_entry : Entry → Root Entry → Root Entry
  add_log_entry new_entry root =
      let root' = record root {
        cur_log_req = root.cur_log_req ++ new_entry ∷ [];
        log_entry_count = root.log_entry_count + 1;
      } in
      if leb max_entries root'.log_entry_count then flush_log_buffer root' else root'

  -- The loop of `sendLogRequest`: the requests that the host has accepted, and those left.
  unfoldable pub send_from :
      (ℕ → Bool) → ℕ → List (List Entry) → List (List Entry) × List (List Entry)
  send_from accepts i [] = ([], [])
  send_from accepts i (req ∷ reqs) =
      let (sent, left) = send_from accepts (i + 1) reqs in
      if not (accepts i) then ([], req ∷ reqs) else (req ∷ sent, left)

  abbrev count : List (List Entry) → ℕ
  count [] = 0
  count (x ∷ xs) = suc (count xs)

  -- `sendLogRequest`: the members afterwards, and the requests sent.
  unfoldable pub send_log_request : (ℕ → Bool) → Bool → Root Entry → Root Entry × List (List Entry)
  send_log_request accepts ondone root =
      let (sent, left) = send_from accepts 0 root.req_buffer in
      (
        record root {
          is_on_done = ondone;
          req_buffer = left;
          in_flight_export_call = root.in_flight_export_call + count sent;
        },
        sent,
      )

  -- `onTick`
  unfoldable pub on_tick : (ℕ → Bool) → Root Entry → Root Entry × List (List Entry)
  on_tick accepts root =
      let root' = flush_log_buffer root in
      if is_empty root'.req_buffer then (root', []) else send_log_request accepts false root'

  -- `onDone`: its result, the members afterwards, and the requests sent.
  unfoldable pub on_done : (ℕ → Bool) → Root Entry → Bool × Root Entry × List (List Entry)
  on_done accepts root =
      if is_empty root.req_buffer && (root.in_flight_export_call == 0)
      then (true, root, [])
      else (let (root', sent) = send_log_request accepts true (flush_log_buffer root) in
          (false, root', sent))

  -- Both callbacks: whether `proxy_done` is called, and the members afterwards. The host calls one
  -- back for each call in flight, so the count does not fall below 0.
  unfoldable pub on_callback : Root Entry → Bool × Root Entry
  on_callback root =
      let in_flight = root.in_flight_export_call - 1 in
      (leb in_flight 0 && root.is_on_done, record root { in_flight_export_call = in_flight })
