-- ===== src/Stats/Conserved.antt =====
-- The bytes of TCP streams over any interleaving of the callbacks of extensions/stats.
use wasm_extensions.Prelude.{
  ℕ, ◌+◌, ◌%◌, ◌^◌, ◌==◌, ==_iff, ◌≡◌, refl, ap, ◌∙◌, sym, Bool, true, false, List, [], ◌∷◌, ◌++◌,
  inl, inr, if◌then◌else◌, arith, Bool-cases,
}
use wasm_extensions.Common.Request.{RequestInfo, is_tcp}
use wasm_extensions.Common.Populate.{populate_request_protocol}
use wasm_extensions.Stats.Metrics.{Recorded}
use wasm_extensions.Stats.Report.{Libs, Env, report}
use wasm_extensions.Stats.Stream.{
  System, Event, request_headers, response_headers, new_connection, log, downstream_data,
  upstream_data, tick, put, tag, report_stream, tick_loop, on_request_headers, on_log,
  on_new_connection, on_downstream_data, on_upstream_data, on_event, run,
}
use wasm_extensions.Stats.Traffic.{Direction, sent, received, pending, reported, report-pending}

-- The bytes that are reported for a stream.
abbrev pub reported_for : Direction → ℕ → List (ℕ × Recorded) → ℕ
reported_for d id [] = 0
reported_for d id ((j, x) ∷ xs) =
    let rest = reported_for d id xs in if j == id then reported d (x ∷ []) + rest else rest

-- The bytes that a callback brings to a stream, and those of several callbacks.
abbrev pub bytes_of : Direction → ℕ → Event → ℕ
bytes_of sent id (upstream_data j size) = if j == id then size else 0
bytes_of received id (downstream_data j size) = if j == id then size else 0
bytes_of d id e = 0

abbrev pub total_bytes : Direction → ℕ → List ((ℕ → Env) × Event) → ℕ
total_bytes d id [] = 0
total_bytes d id ((env, e) ∷ es) = bytes_of d id e + total_bytes d id es

for-append :
    (d : Direction) (id : ℕ) (xs ys : List (ℕ × Recorded))
    → reported_for d id (xs ++ ys) ≡ reported_for d id xs + reported_for d id ys
for-append d id [] ys = omega arith
for-append d id ((j, x) ∷ xs) ys = ground (arith, for-append d id xs ys)

for_same :
    (d : Direction) (id : ℕ) (xs : List Recorded) → reported_for d id (tag id xs) ≡ reported d xs
for_same d id [] = refl
for_same d id (x ∷ xs) = ground (arith, for_same d id xs)

for_other :
    (d : Direction) (id j : ℕ) (xs : List Recorded)
    → (j == id) ≡ false
    → reported_for d id (tag j xs) ≡ 0
for_other d id j [] e = refl
for_other d id j (x ∷ xs) e = ground (arith, for_other d id j xs e)

-- The request of one stream is replaced by one with the same bytes, or with more.
put_keeps :
    (d : Direction) (id j : ℕ) (r : RequestInfo) (s : System)
    → pending d r ≡ pending d (s.requests j)
    → pending d ((put j r s).requests id) ≡ pending d (s.requests id)
put_keeps d id j r s e = elim (Bool-cases (id == j)) [
  | inl q ↦ rw (q) (e ∙ ap (λ k. pending d (s.requests k)) (sym ((==_iff id j).0 q)))
  | inr q ↦ rw (q) refl
]

put_adds :
    (d : Direction) (id j n : ℕ) (r : RequestInfo) (s : System)
    → pending d r ≡ (pending d (s.requests j) + n) % 2 ^ 64
    → pending d ((put j r s).requests id) % 2 ^ 64
      ≡ (pending d (s.requests id) + (if j == id then n else 0)) % 2 ^ 64
put_adds d id j n r s e = elim (Bool-cases (id == j)) [
  | inl q ↦
      let same : (j == id) ≡ true = ground arith in
      rw (q, same) (omega (arith, e, ap (λ k. pending d (s.requests k)) ((==_iff id j).0 q)))
  | inr q ↦ let apart : (j == id) ≡ false = ground arith in rw (q, apart) (omega arith)
]

module _ (libs : Libs) where
  report_stream-pending :
      (env : Env) (d : Direction) (end_stream : Bool) (id j : ℕ) (s : System)
      → reported_for d id (report_stream libs env end_stream j s).0
          + pending d ((report_stream libs env end_stream j s).1.requests id)
        ≡ pending d (s.requests id)
  unfolding report_stream
  report_stream-pending env d end_stream id j s = elim (Bool-cases (j == id)) [
    | inl e ↦
        rw ((==_iff j id).0 e, report_stream, (==_iff id id).1 refl)
          (omega (
            arith,
            for_same d id (report libs env end_stream (s.requests id) s.root).0,
            report-pending libs env d end_stream (s.requests id) s.root,
          ))
    | inr e ↦
        let apart : (id == j) ≡ false = ground arith in
        rw (apart, report_stream)
          (omega (arith, for_other d id j (report libs env end_stream (s.requests j) s.root).0 e))
  ]

  tick_loop-pending :
      (env : ℕ → Env) (exists_context : ℕ → Bool) (d : Direction) (id : ℕ) (ids : List ℕ)
      (s : System)
      → reported_for d id (tick_loop libs env exists_context ids s).0
          + pending d ((tick_loop libs env exists_context ids s).1.requests id)
        ≡ pending d (s.requests id)
  unfolding tick_loop
  tick_loop-pending env exists_context d id [] s = omega arith
  tick_loop-pending env exists_context d id (j ∷ js) s = elim (Bool-cases (exists_context j)) [
    | inr e ↦ rw (e, tick_loop) (tick_loop-pending env exists_context d id js s)
    | inl e ↦
        let (now, s') = report_stream libs (env j) false j s in
        rw (e, tick_loop)
          (omega (
            arith,
            for-append d id now (tick_loop libs env exists_context js s').0,
            report_stream-pending (env j) d false id j s,
            tick_loop-pending env exists_context d id js s',
          ))
  ]

  on_log-pending :
      (env : Env) (d : Direction) (id j : ℕ) (s : System)
      → reported_for d id (on_log libs env j s).0 + pending d ((on_log libs env j s).1.requests id)
        ≡ pending d (s.requests id)
  unfolding on_log
  on_log-pending env d id j s = elim (Bool-cases (is_tcp (s.requests j).request_protocol)) [
    | inr e ↦ rw (e, on_log) (report_stream-pending env d true id j _)
    | inl e ↦ rw (e, on_log) (report_stream-pending env d true id j _ ∙ closed d)
  ]
    where
      closed :
          (d : Direction)
          → pending d (
              (put j
                  (record (s.requests j) {
                    tcp_connections_closed = ((s.requests j).tcp_connections_closed + 1) % 2 ^ 8;
                  })
                  s).requests
                id)
            ≡ pending d (s.requests id)
      closed sent = put_keeps sent id j _ s refl
      closed received = put_keeps received id j _ s refl

  on_request_headers-pending :
      (env : Env) (d : Direction) (id j : ℕ) (s : System)
      → pending d ((on_request_headers libs env j s).requests id) ≡ pending d (s.requests id)
  unfolding on_request_headers populate_request_protocol
  on_request_headers-pending env sent id j s = put_keeps sent id j _ s (ground arith)
  on_request_headers-pending env received id j s = put_keeps received id j _ s (ground arith)

  on_new_connection-pending :
      (d : Direction) (id j : ℕ) (s : System)
      → pending d ((on_new_connection libs j s).requests id) ≡ pending d (s.requests id)
  unfolding on_new_connection
  on_new_connection-pending sent id j s = put_keeps sent id j _ s refl
  on_new_connection-pending received id j s = put_keeps received id j _ s refl

  -- One callback.
  on_event-bytes :
      (env : ℕ → Env) (d : Direction) (id : ℕ) (e : Event) (s : System)
      → (reported_for d id (on_event libs env e s).0
            + pending d ((on_event libs env e s).1.requests id))
          % 2 ^ 64
        ≡ (pending d (s.requests id) + bytes_of d id e) % 2 ^ 64
  unfolding on_event on_downstream_data on_upstream_data
  on_event-bytes env sent id (request_headers j) s =
      omega (arith, on_request_headers-pending (env j) sent id j s)
  on_event-bytes env received id (request_headers j) s =
      omega (arith, on_request_headers-pending (env j) received id j s)
  on_event-bytes env sent id (response_headers j) s = omega arith
  on_event-bytes env received id (response_headers j) s = omega arith
  on_event-bytes env sent id (new_connection j) s =
      omega (arith, on_new_connection-pending sent id j s)
  on_event-bytes env received id (new_connection j) s =
      omega (arith, on_new_connection-pending received id j s)
  on_event-bytes env sent id (downstream_data j size) s =
      omega (arith, put_keeps sent id j _ s refl)
  on_event-bytes env received id (downstream_data j size) s =
      grind (arith, put_adds received id j size _ s refl)
  on_event-bytes env sent id (upstream_data j size) s =
      grind (arith, put_adds sent id j size _ s refl)
  on_event-bytes env received id (upstream_data j size) s =
      omega (arith, put_keeps received id j _ s refl)
  on_event-bytes env sent id (log j) s = omega (arith, on_log-pending (env j) sent id j s)
  on_event-bytes env received id (log j) s = omega (arith, on_log-pending (env j) received id j s)
  on_event-bytes env sent id (tick exists_context) s =
      omega (arith, tick_loop-pending env exists_context sent id s.root.request_queue s)
  on_event-bytes env received id (tick exists_context) s =
      omega (arith, tick_loop-pending env exists_context received id s.root.request_queue s)

  -- Over any interleaving of the callbacks of any streams, whatever the host answers and whatever
  -- metrics are configured, the bytes that were reported for a stream and those that wait in its
  -- request add up to those that waited before and those that it received since, modulo 2 ^ 64.
  pub run-bytes :
      (d : Direction) (id : ℕ) (es : List ((ℕ → Env) × Event)) (s : System)
      → (reported_for d id (run libs es s).0 + pending d ((run libs es s).1.requests id)) % 2 ^ 64
        ≡ (pending d (s.requests id) + total_bytes d id es) % 2 ^ 64
  unfolding run
  run-bytes d id [] s = omega arith
  run-bytes d id ((env, e) ∷ es) s = omega (
    arith,
    for-append d id (on_event libs env e s).0 (run libs es (on_event libs env e s).1).0,
    on_event-bytes env d id e s,
    run-bytes d id es (on_event libs env e s).1,
  )
