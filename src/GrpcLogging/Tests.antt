-- ===== src/GrpcLogging/Tests.antt =====
-- Runs of the log buffers, with numbers for log entries.
use wasm_extensions.Prelude.{ℕ, ◌≡◌, refl, Bool, true, false, List, [], ◌∷◌, arith}
use wasm_extensions.GrpcLogging.Buffer.{Root, new_root, on_done}
use wasm_extensions.GrpcLogging.Delivery.{
  Event, log, tick, callback, run, total, logged, held, flatten, run-delivered,
}
use wasm_extensions.GrpcLogging.Shutdown.{always, after_logs, on_done_unsent, on_done-sends}

abbrev refuse : ℕ → Bool
refuse i = false

-- Two entries, a tick whose call is refused, a third entry, and a tick whose calls are accepted.
abbrev schedule : List (Event ℕ)
schedule = log 1 ∷ log 2 ∷ tick refuse ∷ log 3 ∷ tick always ∷ callback ∷ log 4 ∷ []

run-delivered_example :
    total (run schedule (record { root = new_root; sent = [] })) ≡ logged schedule
run-delivered_example = run-delivered schedule

abbrev two_entries : List ℕ
two_entries = 1 ∷ 2 ∷ []

on_done_unsent_example :
    (on_done always (after_logs two_entries) ≡ (true, after_logs two_entries, []))
    × (held (after_logs two_entries) ≡ two_entries)
on_done_unsent_example = on_done_unsent always two_entries (omega arith)

abbrev waiting : Root ℕ
waiting = record {
  cur_log_req = 3 ∷ [];
  log_entry_count = 1;
  req_buffer = (1 ∷ 2 ∷ []) ∷ [];
  in_flight_export_call = 0;
  is_on_done = false;
}

on_done-sends_example :
    (root' : Root ℕ) × (sent : List (List ℕ)) × (on_done always waiting ≡ (false, root', sent))
    × (flatten sent ≡ held waiting)
    × (held root' ≡ [])
on_done-sends_example = on_done-sends waiting refl refl
