-- ===== src/GrpcLogging/Shutdown.antt =====
-- What `onDone` does with the entries that are left.
use wasm_extensions.Prelude.{
  ℕ, suc, ◌+◌, ◌<◌, ◌≡◌, refl, sym, ap, ◌∙◌, inl, inr, Bool, true, false, ◌&&◌, List, [], ◌∷◌, ◌++◌,
  ◌==◌, leb, is_empty, arith, append-nil, length, map, Bool-cases,
}
use wasm_extensions.GrpcLogging.Buffer.{
  Root, new_root, max_entries, add_log_entry, flush_log_buffer, send_from, send_log_request,
  on_done,
}
use wasm_extensions.GrpcLogging.Delivery.{
  History, log, on_event, run, held, flatten, Counted, flush-held, logged, run-delivered,
}

-- Every call is accepted.
abbrev pub always : ℕ → Bool
always i = true

module _ {Entry : Type 0} where
  -- Nothing waits or is in flight or has been sent, and the request has room for `n` entries.
  record Quiet (n : ℕ) (h : History Entry) : Type 0 where
    buffer : h.root.req_buffer ≡ []
    calls : h.root.in_flight_export_call ≡ 0
    sent : h.sent ≡ []
    room : h.root.log_entry_count + n < max_entries

  add-Quiet :
      (n : ℕ) (e : Entry) (h : History Entry) → Quiet (suc n) h → Quiet n (on_event (log e) h)
  unfolding on_event add_log_entry
  add-Quiet n e h q =
      let room : leb max_entries (h.root.log_entry_count + 1) ≡ false = ground (arith, q.room) in
      rw room
        (record { buffer = q.buffer; calls = q.calls; sent = q.sent; room = omega (arith, q.room) })

  run-Quiet :
      (entries : List Entry) (h : History Entry)
      → Quiet (length entries) h
      → Quiet 0 (run (map log entries) h)
  unfolding run
  run-Quiet [] h q = q
  run-Quiet (e ∷ entries) h q =
      run-Quiet entries (on_event (log e) h) (add-Quiet (length entries) e h q)

  logged-map : (entries : List Entry) → logged (map log entries) ≡ entries
  unfolding logged
  logged-map [] = refl
  logged-map (e ∷ entries) = ap (◌∷◌ e) (logged-map entries)

  abbrev pub after_logs : List Entry → Root Entry
  after_logs entries = (run (map log entries) (record { root = new_root; sent = [] })).root

  -- A plugin that has logged fewer than 500 entries when it is done, and has had no tick, says that
  -- it can go at once: it still holds all of the entries and makes no call.
  pub on_done_unsent :
      (accepts : ℕ → Bool) (entries : List Entry)
      → length entries < max_entries
      → (on_done accepts (after_logs entries) ≡ (true, after_logs entries, []))
        × (held (after_logs entries) ≡ entries)
  unfolding on_done
  on_done_unsent accepts entries few =
      let h : History Entry = run (map log entries) (record { root = new_root; sent = [] }) in
      let q : Quiet 0 h =
        run-Quiet entries _
          (record { buffer = refl; calls = refl; sent = refl; room = omega (arith, few) }) in
      (
        rw (q.buffer, q.calls),
        sym (ap (λ s. flatten s ++ held h.root) q.sent)
            ∙ run-delivered (map log entries)
            ∙ logged-map entries,
      )

  send_from-always : (i : ℕ) (reqs : List (List Entry)) → send_from always i reqs ≡ (reqs, [])
  unfolding send_from
  send_from-always i [] = refl
  send_from-always i (req ∷ reqs) = rw (send_from-always (i + 1) reqs) refl

  flush-empty : (root : Root Entry) → Counted root → (flush_log_buffer root).cur_log_req ≡ []
  unfolding flush_log_buffer
  flush-empty root c = elim (Bool-cases (leb root.log_entry_count 0)) [
    | inl y ↦ rw y (no_entries root.cur_log_req (ground (arith, y, c)))
    | inr n ↦ rw n
  ]
    where
      no_entries : (xs : List Entry) → length xs ≡ 0 → xs ≡ []
      no_entries [] e = refl
      no_entries (x ∷ xs) e = absurd (omega (arith, e))

  -- Where the counter counts the current request and a request waits or a call is in flight,
  -- `onDone` asks to be kept; if the host accepts every call, it has then sent every entry that the
  -- plugin held, in order, and holds none.
  pub on_done-sends :
      (root : Root Entry)
      → Counted root
      → (is_empty root.req_buffer && (root.in_flight_export_call == 0)) ≡ false
      → (root' : Root Entry) × (sent : List (List Entry)) × (on_done always root
          ≡ (false, root', sent))
        × (flatten sent ≡ held root)
        × (held root' ≡ [])
  unfolding on_done send_log_request
  on_done-sends root c pending =
      let flushed = flush_log_buffer root in
      let all = send_from-always 0 flushed.req_buffer in
      let none_ = flush-empty root c in
      let whole : flatten flushed.req_buffer ≡ held root =
        sym (append-nil _)
        ∙ sym (ap (λ r. flatten flushed.req_buffer ++ r) none_)
        ∙ flush-held root in
      (
        (send_log_request always true flushed).0,
        (send_log_request always true flushed).1,
        rw pending,
        ap (λ p. flatten p.0) all ∙ whole,
        ap (λ p. flatten p.1 ++ flushed.cur_log_req) all ∙ none_,
      )
