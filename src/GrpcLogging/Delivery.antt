-- ===== src/GrpcLogging/Delivery.antt =====
-- Runs of extensions/grpc_logging/plugin.cc: log entries, ticks and callbacks in any order, with the
-- requests that the host has accepted.
use wasm_extensions.Prelude.{
  ℕ, ◌+◌, ◌≡◌, refl, sym, ap, ◌∙◌, Bool, false, List, [], ◌∷◌, ◌++◌, append-nil, append_assoc,
  length, leb, is_empty, Bool-cases, inl, inr,
}
use wasm_extensions.GrpcLogging.Buffer.{
  Root, new_root, max_entries, flush_log_buffer, add_log_entry, send_from, send_log_request,
  on_tick, on_callback,
}

-- What the host makes the plugin do while it runs.
pub data Event (Entry : Type 0) : Type 0 where
  log : Entry → Event Entry
  tick : (ℕ → Bool) → Event Entry
  callback : Event Entry

-- The root context with the requests that the host has accepted so far.
pub record History (Entry : Type 0) : Type 0 where
  pub root : Root Entry
  pub sent : List (List Entry)

module _ {Entry : Type 0} where
  abbrev pub flatten : List (List Entry) → List Entry
  flatten [] = []
  flatten (xs ∷ xss) = xs ++ flatten xss

  unfoldable pub on_event : Event Entry → History Entry → History Entry
  on_event (log e) h = record h { root = add_log_entry e h.root }
  on_event (tick accepts) h =
      let (root', sent) = on_tick accepts h.root in record { root = root'; sent = h.sent ++ sent }
  on_event callback h = record h { root = (on_callback h.root).1 }

  unfoldable pub run : List (Event Entry) → History Entry → History Entry
  run [] h = h
  run (e ∷ es) h = run es (on_event e h)

  -- The entries that were logged, in order.
  unfoldable pub logged : List (Event Entry) → List Entry
  logged [] = []
  logged (log e ∷ es) = e ∷ logged es
  logged (tick accepts ∷ es) = logged es
  logged (callback ∷ es) = logged es

  -- All entries of a root context, oldest first.
  abbrev pub held : Root Entry → List Entry
  held root = flatten root.req_buffer ++ root.cur_log_req

  pub flatten-append :
      (xss yss : List (List Entry)) → flatten (xss ++ yss) ≡ flatten xss ++ flatten yss
  flatten-append [] yss = refl
  flatten-append (xs ∷ xss) yss =
      rw (flatten-append xss yss) (sym (append_assoc xs (flatten xss) (flatten yss)))

  -- The counter counts the entries of the current request.
  abbrev pub Counted : Root Entry → Type 0
  Counted root = root.log_entry_count ≡ length root.cur_log_req

  flatten_end :
      (xss : List (List Entry)) (xs : List Entry)
      → flatten (xss ++ xs ∷ []) ++ [] ≡ flatten xss ++ xs
  flatten_end xss xs =
      append-nil _ ∙ flatten-append xss (xs ∷ []) ∙ ap (λ r. flatten xss ++ r) (append-nil xs)

  pub flush-held : (root : Root Entry) → held (flush_log_buffer root) ≡ held root
  unfolding flush_log_buffer
  flush-held root = elim (Bool-cases (leb root.log_entry_count 0)) [
    | inl y ↦ rw y
    | inr n ↦ rw n (flatten_end root.req_buffer root.cur_log_req)
  ]

  pub send_from-flatten :
      (accepts : ℕ → Bool) (i : ℕ) (reqs : List (List Entry))
      → flatten (send_from accepts i reqs).0 ++ flatten (send_from accepts i reqs).1 ≡ flatten reqs
  unfolding send_from
  send_from-flatten accepts i [] = refl
  send_from-flatten accepts i (req ∷ reqs) = elim (Bool-cases (accepts i)) [
    | inl yes_ ↦
        rw yes_ (append_assoc req _ _ ∙ ap (λ r. req ++ r) (send_from-flatten accepts (i + 1) reqs))
    | inr no_ ↦ rw no_
  ]

  add-held : (e : Entry) (root : Root Entry) → held (add_log_entry e root) ≡ held root ++ e ∷ []
  unfolding add_log_entry
  add-held e root = elim (Bool-cases (leb max_entries (root.log_entry_count + 1))) [
    | inl full ↦
        rw full
          (flush-held _ ∙ sym (append_assoc (flatten root.req_buffer) root.cur_log_req (e ∷ [])))
    | inr room ↦ rw room (sym (append_assoc (flatten root.req_buffer) root.cur_log_req (e ∷ [])))
  ]

  send-held :
      (accepts : ℕ → Bool) (ondone : Bool) (root : Root Entry)
      → flatten (send_log_request accepts ondone root).1
          ++ held (send_log_request accepts ondone root).0
        ≡ held root
  unfolding send_log_request
  send-held accepts ondone root =
      sym (append_assoc (flatten (send_from accepts 0 root.req_buffer).0) _ _)
      ∙ ap (λ r. r ++ root.cur_log_req) (send_from-flatten accepts 0 root.req_buffer)

  tick-held :
      (accepts : ℕ → Bool) (root : Root Entry)
      → flatten (on_tick accepts root).1 ++ held (on_tick accepts root).0 ≡ held root
  unfolding on_tick
  tick-held accepts root = elim (Bool-cases (is_empty (flush_log_buffer root).req_buffer)) [
    | inl none_ ↦ rw none_ (flush-held root)
    | inr some_ ↦ rw some_ (send-held accepts false (flush_log_buffer root) ∙ flush-held root)
  ]

  -- All that was logged, sent or not.
  abbrev pub total : History Entry → List Entry
  total h = flatten h.sent ++ held h.root

  event-total :
      (e : Event Entry) (h : History Entry) → total (on_event e h) ≡ total h ++ logged (e ∷ [])
  unfolding on_event logged on_callback
  event-total (log e) h =
      ap (λ r. flatten h.sent ++ r) (add-held e h.root)
      ∙ sym (append_assoc (flatten h.sent) (held h.root) (e ∷ []))
  event-total (tick accepts) h =
      ap (λ r. r ++ held (on_tick accepts h.root).0)
        (flatten-append h.sent (on_tick accepts h.root).1)
      ∙ append_assoc (flatten h.sent) _ _
      ∙ ap (λ r. flatten h.sent ++ r) (tick-held accepts h.root)
      ∙ sym (append-nil (total h))
  event-total callback h = sym (append-nil (total h))

  logged-cons :
      (e : Event Entry) (es : List (Event Entry)) → logged (e ∷ es) ≡ logged (e ∷ []) ++ logged es
  unfolding logged
  logged-cons (log e) es = refl
  logged-cons (tick accepts) es = refl
  logged-cons callback es = refl

  nothing_logged : (h : History Entry) → total h ≡ total h ++ logged []
  unfolding logged
  nothing_logged h = sym (append-nil (total h))

  run-total :
      (es : List (Event Entry)) (h : History Entry) → total (run es h) ≡ total h ++ logged es
  unfolding run
  run-total [] h = nothing_logged h
  run-total (e ∷ es) h =
      run-total es (on_event e h)
      ∙ ap (λ r. r ++ logged es) (event-total e h)
      ∙ append_assoc (total h) (logged (e ∷ [])) (logged es)
      ∙ ap (λ r. total h ++ r) (sym (logged-cons e es))

  -- A new plugin that logs entries, ticks and is called back, whichever calls the host accepts: the
  -- requests accepted so far, those that wait and the current one hold together every entry that was
  -- logged, once and in order.
  pub run-delivered :
      (es : List (Event Entry)) → total (run es (record { root = new_root; sent = [] })) ≡ logged es
  run-delivered es = run-total es _
