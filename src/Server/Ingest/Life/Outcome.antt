-- ===== src/Server/Ingest/Life/Outcome.antt =====
-- What becomes of a connection of src/server/ingest_events.rs, from the hello to the end.
use seabird_core.Prelude.{
  ◌≡◌, refl, sym, ap, ◌∙◌, arith, text, Option, none, some, List, [], ◌∷◌, ◌++◌, true, false,
  RpcResult, Status, ok, err, status, already_exists, contains_key, insert, append-nil, Bool-cases,
  Option-cases, Result-cases, inl, inr,
}
use seabird_core.Id.{BackendId, backend_id_ord}
use seabird_core.Id.Percent.{PercentEncoding}
use seabird_core.Proto.{ChatEvent, BackendInfo}
use seabird_core.Server.State.{Server, CleanupRequest, backend}
use seabird_core.Server.Requests.{register_backend}
use seabird_core.Server.Ingest.{
  IngestEvents, Selected, read_hello, connect, start, run, turn, disconnect,
}
use seabird_core.Server.Ingest.Frame.{Same, turn-Same}
use seabird_core.Server.Ingest.Start.{Started, start-Started}
use seabird_core.Server.Ingest.Session.{loop_end, shown_loop, passed_loop}
use seabird_core.Server.Ingest.Session.Run.{run-loop_end}
use seabird_core.Server.Ingest.Life.Hello.{Hello, read_hello-Hello}
use seabird_core.Server.Ingest.Life.{Life, looping, ended, connection_task, after_loop}

abbrev id_of : BackendInfo → BackendId
id_of info = record { scheme = info.type; id = info.id }

module _ (p : PercentEncoding) where
  -- The connection `c` was registered under `id`, and did what its loop selects, to its end.
  pub record Served (id : BackendId) (c : IngestEvents) (xs : List Selected) (s t : Server)
      (queued : List CleanupRequest) : Type 0 where
    pub free : contains_key id s.backends ≡ false
    pub own : c.id ≡ id
    pub handle : c.backend_handle.id ≡ id
    pub registered : t.backends ≡ insert id c.backend s.backends
    pub shown : t.sender ≡ s.sender ++ shown_loop p c xs
    pub passed : t.passed ≡ s.passed ++ passed_loop c.backend_handle.receiver xs
    pub commands : t.commands ≡ s.commands
    pub cleanup : t.cleanup ≡ s.cleanup ++ queued

  -- The ends of a connection's task.
  pub data Outcome (first : RpcResult (Option ChatEvent)) (xs : List Selected) (s : Server)
      : Life × Server → Type 0 where
    no_hello : (e : Status) → Hello first (err e) → Outcome first xs s (ended (e ∷ []), s)
    taken :
        (info : BackendInfo)
        → Hello first (ok info)
        → contains_key (id_of info) s.backends ≡ true
        → Outcome first xs s (ended (status already_exists (text "id already exists") ∷ []), s)
    goes_on :
        (info : BackendInfo) (c : IngestEvents) (t : Server)
        → Hello first (ok info)
        → loop_end xs ≡ none
        → Served (id_of info) c xs s t []
        → Outcome first xs s (looping c, t)
    is_over :
        (info : BackendInfo) (c : IngestEvents) (t : Server) (e : Status)
        → Hello first (ok info)
        → loop_end xs ≡ some e
        → Served (id_of info) c xs s t (backend (id_of info) ∷ [])
        → Outcome first xs s (ended (e ∷ []), t)

  greeted :
      (first : RpcResult (Option ChatEvent)) (r : RpcResult BackendInfo)
      → read_hello first ≡ r
      → Hello first r
  greeted first r h = rw h at (read_hello-Hello first)

  run-Same : (c : IngestEvents) (xs : List Selected) (s : Server) → Same s (run p c xs s).1
  unfolding run
  run-Same c [] s = record { backends = refl; commands = refl; cleanup = refl }
  run-Same c (x ∷ xs) s = elim (Result-cases (turn p c x s).0) [
    | inl (a, e) ↦
        let one = turn-Same p c x s in
        let more = run-Same c xs (turn p c x s).1 in
        rw e (record {
          backends = more.backends ∙ one.backends;
          commands = more.commands ∙ one.commands;
          cleanup = more.cleanup ∙ one.cleanup;
        })
    | inr (why, e) ↦ rw e (turn-Same p c x s)
  ]

  -- The loop, before its end queues anything.
  loop-Served :
      (xs : List Selected) (s u : Server) (id : BackendId) (c : IngestEvents)
      → c.id ≡ id
      → Started c s u
      → Served id c xs s (run p c xs u).1 []
  loop-Served xs s u id c i b =
      let kept = run-Same c xs u in
      let (result, shown, passed) = run-loop_end p c xs u in
      record {
        free = rw i at b.absent;
        own = i;
        handle = b.handle ∙ i;
        registered = kept.backends ∙ rw i at (rw (← b.arc) at b.backends);
        shown = shown ∙ ap (λ l. l ++ shown_loop p c xs) b.sender;
        passed = passed ∙ ap (λ l. l ++ passed_loop c.backend_handle.receiver xs) b.passed;
        commands = kept.commands ∙ b.commands;
        cleanup = kept.cleanup ∙ b.cleanup ∙ sym (append-nil s.cleanup);
      }

  disconnect-Served :
      (xs : List Selected) (s t : Server) (id : BackendId) (c : IngestEvents)
      → Served id c xs s t []
      → Served id c xs s (disconnect c t) (backend id ∷ [])
  unfolding disconnect
  disconnect-Served xs s t id c v = record {
    free = v.free;
    own = v.own;
    handle = v.handle;
    registered = v.registered;
    shown = v.shown;
    passed = v.passed;
    commands = v.commands;
    cleanup = rw v.handle (ap (λ l. l ++ backend id ∷ []) (v.cleanup ∙ append-nil s.cleanup));
  }

  loop-Outcome :
      (first : RpcResult (Option ChatEvent)) (xs : List Selected) (s u : Server)
      (info : BackendInfo) (c : IngestEvents)
      → read_hello first ≡ ok info
      → c.id ≡ id_of info
      → Started c s u
      → Outcome first xs s (after_loop c (run p c xs u))
  loop-Outcome first xs s u info c h i b =
      let v = loop-Served xs s u (id_of info) c i b in
      elim (Option-cases (loop_end xs)) [
        | inl e ↦
            rw ((run-loop_end p c xs u).0, e)
              (goes_on info c (run p c xs u).1 (greeted first _ h) e v)
        | inr (why, e) ↦
            rw ((run-loop_end p c xs u).0, e)
              (is_over info c (disconnect c (run p c xs u).1) why (greeted first _ h) e
                (disconnect-Served xs s (run p c xs u).1 (id_of info) c v))
      ]

  -- What the start comes to.
  start_free :
      (first : RpcResult (Option ChatEvent)) (info : BackendInfo) (s : Server)
      → read_hello first ≡ ok info
      → contains_key (id_of info) s.backends ≡ false
      → (c : IngestEvents) × (u : Server) × (start first s ≡ (ok c, u)) × (c.id ≡ id_of info)
  unfolding start connect register_backend
  start_free first info s h e = (
    record {
      id = id_of info;
      backend = s.next;
      backend_handle = record { id = id_of info; receiver = s.next };
    },
    (start first s).1,
    ground (arith, h, e),
    refl,
  )

  start_taken :
      (first : RpcResult (Option ChatEvent)) (info : BackendInfo) (s : Server)
      → read_hello first ≡ ok info
      → contains_key (id_of info) s.backends ≡ true
      → start first s ≡ (err (status already_exists (text "id already exists")), s)
  unfolding start connect register_backend
  start_taken first info s h e = ground (arith, h, e)

  start_unread :
      (first : RpcResult (Option ChatEvent)) (e : Status) (s : Server)
      → read_hello first ≡ err e
      → start first s ≡ (err e, s)
  unfolding start
  start_unread first e s h = ground (arith, h)

  -- A connection's task, over its first message and all that its loop then selects, while no other
  -- task acts. Without a proper hello, or with one for an identifier that is registered, it changes
  -- nothing, and the error is logged. Otherwise the backend is registered, and each message, action,
  -- mention and command is broadcast with its source under the backend's identifier, a text with its
  -- block filled in and rendered, and each request is passed on, all in order and nothing else, up to
  -- the first thing that ends the loop. If there is one, its error is logged and the backend is queued
  -- for cleanup, once; if there is none, the loop waits for more and nothing is queued.
  pub connection_task-Outcome :
      (first : RpcResult (Option ChatEvent)) (xs : List Selected) (s : Server)
      → Outcome first xs s (connection_task p first xs s)
  unfolding connection_task
  connection_task-Outcome first xs s = elim (Result-cases (read_hello first)) [
    | inr (e, h) ↦ rw (start_unread first e s h) (no_hello e (greeted first _ h))
    | inl (info, h) ↦ elim (Bool-cases (contains_key (id_of info) s.backends)) [
      | inl t ↦ rw (start_taken first info s h t) (taken info (greeted first _ h) t)
      | inr t ↦
          let (c, u, e, i) = start_free first info s h t in
          rw e (loop-Outcome first xs s u info c h i (start-Started first c s u e))
    ]
  ]
