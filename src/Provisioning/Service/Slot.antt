-- ===== src/Provisioning/Service/Slot.antt =====
-- The one slot for an event-stream worker: the handler that takes it gives it back on every path
-- on which it does not start the worker.
pub mod Rules
use industrial_edge_monitor.Base.{
  ℕ, ◌+◌, ◌==◌, ◌≡◌, inl, inr, refl, ap, subst, ◌∙◌, arith, Bool, true, false, ==_iff, Bool-cases,
  ℤ, pos, ◌/◌, not, ◌||◌, Option, none, some, List, ◌∷◌, EspErr, is_ok, if_split,
}
use industrial_edge_monitor.Provisioning.Endpoint.{Abi}
use industrial_edge_monitor.Provisioning.Access.{stream_request_authorized, session_authorized}
use industrial_edge_monitor.Provisioning.Stream.{admit, attach_socket, complete, Lifecycle}
use industrial_edge_monitor.Provisioning.Service.{
  Request, Http, Effect, start_worker, Service, Act, ◌>>=◌, pure, get, call, emit, now_ms,
  stream_lock, or_stream, set_stream, release_worker,
}
use industrial_edge_monitor.Provisioning.Service.Laws.{Keeps, keeps_rules}
use industrial_edge_monitor.Provisioning.Service.Requests.{json_error}
use industrial_edge_monitor.Provisioning.Service.Access.{
  presented_tokens, check_session, authenticated,
}
use industrial_edge_monitor.Provisioning.Service.Guard.{presented-HasCore, authenticated-HasCore}
use industrial_edge_monitor.Provisioning.Service.Events.{
  StreamContext, complete_stream_context, request_stream_generation, stream_no_content,
}
use industrial_edge_monitor.Provisioning.Service.Streams.{
  abandon_stream, refuse_async, attach_stream, start_stream, take_slot, admit_stream,
  logs_stream_admitted, logs_stream_authorized, logs_stream_handler,
}
use industrial_edge_monitor.Provisioning.Service.Slot.Rules.{
  Holds, IsCurrent, Settled, attach_socket_lem, complete-Holds, complete_lem, free,
  json_error-Holds, started,
}

-- The mutex is taken without a time limit.
module _ {W : Type 0} (http : Http) (taken : (n : ℕ) → http.mutex_take n ≡ true) where
  stream_lock_lem :
      (s : Service W)
      → s.has_mutex ≡ true
      → stream_lock http s ≡ (true, record s { calls = s.calls + 1 })
  unfolding stream_lock ◌>>=◌ get pure call
  stream_lock_lem s e = rw (e, taken s.calls) refl

  release_worker_lem :
      (g : ℕ) (s : Service W) → Holds g s → (release_worker http g s).1.stream.active ≡ false
  unfolding release_worker set_stream ◌>>=◌ get
  release_worker_lem g s h =
      rw (stream_lock_lem s h.mutex) (complete_lem g s.stream h.active h.worker)

  abandon_stream-free :
      (context : StreamContext) (message : List ℕ) (s : Service W)
      → Holds context.worker_generation s
      → (abandon_stream http context message s).1.stream.active ≡ false
  unfolding abandon_stream ◌>>=◌ pure
  abandon_stream-free context message s h =
      let answered = (json_error-Holds http context.request _ message).at s h in
      let completed = (complete-Holds (some context)).at _ answered in
      release_worker_lem context.worker_generation _ completed

  refuse_async-free :
      (request : Request) (g : ℕ) (s : Service W)
      → Holds g s
      → (refuse_async http request g s).1.stream.active ≡ false
  unfolding refuse_async json_error ◌>>=◌ emit call
  refuse_async-free request g s h = release_worker_lem g s h

  attach_stream-Holds :
      (context : StreamContext) (s : Service W)
      → Holds context.worker_generation s
      → Holds context.worker_generation (attach_stream http context s).1
  unfolding attach_stream set_stream ◌>>=◌ get pure
  attach_stream-Holds context s h =
      let same = attach_socket_lem s.stream context.worker_generation context.request.socket in
      rw (stream_lock_lem s h.mutex)
        (record { mutex = h.mutex; active = same.0 ∙ h.active; worker = same.1 ∙ h.worker })

  start_stream-Settled :
      (request : Request) (authorized worker : ℕ) (s : Service W)
      → Holds worker s
      → Settled authorized (start_stream http request authorized worker s).1
  unfolding start_stream ◌>>=◌ call emit pure
  start_stream-Settled request authorized worker s h =
      let P = λ (t : Service W) (m : Act W EspErr). Settled authorized (m t).1 in
      let (begun, async_request) = http.async_begin s.calls in
      let context : StreamContext = record {
        request = async_request;
        session_generation = authorized;
        worker_generation = worker;
        lifecycle = record { completed = false };
      } in
      let s1 = record s { calls = s.calls + 1 } in
      let s2 = record s1 { calls = s1.calls + 1 } in
      let h1 : Holds worker s1 = record { mutex = h.mutex; active = h.active; worker = h.worker } in
      let h2 : Holds worker s2 = record { mutex = h.mutex; active = h.active; worker = h.worker } in
      let attached = attach_stream http context s2 in
      let h3 : Holds worker attached.1 = attach_stream-Holds context s2 h2 in
      let s4 = record (attached.1) { calls = attached.1.calls + 1 } in
      let h4 : Holds worker s4 = record {
        mutex = h3.mutex;
        active = h3.active;
        worker = h3.worker;
      } in
      if_split (P s1) (not (is_ok begun)) (λ e. free (refuse_async-free request worker s1 h1))
        (λ e.
          if_split (P s2) (not (http.allocate s1.calls))
            (λ e2. free (abandon_stream-free context _ s2 h2))
            (λ e2.
              if_split (P attached.1) (not attached.0)
                (λ e3. free (abandon_stream-free context _ attached.1 h3))
                (λ e3.
                  if_split (P s4) (not (http.task_create attached.1.calls))
                    (λ e4. free (abandon_stream-free context _ s4 h4))
                    (λ e4. started async_request.handle worker s4.trace h4.worker refl))))

  check_session-IsCurrent :
      (modifying : Bool) (tokens : Option (List ℕ × Option (List ℕ))) (s : Service W)
      → IsCurrent s.session_generation (check_session http modifying tokens s).0
  unfolding check_session ◌>>=◌ get pure now_ms call
  check_session-IsCurrent modifying none s = tt
  check_session-IsCurrent modifying (some (cookie, csrf)) s =
      if_split
        (λ (m : Act W (Option ℕ)).
          IsCurrent s.session_generation (m (record s { calls = s.calls + 1 })).0)
        (not (
          session_authorized (some s.session_token) (some cookie) (some s.csrf_token) csrf
            (pos s.session_expires_ms) (pos (http.timer s.calls / 1000)) modifying))
        (λ e. tt) (λ e. refl)

  authenticated-IsCurrent :
      (abi : Abi) (modifying : Bool) (request : Request) (s : Service W)
      → IsCurrent s.session_generation (authenticated http abi modifying request s).0
  unfolding authenticated ◌>>=◌
  authenticated-IsCurrent abi modifying request s =
      let presented = presented_tokens http abi modifying request s in
      let same =
        ((presented-HasCore http abi modifying request).at s (record { same = refl })).same in
      subst (λ g. IsCurrent g (check_session http modifying presented.0 presented.1).0)
        (ap (λ c. c.session_generation) same)
        (check_session-IsCurrent modifying presented.0 presented.1)

  abbrev Admitted : Option (Option ℕ) → Service W → Type 0
  Admitted none s = s.stream.active ≡ false
  Admitted (some none) s = s.stream.active ≡ false
  Admitted (some (some worker)) s = Holds worker s

  take_slot-Admitted :
      (s : Service W)
      → s.has_mutex ≡ true
      → s.stream.active ≡ false
      → Admitted (some (take_slot http s).0) (take_slot http s).1
  unfolding take_slot set_stream admit ◌>>=◌ get pure
  take_slot-Admitted s mutex idle = elim (Bool-cases s.stream.service_stopping) [
    | inl stopping ↦ rw (idle, stopping) refl
    | inr running ↦ rw (idle, running) (record { mutex = mutex; active = refl; worker = refl })
  ]

  admit_stream-Admitted :
      (authorized : ℕ) (requested : List ℕ) (s : Service W)
      → s.has_mutex ≡ true
      → s.stream.active ≡ false
      → Admitted
          (admit_stream http authorized requested s).0
          (admit_stream http authorized requested s).1
  unfolding admit_stream now_ms call ◌>>=◌ get pure
  admit_stream-Admitted authorized requested s mutex idle =
      let timed = record s { calls = s.calls + 1 } in
      if_split (λ (m : Act W (Option (Option ℕ))). Admitted (m timed).0 (m timed).1)
        (not (
            stream_request_authorized (some requested) authorized (pos s.session_expires_ms)
              (pos (http.timer s.calls / 1000)))
          || not (s.session_generation == authorized))
        (λ refused. idle) (λ passed. take_slot-Admitted timed mutex idle)

  admitted-Settled :
      (request : Request) (authorized : ℕ) (admitted : Option (Option ℕ)) (s : Service W)
      → Admitted admitted s
      → Settled authorized (logs_stream_admitted http request authorized admitted s).1
  unfolding logs_stream_admitted stream_no_content json_error ◌>>=◌ emit call
  admitted-Settled request authorized none s idle = free idle
  admitted-Settled request authorized (some none) s idle = free idle
  admitted-Settled request authorized (some (some worker)) s h =
      start_stream-Settled request authorized worker s h

  authorized-Settled :
      (request : Request) (current : ℕ) (generation : Option ℕ) (requested : Option (List ℕ))
      (s : Service W)
      → IsCurrent current generation
      → s.has_mutex ≡ true
      → s.stream.active ≡ false
      → Settled current (logs_stream_authorized http request generation requested s).1
  unfolding logs_stream_authorized stream_no_content ◌>>=◌ emit call
  authorized-Settled request current none requested s same mutex idle = free idle
  authorized-Settled request current (some g) none s same mutex idle = free idle
  authorized-Settled request current (some g) (some requested) s same mutex idle =
      let locked = record s { calls = s.calls + 1 } in
      let admitted = admit_stream http g requested locked in
      rw (stream_lock_lem s mutex) (
        subst (λ c. Settled c (logs_stream_admitted http request g admitted.0 admitted.1).1) same
          (admitted-Settled request g admitted.0 admitted.1
            (admit_stream-Admitted g requested locked mutex idle)))

  -- Where the mutex is there and free, and no worker has the slot before: after the handler of the
  -- event stream, the slot is free again, or the last thing that the handler did is to start the
  -- task for the worker that has the slot, with the generation of the current session. So no path
  -- of the handler takes the slot for good.
  pub logs_stream_handler-Settled :
      (abi : Abi) (request : Request) (s : Service W)
      → s.has_mutex ≡ true
      → s.stream.active ≡ false
      → Settled s.session_generation (logs_stream_handler http abi request s).1
  unfolding logs_stream_handler ◌>>=◌
  logs_stream_handler-Settled abi request s mutex idle =
      let checked = authenticated http abi false request s in
      let same =
        ((authenticated-HasCore http abi false request).at s (record { same = refl })).same in
      authorized-Settled request s.session_generation checked.0 (request_stream_generation request)
        checked.1 (authenticated-IsCurrent abi false request s) (ap (λ c. c.has_mutex) same ∙ mutex)
        (ap (λ c. c.stream.active) same ∙ idle)
