-- ===== src/Provisioning/Service/Streams.antt =====
-- The handler of provisioning_service.c that admits and starts the event-stream worker.
use industrial_edge_monitor.Base.{
  ℕ, Bool, false, ◌||◌, not, Option, none, some, List, ◌==◌, if◌then◌else◌, EspErr, esp_ok, is_ok,
  pos, codes,
}
use industrial_edge_monitor.Provisioning.Access.{stream_request_authorized}
use industrial_edge_monitor.Provisioning.Endpoint.{Abi}
use industrial_edge_monitor.Provisioning.Stream.{admit, attach_socket}
use industrial_edge_monitor.Provisioning.Service.{
  Request, Http, start_worker, Act, ◌>>=◌, ◌>>◌, pure, get, call, emit, now_ms, set_stream,
  stream_lock, release_worker,
}
use industrial_edge_monitor.Provisioning.Service.Requests.{json_error}
use industrial_edge_monitor.Provisioning.Service.Access.{authenticated}
use industrial_edge_monitor.Provisioning.Service.Events.{
  StreamContext, complete_stream_context, stream_no_content, request_stream_generation,
}

module _ {W : Type 0} (http : Http) where
  -- A stream that cannot start: the response, the end of the asynchronous request and of the slot.
  unfoldable pub abandon_stream : StreamContext → List ℕ → Act W EspErr
  unfolding json_error complete_stream_context release_worker
  abandon_stream context message = do
    json_error http context.request (codes "503 Service Unavailable") message
    complete_stream_context (some context)
    release_worker http context.worker_generation
    pure esp_ok

  -- The request could not be made asynchronous.
  unfoldable pub refuse_async : Request → ℕ → Act W EspErr
  unfolding json_error release_worker
  refuse_async request worker_generation = do
    release_worker http worker_generation
    json_error http request (codes "503 Service Unavailable")
        (codes "asynchronous diagnostic stream unavailable")

  -- `provisioning_stream_attach_socket` under the lock.
  unfoldable pub attach_stream : StreamContext → Act W Bool
  unfolding stream_lock
  attach_stream context = do
    locked ← stream_lock http
    s ← get
    let (stream, attached) =
        attach_socket (some s.stream) context.worker_generation context.request.socket
    if not locked then pure false else do set_stream stream; pure attached

  -- From `httpd_req_async_handler_begin` on, for the admitted worker. Without a context, the flag of
  -- the completion is a local variable.
  unfoldable pub start_stream : Request → ℕ → ℕ → Act W EspErr
  unfolding refuse_async abandon_stream attach_stream
  start_stream request session_generation worker_generation = do
    (result, async_request) ← call http.async_begin
    if not (is_ok result) then refuse_async request worker_generation else do
      let context : StreamContext = record {
        request = async_request;
        session_generation = session_generation;
        worker_generation = worker_generation;
        lifecycle = record { completed = false };
      }
      allocated ← call http.allocate
      if not allocated
          then abandon_stream context (codes "diagnostic stream context unavailable")
          else do
            attached ← attach_stream context
            if not attached
                then abandon_stream context (codes "diagnostic stream is stopping")
                else do
                  created ← call http.task_create
                  if not created
                      then abandon_stream context (codes "diagnostic worker unavailable")
                      else do
                        emit
                            (start_worker async_request.handle session_generation worker_generation)
                        pure esp_ok

  -- `provisioning_stream_admit`: the generation of the worker if one is admitted.
  unfoldable pub take_slot : Act W (Option ℕ)
  unfolding set_stream
  take_slot = do
    s ← get
    let (stream, generation, admitted) = admit (some s.stream) (some 0)
    set_stream stream
    pure (if admitted then generation else none)

  -- The section under both locks: `none` where the session does not authorize the request.
  unfoldable pub admit_stream : ℕ → List ℕ → Act W (Option (Option ℕ))
  unfolding take_slot
  admit_stream authorized requested = do
    now ← now_ms http
    s ← get
    if not (
            stream_request_authorized (some requested) authorized (pos s.session_expires_ms)
              (pos now))
          || not (s.session_generation == authorized)
        then pure none
        else do generation ← take_slot; pure (some generation)

  unfoldable pub logs_stream_admitted : Request → ℕ → Option (Option ℕ) → Act W EspErr
  unfolding stream_no_content json_error start_stream
  logs_stream_admitted request authorized none = stream_no_content http request
  logs_stream_admitted request authorized (some none) =
      json_error http request (codes "409 Conflict") (codes "only one diagnostic stream is allowed")
  logs_stream_admitted request authorized (some (some worker)) =
      start_stream request authorized worker

  -- From `stream_lock` on, with the authorized generation and the requested one.
  unfoldable pub logs_stream_authorized : Request → Option ℕ → Option (List ℕ) → Act W EspErr
  unfolding stream_lock stream_no_content admit_stream logs_stream_admitted
  logs_stream_authorized request none requested = stream_no_content http request
  logs_stream_authorized request (some authorized) none = stream_no_content http request
  logs_stream_authorized request (some authorized) (some requested) = do
    locked ← stream_lock http
    if not locked then stream_no_content http request else do
      admitted ← admit_stream authorized requested
      logs_stream_admitted request authorized admitted

  unfoldable pub logs_stream_handler : Abi → Request → Act W EspErr
  unfolding authenticated logs_stream_authorized request_stream_generation
  logs_stream_handler abi request = do
    generation ← authenticated http abi false request
    logs_stream_authorized request generation (request_stream_generation request)
