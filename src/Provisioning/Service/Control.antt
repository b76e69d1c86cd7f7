-- ===== src/Provisioning/Service/Control.antt =====
-- Starting and stopping the service in provisioning_service.c.
use industrial_edge_monitor.Base.{
  ℕ, zero, suc, ◌+◌, Bool, true, false, ◌&&◌, not, Option, none, some, List, [], ◌∷◌, leb,
  if◌then◌else◌, EspErr, esp_ok, esp_fail, no_mem, invalid_arg, timeout, is_ok, codes,
}
use industrial_edge_monitor.Config.{DeviceConfig}
use industrial_edge_monitor.Provisioning.State.{Machine}
use industrial_edge_monitor.Provisioning.Stream.{init, stop_satisfied}
use industrial_edge_monitor.Provisioning.Service.{
  Http, register, start_server, httpd_stop, delay_ms, Service, Act, ◌>>=◌, ◌>>◌, pure, get, modify,
  modify_then, call, emit, wait, now_ms, or_stream, stream_lock, session_clear,
  request_stream_shutdown,
}

-- The table of handlers: URI and method.
unfoldable pub handlers : List (List ℕ × List ℕ)
handlers =
    (codes "/", codes "GET")
    ∷ (codes "/api/session", codes "POST")
    ∷ (codes "/api/session", codes "DELETE")
    ∷ (codes "/api/status", codes "GET")
    ∷ (codes "/api/config", codes "GET")
    ∷ (codes "/api/config/candidate", codes "PUT")
    ∷ (codes "/api/config/candidate", codes "DELETE")
    ∷ (codes "/api/config/apply", codes "POST")
    ∷ (codes "/api/logs", codes "GET")
    ∷ (codes "/api/logs/stream", codes "GET")
    ∷ (codes "/api/reboot", codes "POST")
    ∷ (codes "/api/factory-reset", codes "POST")
    ∷ []

-- How the wait for the worker ends. `out_of_fuel` is no outcome of the program.
pub data Waited : Type 0 where
  stopped timed_out out_of_fuel : Waited

-- The three pointers are set to NULL.
abbrev pub without_pointers : {W : Type 0} → Service W → Service W
without_pointers s = record s { configuration = none; setup_secret = none; has_machine = false }

abbrev pub init_stream : {W : Type 0} → Service W → Service W
init_stream s = record s { stream = or_stream s.stream (init (some s.stream)) }

-- After `httpd_stop`: the lifecycle is reset under its lock, and the rest is cleared.
unfoldable pub stopped_service : {W : Type 0} → Bool → Service W → Service W
stopped_service locked s = record (without_pointers (if locked then init_stream s else s)) {
  server = false;
  login_failures = 0;
  login_locked_until_ms = 0;
  stop_in_progress = false;
}

abbrev pub not_in_progress : {W : Type 0} → Service W → Service W
not_in_progress s = record s { stop_in_progress = false }

module _ {W : Type 0} (http : Http) where
  unfoldable pub register_all : List (List ℕ × List ℕ) → Act W EspErr
  register_all [] = pure esp_ok
  register_all ((uri, method) ∷ rest) = do
    emit (register uri method)
    result ← call http.register_uri
    if not (is_ok result) then pure result else register_all rest

  -- From the registration on.
  unfoldable pub register_handlers : Act W EspErr
  unfolding register_all handlers
  register_handlers = do
    result ← register_all handlers
    if is_ok result then pure esp_ok else do
      modify (λ s. without_pointers (record s { server = false }))
      httpd_stop http
      pure result

  -- From `httpd_start` on.
  unfoldable pub start_http : Act W EspErr
  unfolding register_handlers
  start_http = do
    emit start_server
    result ← call http.server_start
    if not (is_ok result)
        then modify_then without_pointers result
        else do modify (λ s. record s { server = true }); register_handlers

  -- `stream_mutex`, which is created once.
  unfoldable pub ensure_mutex : Act W Bool
  ensure_mutex = do
    s ← get
    if s.has_mutex then pure true else do
      created ← call http.mutex_create
      modify (λ t. record t { has_mutex = created })
      pure created

  unfoldable pub service_start :
      Option DeviceConfig → Option (List ℕ) → Option Machine → Act W EspErr
  unfolding ensure_mutex stream_lock start_http
  service_start configuration none machine = pure invalid_arg
  service_start configuration (some secret) none = pure invalid_arg
  service_start configuration (some secret) (some machine) = do
    s ← get
    if s.server then pure invalid_arg else do
      has_mutex ← ensure_mutex
      if not has_mutex then pure no_mem else do
        locked ← stream_lock http
        if not locked then pure esp_fail else do
          modify init_stream
          modify (λ t. record t {
            configuration = configuration;
            setup_secret = some secret;
            has_machine = true;
            machine = machine;
          })
          start_http

  -- The loop with the given fuel. The generation is 0 where there is no worker.
  unfoldable pub wait_loop : ℕ → ℕ → ℕ → Act W Waited
  unfolding stream_lock
  wait_loop fuel zero deadline = pure stopped
  wait_loop zero (suc generation) deadline = pure out_of_fuel
  wait_loop (suc fuel) (suc generation) deadline = do
    locked ← stream_lock http
    s ← get
    if locked && stop_satisfied (some s.stream) (suc generation) then pure stopped else do
      now ← now_ms http
      if leb deadline now
          then pure timed_out
          else do wait http (delay_ms 10); wait_loop fuel (suc generation) deadline

  unfoldable pub stop_http : Act W EspErr
  unfolding session_clear stream_lock stopped_service
  stop_http = do
    session_clear http
    result ← httpd_stop http
    if not (is_ok result)
        then modify_then not_in_progress result
        else do locked ← stream_lock http; modify (stopped_service locked); pure result

  unfoldable pub after_wait : Waited → Act W (Option EspErr)
  unfolding stop_http
  after_wait out_of_fuel = pure none
  after_wait timed_out = modify_then not_in_progress (some timeout)
  after_wait stopped = do result ← stop_http; pure (some result)

  -- `none` is no outcome of the program.
  unfoldable pub service_stop : ℕ → Act W (Option EspErr)
  unfolding request_stream_shutdown wait_loop after_wait
  service_stop fuel = do
    s ← get
    if s.stop_in_progress
        then pure (some timeout)
        else if not s.server
        then pure (some esp_ok)
        else do
          modify (λ t. record t { stop_in_progress = true })
          generation ← request_stream_shutdown http true
          now ← now_ms http
          waited ← wait_loop fuel generation (now + 4000)
          after_wait waited

  unfoldable pub service_is_running : Act W Bool
  service_is_running = do s ← get; pure s.server
