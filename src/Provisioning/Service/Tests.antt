-- ===== src/Provisioning/Service/Tests.antt =====
-- The provisioning service at concrete inputs.
use industrial_edge_monitor.Base.{
  All, ◌<◌, ◌%◌, zero, suc, ◌^◌, ℕ, ◌+◌, ◌≤◌, ◌≡◌, ◌≢◌, refl, arith, true, false, none, some, [],
  ◌∷◌, replicate, length-replicate, length, esp_ok, codes, ℤ, decimal_text,
}
use industrial_edge_monitor.Config.Store.Memory.{memory_nvs}
use industrial_edge_monitor.Config.Store.Operations.{factory_reset}
use industrial_edge_monitor.Config.Samples.{site, any_certificate}
use industrial_edge_monitor.Config.{DeviceConfig}
use industrial_edge_monitor.Config.Validate.{
  validate, check, check_identity, check_ranges, check_gpio, valid_device_id, reserved_ids,
  gpio_allowed, split_first, split_last, valid_mqtts_uri, valid_uri_text, valid_authority,
  valid_port, valid_port_from, valid_named, valid_bracketed, has_part, message,
}
use industrial_edge_monitor.Provisioning.Service.Parsing.Fields as Fields
use industrial_edge_monitor.Provisioning.Service.Parsing.{
  copy_json_string, json_uint, parse_fields, parse_maintenance, parse_machine, parse_configuration,
}
use industrial_edge_monitor.Provisioning.Service.Parsing.Fields.{
  ok, or_refused, guard, finish_parse,
}
use industrial_edge_monitor.Provisioning.Service.Parsing.Accepted.{
  IsCandidate, parse_configuration-IsCandidate,
}
use industrial_edge_monitor.Provisioning.Service.Views.Shown.{object_of}
use industrial_edge_monitor.Config.Store.Secret.{hex_text}
use industrial_edge_monitor.Provisioning.Access.{
  parse_stream_generation, stream_request_authorized, json_body_allowed, session_authorized,
  constant_time_equal, accumulate, factory_confirmed,
}
use industrial_edge_monitor.Provisioning.Access.Session.{Before}
use industrial_edge_monitor.Provisioning.Endpoint.{authorize_socket, is_authorized, classify}
use industrial_edge_monitor.Provisioning.Stream.{request_shutdown}
use industrial_edge_monitor.Provisioning.State.{authenticated_activity}
use industrial_edge_monitor.Provisioning.Service.{
  httpd_stop, Value, text, number, flag, ◌>>=◌, pure, get, modify, modify_then, call, emit, now_ms,
  stream_lock, set_stream, close_if, session_clear, service_is_stopping, request_stream_shutdown,
}
use industrial_edge_monitor.Provisioning.Service.Laws.{core}
use industrial_edge_monitor.Provisioning.Service.Requests.{
  cookie_token, receive_loop, request_arrived_on_softap, json_error, refuse_body, receive_json,
}
use industrial_edge_monitor.Provisioning.Service.Access.{
  presented_tokens, tell_machine, note_activity, check_session, authenticated, require_auth,
}
use industrial_edge_monitor.Provisioning.Service.Sessions.{
  lock_login, count_failure, reject_login, accept_login, judge_login, login, session_create_handler,
}
use industrial_edge_monitor.Provisioning.Service.Handlers.{factory_reset_handler}
use industrial_edge_monitor.Provisioning.Service.Control.{
  service_start, ensure_mutex, start_http, register_handlers, register_all, handlers, service_stop,
  wait_loop, stop_http, after_wait, stopped_service,
}
use industrial_edge_monitor.Provisioning.Service.Streams.{logs_stream_handler}
use industrial_edge_monitor.Provisioning.Service.Guard.{require_auth_lem, factory_reset_handler_lem}
use industrial_edge_monitor.Provisioning.Service.Replaced.{
  IsRandom, IsReplaced, accept_login-IsReplaced,
}
use industrial_edge_monitor.Provisioning.Service.Lockout.{done, again, refusals_bound}
use industrial_edge_monitor.Provisioning.Service.Lockout.Responses.{refusals}
use industrial_edge_monitor.Provisioning.Service.Body.{IsBody, Receives, receive_loop_lem}
use industrial_edge_monitor.Provisioning.Service.Stopping.{
  IsClock, IsStopped, service_stop_ends, service_stop-IsStopped,
}
use industrial_edge_monitor.Provisioning.Service.Slot.{logs_stream_handler-Settled}
use industrial_edge_monitor.Provisioning.Service.Slot.Rules.{Settled}
use industrial_edge_monitor.Provisioning.Service.Authentic.{IsAuthentic, authenticated-IsAuthentic}
use industrial_edge_monitor.Provisioning.Service.Generations.{parse_stream_generation-decimal_text}
use industrial_edge_monitor.Provisioning.Service.Samples.{
  lwip, four_failures, bare_request, session_request, reset_request, device, logging_in, token,
  ticking, running, json,
}

require_auth_lem_example :
    ((require_auth device lwip true bare_request running).0 ≡ esp_ok)
    × (core (require_auth device lwip true bare_request running).1 ≡ core running)
require_auth_lem_example = require_auth_lem device (λ n. refl) lwip true bare_request running

factory_reset_handler_lem_example :
    (factory_reset_handler device lwip memory_nvs reset_request running).1.store
    ≡ (factory_reset memory_nvs running.store).1
unfolding factory_confirmed constant_time_equal
factory_reset_handler_lem_example =
    factory_reset_handler_lem device (λ n. refl) memory_nvs lwip reset_request running refl

same_bytes : (count n : ℕ) → n < 2 ^ 8 → All (λ x. x < 2 ^ 8) (replicate count n)
same_bytes zero n small = tt
same_bytes (suc count) n small = (small, same_bytes count n small)

device-IsRandom : IsRandom device
device-IsRandom = record { bytes = λ n. same_bytes 16 (n % 256) (omega arith); size = λ n. refl }

accept_login-IsReplaced_example :
    IsReplaced device four_failures running
      (accept_login device four_failures bare_request running).1
unfolding hex_text
accept_login-IsReplaced_example =
    accept_login-IsReplaced device four_failures bare_request running device-IsRandom (ground arith)
      (omega arith) (λ e. cc)

device-Receives : Receives device
device-Receives = record {
  within = λ n size bytes positive e.
      let same : replicate size b' ' ≡ bytes = cc in
      let size_e : length bytes ≡ size = rw⁻¹ same (length-replicate size b' ') in
      (omega arith, omega arith);
}

receive_loop_lem_example : IsBody 300 (receive_loop device 300 [] 300 running).0
receive_loop_lem_example = receive_loop_lem device-Receives 300 running

ticking-IsClock : IsClock ticking
ticking-IsClock = record { reach = λ t. t; reached = λ t n h. omega arith }

service_stop_ends_example : (fuel : ℕ) × ((service_stop ticking fuel running).0 ≢ none)
service_stop_ends_example = service_stop_ends ticking ticking-IsClock running

stop_succeeds : (service_stop logging_in 5 running).0 ≡ some esp_ok
unfolding service_stop request_stream_shutdown stream_lock request_shutdown set_stream close_if
    wait_loop after_wait stop_http session_clear stopped_service ◌>>=◌ pure get modify modify_then
    call httpd_stop emit now_ms
stop_succeeds = refl

service_stop-IsStopped_example : IsStopped logging_in (service_stop logging_in 5 running).1
service_stop-IsStopped_example = service_stop-IsStopped logging_in 5 running refl stop_succeeds

-- The session of a login that ends while the service stops is left, and stays if it starts again.
session_left :
    let stopped = (service_stop logging_in 5 running).1 in
    let started =
      (service_start logging_in
        (some site)
        (some (codes "0123456789abcdef0123456789abcdef"))
        (some running.machine)
        stopped).1 in
    (stopped.session_token ≡ token) × (started.session_token ≡ token) × (started.server ≡ true)
unfolding service_stop request_stream_shutdown stream_lock request_shutdown set_stream close_if
    wait_loop after_wait stop_http session_clear stopped_service ◌>>=◌ pure get modify modify_then
    call httpd_stop emit now_ms service_start ensure_mutex start_http register_handlers register_all
    handlers
session_left = (refl, refl, refl)

logs_stream_handler-Settled_example :
    Settled 3 (logs_stream_handler device lwip session_request running).1
logs_stream_handler-Settled_example =
    logs_stream_handler-Settled device (λ n. refl) lwip session_request running refl refl

session_request_accepted : (authenticated device lwip false session_request running).0 ≡ some 3
unfolding authenticated presented_tokens service_is_stopping stream_lock request_arrived_on_softap
    authorize_socket classify is_authorized cookie_token check_session session_authorized
    constant_time_equal accumulate note_activity tell_machine authenticated_activity hex_text ◌>>=◌
    pure get modify call emit now_ms
session_request_accepted = refl

authenticated-IsAuthentic_example : IsAuthentic device lwip false session_request running 3
authenticated-IsAuthentic_example =
    authenticated-IsAuthentic device lwip false session_request running 3 session_request_accepted

parse_stream_generation-decimal_text_example :
    (parse_stream_generation (some (decimal_text 1207)) true ≡ some 1207)
    × ((expires now : ℤ)
        → Before now expires
        → stream_request_authorized (some (decimal_text 1207)) 1207 expires now ≡ true)
parse_stream_generation-decimal_text_example =
    parse_stream_generation-decimal_text 1207 (omega arith) (omega arith)

-- Two requests without a content type: each is refused twice, and counts as a failed login.
guess_refused :
    (session_create_handler device four_failures json lwip bare_request
      running).1.session_generation
    ≡ 3
unfolding session_create_handler login judge_login reject_login lock_login count_failure
    receive_json refuse_body json_body_allowed json_error request_arrived_on_softap authorize_socket
    classify is_authorized ◌>>=◌ pure get modify call emit now_ms
guess_refused = refl

refusals_bound_example :
    refusals (session_create_handler device four_failures json lwip bare_request running).1.trace
    ≤ 0 + 4
refusals_bound_example =
    refusals_bound device four_failures json lwip 5000 (omega arith) (λ n. omega arith)
      (λ n. omega arith) (omega arith) (again bare_request guess_refused done)

-- The settings of a site, without its passwords and its certificate.
abbrev given : Value
given = object_of (
    (codes "schema_version", number 1)
    ∷ (codes "device_id", text (codes "edge-01"))
    ∷ (codes "wifi_ssid", text (codes "plant"))
    ∷ (codes "mqtt_broker_uri", text (codes "mqtts://broker:8883"))
    ∷ (codes "mqtt_username", text (codes "edge-01"))
    ∷ (codes "mqtt_client_id", text (codes "edge-01-client"))
    ∷ (codes "telemetry_interval_seconds", number 30)
    ∷ (codes "maintenance_on_boot", flag true)
    ∷ (codes "maintenance_window_seconds", number 300)
    ∷ (codes "maintenance_max_session_seconds", number 900)
    ∷ (codes "machine_status_provider", text (codes "disabled"))
    ∷ [])

abbrev parsed : DeviceConfig
parsed = record site { revision = 6; telemetry_interval_seconds = 30; maintenance_on_boot = true }

given_parses : parse_configuration json any_certificate (some site) (some given) ≡ ok parsed
unfolding parse_configuration parse_fields parse_maintenance parse_machine finish_parse
    copy_json_string json_uint or_refused guard Fields.◌>>=◌ validate check check_identity
    check_ranges check_gpio valid_device_id reserved_ids gpio_allowed split_first split_last
    valid_mqtts_uri valid_uri_text valid_authority valid_port valid_port_from valid_named
    valid_bracketed has_part message
given_parses = refl

parse_configuration-IsCandidate_example :
    IsCandidate json any_certificate (some given) (some site) parsed
parse_configuration-IsCandidate_example =
    parse_configuration-IsCandidate json any_certificate (some given) (some site) parsed
      given_parses
