-- ===== src/Provisioning/Service/Sessions.antt =====
-- Login and logout in provisioning_service.c.
use industrial_edge_monitor.Base.{
  ℕ, ◌+◌, ◌*◌, Bool, true, false, not, Option, none, some, List, ◌++◌, ltb, leb, if◌then◌else◌,
  EspErr, esp_ok, is_ok, u32, codes, decimal_text, take,
}
use industrial_edge_monitor.Provisioning.Endpoint.{Abi}
use industrial_edge_monitor.Provisioning.Access.{constant_time_equal}
use industrial_edge_monitor.Config.Store.Secret.{hex_text}
use industrial_edge_monitor.Provisioning.Service.{
  Request, Value, text, flag, object, member, no_members, Http, set_header, Service, Act, ◌>>=◌,
  ◌>>◌, pure, get, modify, call, emit, now_ms, next_session, session_clear, request_stream_shutdown,
}
use industrial_edge_monitor.Provisioning.Service.Requests.{
  CJson, object_item, json_string, request_arrived_on_softap, json_error, send_json, send_json_text,
  receive_json,
}
use industrial_edge_monitor.Provisioning.Service.Access.{note_activity, require_auth}

-- CONFIG_PROVISIONING_LOGIN_MAX_FAILURES, CONFIG_PROVISIONING_LOGIN_LOCKOUT_SECONDS,
-- CONFIG_PROVISIONING_SESSION_SECONDS and CONFIG_PROVISIONING_MAX_BODY_BYTES.
pub record Limits : Type 0 where
  pub max_failures : ℕ
  pub lockout_seconds : ℕ
  pub session_seconds : ℕ
  pub max_body_bytes : ℕ

-- `cJSON_IsString(secret) && constant_time_equal(secret->valuestring, setup_secret_value)`.
abbrev pub secret_valid : Option (List ℕ) → Option (List ℕ) → Bool
secret_valid none setup = false
secret_valid (some given) setup = constant_time_equal (some given) setup

-- The lock after too many wrong secrets, at the time that is read.
unfoldable pub lock_login : {W : Type 0} → Limits → ℕ → Service W → Service W
lock_login limits now s = record s {
  login_locked_until_ms = now + limits.lockout_seconds * 1000;
  login_failures = 0;
}

-- The statements of the critical section after the right secret.
unfoldable pub open_session : {W : Type 0} → Limits → List ℕ → List ℕ → ℕ → Service W → Service W
open_session limits session csrf now s = record s {
  login_failures = 0;
  session_generation = next_session s.session_generation;
  session_token = session;
  csrf_token = csrf;
  session_expires_ms = now + limits.session_seconds * 1000;
}

-- `snprintf` into 128 bytes.
abbrev pub session_cookie : List ℕ → ℕ → List ℕ
session_cookie session seconds = take 127 (
    codes "IEM_SESSION="
    ++ session
    ++ codes "; Path=/; HttpOnly; SameSite=Strict; Max-Age="
    ++ decimal_text seconds)

abbrev pub login_response : List ℕ → ℕ → Value
login_response csrf generation = object (
    member (codes "ok") (flag true) (
      member (codes "csrf_token") (text csrf)
        (member (codes "stream_generation") (text (decimal_text generation)) no_members)))

module _ {W : Type 0} (http : Http) (limits : Limits) where
  -- The statements of the critical section after a wrong secret.
  unfoldable pub count_failure : Act W (Unit {0})
  unfolding lock_login
  count_failure = do
    s ← get
    let failures = u32 (s.login_failures + 1)
    if not (leb limits.max_failures failures)
        then modify (λ t. record t { login_failures = failures })
        else do now ← now_ms http; modify (lock_login limits now)

  unfoldable pub reject_login : Request → Act W EspErr
  unfolding count_failure json_error
  reject_login request = do
    count_failure
    json_error http request (codes "401 Unauthorized") (codes "invalid credentials")

  -- From `request_stream_shutdown` on, with the new tokens and the new generation.
  unfoldable pub answer_login : Request → List ℕ → List ℕ → ℕ → Act W EspErr
  unfolding request_stream_shutdown send_json
  answer_login request session csrf generation = do
    request_stream_shutdown http false
    emit (
        set_header request.handle (codes "Set-Cookie")
          (session_cookie session limits.session_seconds))
    result ← send_json http request (login_response csrf generation)
    note_activity http
    pure result

  unfoldable pub accept_login : Request → Act W EspErr
  unfolding open_session answer_login hex_text
  accept_login request = do
    session ← call http.random
    csrf ← call http.random
    now ← now_ms http
    modify (open_session limits (hex_text session) (hex_text csrf) now)
    opened ← get
    answer_login request (hex_text session) (hex_text csrf) opened.session_generation

  -- Once the body is received, or not, and its secret is valid, or not.
  unfoldable pub judge_login : Bool → Bool → Request → Act W EspErr
  unfolding reject_login accept_login
  judge_login false valid request = pure esp_ok
  judge_login true true request = accept_login request
  judge_login true false request = reject_login request

  -- From the test of the lock on. The time is read twice, before and after the body is received.
  unfoldable pub login : {J : Type 0} → CJson J → Request → Act W EspErr
  unfolding json_error receive_json judge_login
  login json request = do
    before ← get
    now ← now_ms http
    if ltb now before.login_locked_until_ms
        then json_error http request (codes "429 Too Many Requests")
            (codes "login temporarily locked")
        else do
          (received, body) ← receive_json http json limits.max_body_bytes request
          s ← get
          judge_login (is_ok received)
              (secret_valid (json_string json (object_item json body (codes "secret")))
                s.setup_secret)
              request

  unfoldable pub session_create_handler : {J : Type 0} → CJson J → Abi → Request → Act W EspErr
  unfolding request_arrived_on_softap json_error login
  session_create_handler json abi request = do
    softap ← request_arrived_on_softap http abi request
    if not softap
        then json_error http request (codes "403 Forbidden")
            (codes "login is available only through the SoftAP")
        else login json request

  unfoldable pub session_delete_handler : Abi → Request → Act W EspErr
  unfolding require_auth session_clear request_stream_shutdown send_json_text
  session_delete_handler abi request = do
    required ← require_auth http abi true request
    if not (is_ok required) then pure esp_ok else do
      session_clear http
      request_stream_shutdown http false
      emit (
          set_header request.handle (codes "Set-Cookie")
            (codes "IEM_SESSION=; Path=/; HttpOnly; SameSite=Strict; Max-Age=0"))
      send_json_text http request (codes "{\"ok\":true}")
