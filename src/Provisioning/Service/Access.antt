-- ===== src/Provisioning/Service/Access.antt =====
-- Whether a request is authenticated: `authenticated` and `require_auth` of provisioning_service.c.
use industrial_edge_monitor.Base.{
  ℕ, Bool, true, false, not, Option, none, some, List, pos, if◌then◌else◌, EspErr, esp_ok, codes,
}
use industrial_edge_monitor.Provisioning.State.{Machine, authenticated_activity}
use industrial_edge_monitor.Provisioning.Endpoint.{Abi}
use industrial_edge_monitor.Provisioning.Access.{session_authorized}
use industrial_edge_monitor.Provisioning.Service.{
  Request, Http, Act, ◌>>=◌, ◌>>◌, pure, get, modify, call, now_ms, service_is_stopping,
}
use industrial_edge_monitor.Provisioning.Service.Requests.{
  cookie_token, request_arrived_on_softap, json_error,
}

-- The cookie's token and the CSRF token of a request, the second one only if it modifies.
abbrev pub tokens_of : Bool → Option (List ℕ) → Option (List ℕ) → Option (List ℕ × Option (List ℕ))
tokens_of modifying none csrf = none
tokens_of true (some cookie) none = none
tokens_of true (some cookie) (some csrf) = some (cookie, some csrf)
tokens_of false (some cookie) csrf = some (cookie, none)

-- The machine that a function leaves, whose pointer is not NULL.
abbrev pub or_machine : Machine → Option Machine → Machine
or_machine m none = m
or_machine m (some m') = m'

module _ {W : Type 0} (http : Http) where
  -- The first statements of `authenticated`; `none` for its return of false.
  unfoldable pub presented_tokens : Abi → Bool → Request → Act W (Option (List ℕ × Option (List ℕ)))
  unfolding service_is_stopping request_arrived_on_softap
  presented_tokens abi modifying request = do
    stopping ← service_is_stopping http
    if stopping then pure none else do
      softap ← request_arrived_on_softap http abi request
      pure (
          if not softap
          then none
          else tokens_of modifying (cookie_token request)
              (request.header (codes "X-CSRF-Token") 40))

  unfoldable pub tell_machine : Bool → ℕ → Act W (Unit {0})
  tell_machine taken now = modify (λ s. record s {
    machine = or_machine s.machine (authenticated_activity taken (some s.machine) now);
  })

  -- The machine is told only if the pointer to it is not NULL.
  unfoldable pub note_activity : Act W (Unit {0})
  unfolding tell_machine
  note_activity = do
    s ← get
    if not s.has_machine
        then pure tt
        else do now ← now_ms http; taken ← call http.mutex_take; tell_machine taken now

  -- From the snapshot of the session on.
  unfoldable pub check_session : Bool → Option (List ℕ × Option (List ℕ)) → Act W (Option ℕ)
  unfolding note_activity
  check_session modifying none = pure none
  check_session modifying (some (cookie, csrf)) = do
    snapshot ← get
    now ← now_ms http
    if not (
          session_authorized (some snapshot.session_token) (some cookie) (some snapshot.csrf_token)
            csrf (pos snapshot.session_expires_ms) (pos now) modifying)
        then pure none
        else do note_activity; pure (some snapshot.session_generation)

  -- The generation that is authorized, `none` for the return of false.
  unfoldable pub authenticated : Abi → Bool → Request → Act W (Option ℕ)
  unfolding presented_tokens check_session
  authenticated abi modifying request = do
    tokens ← presented_tokens abi modifying request
    check_session modifying tokens

  -- The result of `require_auth`, given the generation.
  unfoldable pub auth_result : Request → Option ℕ → Act W EspErr
  unfolding json_error
  auth_result request (some generation) = pure esp_ok
  auth_result request none =
      json_error http request (codes "401 Unauthorized")
        (codes "authentication or CSRF validation failed")

  unfoldable pub require_auth : Abi → Bool → Request → Act W EspErr
  unfolding authenticated auth_result
  require_auth abi modifying request = do
    generation ← authenticated abi modifying request
    auth_result request generation
