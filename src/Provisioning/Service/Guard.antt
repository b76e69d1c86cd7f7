-- ===== src/Provisioning/Service/Guard.antt =====
-- The guard of the handlers, `require_auth`: what it returns, and what follows for the handlers
-- that it stands in front of.
use industrial_edge_monitor.Base.{
  ℕ, ◌≡◌, refl, ap, Bool, true, not, Option, none, some, List, EspErr, esp_ok, codes, is_ok,
  if_split,
}
use industrial_edge_monitor.Config.Store.{Nvs}
use industrial_edge_monitor.Config.Store.Operations.{factory_reset}
use industrial_edge_monitor.Provisioning.Access.{factory_confirmed}
use industrial_edge_monitor.Provisioning.Endpoint.{Abi}
use industrial_edge_monitor.Provisioning.Service.{
  Request, Http, Service, Act, ◌>>=◌, pure, call, emit, wait, stored, modify, stream_lock,
  service_is_stopping,
}
use industrial_edge_monitor.Provisioning.Service.Laws.{
  Keeps, keeps_rules, HasCore, call-HasCore, emit-HasCore, now_ms-HasCore, core,
}
use industrial_edge_monitor.Provisioning.Service.Requests.{
  request_arrived_on_softap, json_error, send_json_text,
}
use industrial_edge_monitor.Provisioning.Service.Access.{
  presented_tokens, note_activity, authenticated, require_auth, tell_machine, check_session,
  auth_result,
}
use industrial_edge_monitor.Provisioning.Service.Handlers.{
  restart_response, erase_and_restart, delayed_restart_response, factory_reset_handler,
}

ruleset core_rules = (keeps_rules, call-HasCore, emit-HasCore, now_ms-HasCore)

module _ {W : Type 0} {c : Service W} (http : Http) where
  stream_lock-HasCore : Keeps (HasCore c) (stream_lock http)
  unfolding stream_lock
  stream_lock-HasCore = search core_rules

  service_is_stopping-HasCore : Keeps (HasCore c) (service_is_stopping http)
  unfolding service_is_stopping
  service_is_stopping-HasCore = search (core_rules, stream_lock-HasCore)

  softap-HasCore :
      (abi : Abi) (request : Request)
      → Keeps (HasCore c) (request_arrived_on_softap http abi request)
  unfolding request_arrived_on_softap
  softap-HasCore abi request = search core_rules

  pub presented-HasCore :
      (abi : Abi) (modifying : Bool) (request : Request)
      → Keeps (HasCore c) (presented_tokens http abi modifying request)
  unfolding presented_tokens
  presented-HasCore abi modifying request =
      search (core_rules, service_is_stopping-HasCore, softap-HasCore)

  tell_machine-HasCore : (taken : Bool) (now : ℕ) → Keeps (HasCore c) (tell_machine http taken now)
  unfolding tell_machine modify
  tell_machine-HasCore taken now = record { at = λ s h. record { same = h.same } }

  note_activity-HasCore : Keeps (HasCore c) (note_activity http)
  unfolding note_activity
  note_activity-HasCore = search (core_rules, tell_machine-HasCore)

  pub json_error-HasCore :
      (request : Request) (status message : List ℕ)
      → Keeps (HasCore c) (json_error http request status message)
  unfolding json_error
  json_error-HasCore request status message = search core_rules

  check_session-HasCore :
      (modifying : Bool) (tokens : Option (List ℕ × Option (List ℕ)))
      → Keeps (HasCore c) (check_session http modifying tokens)
  unfolding check_session
  check_session-HasCore modifying none = search core_rules
  check_session-HasCore modifying (some (cookie, csrf)) = search (core_rules, note_activity-HasCore)

  pub authenticated-HasCore :
      (abi : Abi) (modifying : Bool) (request : Request)
      → Keeps (HasCore c) (authenticated http abi modifying request)
  unfolding authenticated
  authenticated-HasCore abi modifying request =
      search (core_rules, presented-HasCore, check_session-HasCore)

  auth_result-HasCore :
      (request : Request) (generation : Option ℕ)
      → Keeps (HasCore c) (auth_result http request generation)
  unfolding auth_result
  auth_result-HasCore request none = search (core_rules, json_error-HasCore)
  auth_result-HasCore request (some n) = search core_rules

  pub require_auth-HasCore :
      (abi : Abi) (modifying : Bool) (request : Request)
      → Keeps (HasCore c) (require_auth http abi modifying request)
  unfolding require_auth
  require_auth-HasCore abi modifying request =
      search (core_rules, authenticated-HasCore, auth_result-HasCore)

-- A response that is sent is delivered.
module _ {W : Type 0} (http : Http) (delivers : (n : ℕ) → http.send n ≡ esp_ok) where
  pub json_error_ok :
      (request : Request) (status message : List ℕ) (s : Service W)
      → (json_error http request status message s).0 ≡ esp_ok
  unfolding json_error ◌>>=◌ emit call
  json_error_ok request status message s = delivers _

  auth_result_ok :
      (request : Request) (generation : Option ℕ) (s : Service W)
      → (auth_result http request generation s).0 ≡ esp_ok
  unfolding auth_result pure
  auth_result_ok request none s = json_error_ok request _ _ s
  auth_result_ok request (some n) s = refl

  -- Where responses are delivered, `require_auth` returns ESP_OK for every request, authenticated
  -- or not, and leaves everything but the calls, the trace and the machine as it is.
  pub require_auth_lem :
      (abi : Abi) (modifying : Bool) (request : Request) (s : Service W)
      → ((require_auth http abi modifying request s).0 ≡ esp_ok)
        × (core (require_auth http abi modifying request s).1 ≡ core s)
  unfolding require_auth ◌>>=◌
  require_auth_lem abi modifying request s = (
    auth_result_ok request _ _,
    ((require_auth-HasCore http abi modifying request).at s (record { same = refl })).same,
  )

  module _ (nvs : Nvs W) where
    erase_store :
        (abi : Abi) (request : Request) (s : Service W)
        → (erase_and_restart http abi nvs request s).1.store ≡ (factory_reset nvs s.store).1
    unfolding erase_and_restart restart_response send_json_text json_error wait ◌>>=◌ emit call
        stored pure
    erase_store abi request s =
        if_split
          (λ (m : Act W EspErr).
            (m (stored (factory_reset nvs) s).1).1.store ≡ (factory_reset nvs s.store).1)
          (not (is_ok (factory_reset nvs s.store).0)) (λ e. refl) (λ e. refl)

    -- Where responses are delivered, a factory reset is done for every request that has the
    -- confirmation header, authenticated or not: the handler leaves the store as
    -- `device_config_factory_reset` does.
    pub factory_reset_handler_lem :
        (abi : Abi) (request : Request) (s : Service W)
        → factory_confirmed (request.header (codes "X-Confirm-Factory-Reset") 64) ≡ true
        → (factory_reset_handler http abi nvs request s).1.store ≡ (factory_reset nvs s.store).1
    unfolding factory_reset_handler delayed_restart_response ◌>>=◌
    factory_reset_handler_lem abi request s confirmed =
        let (result, same) = require_auth_lem abi true request s in
        let kept : (require_auth http abi true request s).1.store ≡ s.store =
          ap (λ t. t.store) same in
        rw
          (
            result,
            confirmed,
            erase_store abi request (require_auth http abi true request s).1,
            kept,
          )
          refl
