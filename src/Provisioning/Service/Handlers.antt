-- ===== src/Provisioning/Service/Handlers.antt =====
-- The handlers of provisioning_service.c that act on the configuration and on the device.
use industrial_edge_monitor.Base.{
  ℕ, Bool, true, false, ◌||◌, not, Option, none, some, List, if◌then◌else◌, EspErr, esp_ok,
  invalid_state, is_ok, ◌==◌, codes, is_empty,
}
use industrial_edge_monitor.Config.{DeviceConfig, Metadata, state_pending}
use industrial_edge_monitor.Config.Storage.Meta.{zero_metadata}
use industrial_edge_monitor.Config.Store.{Nvs}
use industrial_edge_monitor.Config.Store.Operations.{
  cancel_candidate, candidate_validation_in_progress, factory_reset, get_metadata,
}
use industrial_edge_monitor.Config.Store.Operations.Boot.{stage_candidate}
use industrial_edge_monitor.Provisioning.Access.{factory_confirmed}
use industrial_edge_monitor.Provisioning.Endpoint.{Abi}
use industrial_edge_monitor.Provisioning.Service.{
  Request, Http, delay_ms, set_type, set_header, send_text, restart, Act, ◌>>=◌, ◌>>◌, pure, get,
  call, emit, wait, stored,
}
use industrial_edge_monitor.Provisioning.Service.Requests.{
  CJson, request_arrived_on_softap, json_error, send_json_text, receive_json,
}
use industrial_edge_monitor.Provisioning.Service.Access.{require_auth}
use industrial_edge_monitor.Provisioning.Service.Parsing.{parse_configuration}
use industrial_edge_monitor.Provisioning.Service.Parsing.Fields.{Result, ok, refused}

abbrev pub is_invalid_state : EspErr → Bool
is_invalid_state invalid_state = true
is_invalid_state _ = false

-- `error[0] ? error : "candidate persistence failed"`.
abbrev pub candidate_error : List ℕ → List ℕ
candidate_error error = if is_empty error then codes "candidate persistence failed" else error

module _ {W : Type 0} (http : Http) (abi : Abi) where
  -- `page` is the text of PAGE.
  unfoldable pub root_handler : List ℕ → Request → Act W EspErr
  unfolding request_arrived_on_softap json_error
  root_handler page request = do
    softap ← request_arrived_on_softap http abi request
    if not softap
        then json_error http request (codes "403 Forbidden")
            (codes "provisioning is available only through the SoftAP")
        else do
          emit (set_type request.handle (codes "text/html; charset=utf-8"))
          emit (set_header request.handle (codes "Cache-Control") (codes "no-store"))
          emit (send_text request.handle page)
          call http.send

  -- The response to a candidate: what staging returned, and the error text.
  unfoldable pub answer_candidate : Request → EspErr → List ℕ → Act W EspErr
  unfolding json_error send_json_text
  answer_candidate request result error =
      if is_invalid_state result
      then json_error http request (codes "409 Conflict")
          (codes "candidate validation is already in progress")
      else if not (is_ok result)
      then json_error http request (codes "422 Unprocessable Content") (candidate_error error)
      else send_json_text http request (codes "{\"ok\":true,\"state\":\"pending\"}")

  module _ (nvs : Nvs W) where
    -- `validate` is successful with an empty text, so staging's failure has the default text.
    unfoldable pub store_candidate : (List ℕ → Bool) → Request → Result DeviceConfig → Act W EspErr
    unfolding answer_candidate stage_candidate json_error
    store_candidate parses request (refused error) =
        json_error http request (codes "422 Unprocessable Content") (candidate_error error)
    store_candidate parses request (ok candidate) = do
      result ← stored (stage_candidate nvs parses (some candidate))
      answer_candidate request result (codes "")

    -- `maximum` is CONFIG_PROVISIONING_MAX_BODY_BYTES.
    unfoldable pub candidate_put_handler :
        {J : Type 0} → CJson J → (List ℕ → Bool) → ℕ → Request → Act W EspErr
    unfolding require_auth receive_json json_error parse_configuration store_candidate
    candidate_put_handler json parses maximum request = do
      required ← require_auth http abi true request
      if not (is_ok required) then pure esp_ok else do
        (received, body) ← receive_json http json maximum request
        if not (is_ok received) then pure esp_ok else do
          allocated ← call http.allocate
          s ← get
          if not allocated
              then json_error http request (codes "503 Service Unavailable")
                  (codes "candidate buffer unavailable")
              else store_candidate parses request
                  (parse_configuration json parses s.configuration body)

    unfoldable pub candidate_delete_handler : Request → Act W EspErr
    unfolding require_auth cancel_candidate json_error send_json_text
    candidate_delete_handler request = do
      required ← require_auth http abi true request
      if not (is_ok required) then pure esp_ok else do
        result ← stored (cancel_candidate nvs)
        if is_invalid_state result
            then json_error http request (codes "409 Conflict")
                (codes "candidate validation is already in progress")
            else if not (is_ok result)
            then json_error http request (codes "500 Internal Server Error")
                (codes "candidate cancellation failed")
            else send_json_text http request (codes "{\"ok\":true}")

    -- The end of the handlers that restart the device. `esp_restart` does not return.
    unfoldable pub restart_response : Request → Act W EspErr
    unfolding send_json_text
    restart_response request = do
      send_json_text http request (codes "{\"ok\":true,\"rebooting\":true}")
      wait http (delay_ms 200)
      emit restart
      pure esp_ok

    unfoldable pub erase_and_restart : Request → Act W EspErr
    unfolding factory_reset json_error restart_response
    erase_and_restart request = do
      result ← stored (factory_reset nvs)
      if not (is_ok result)
          then json_error http request (codes "500 Internal Server Error")
              (codes "factory reset failed")
          else restart_response request

    unfoldable pub delayed_restart_response : Bool → Request → Act W EspErr
    unfolding require_auth json_error restart_response erase_and_restart
    delayed_restart_response erases request = do
      required ← require_auth http abi true request
      if not (is_ok required)
          then pure esp_ok
          else if not erases
          then restart_response request
          else if not (factory_confirmed (request.header (codes "X-Confirm-Factory-Reset") 64))
          then json_error http request (codes "409 Conflict")
              (codes "strong factory-reset confirmation is required")
          else erase_and_restart request

    abbrev pub is_pending : Option Metadata → Bool
    is_pending none = false
    is_pending (some m) = m.state == state_pending

    unfoldable pub apply_handler : Request → Act W EspErr
    unfolding require_auth candidate_validation_in_progress get_metadata json_error restart_response
    apply_handler request = do
      required ← require_auth http abi true request
      if not (is_ok required) then pure esp_ok else do
        in_progress ← stored (candidate_validation_in_progress nvs)
        if in_progress
            then json_error http request (codes "409 Conflict")
                (codes "candidate validation is already in progress")
            else do
              (result, metadata) ← stored (get_metadata nvs (some zero_metadata))
              if not (is_ok result) || not (is_pending metadata)
                  then json_error http request (codes "409 Conflict")
                      (codes "no validated candidate is pending")
                  else restart_response request

    unfoldable pub reboot_handler : Request → Act W EspErr
    unfolding delayed_restart_response
    reboot_handler = delayed_restart_response false

    unfoldable pub factory_reset_handler : Request → Act W EspErr
    unfolding delayed_restart_response
    factory_reset_handler = delayed_restart_response true
