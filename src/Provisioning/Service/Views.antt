-- ===== src/Provisioning/Service/Views.antt =====
-- The handlers of provisioning_service.c that show the state: configuration, status and logs.
pub mod Shown
use industrial_edge_monitor.Base.{
  ℕ, ◌/◌, Bool, false, ◌&&◌, not, Option, none, some, List, [], ◌∷◌, if◌then◌else◌, EspErr, esp_ok,
  is_ok, ◌==◌, ℤ, pos, codes, c_str,
}
use industrial_edge_monitor.Config.{
  DeviceConfig, Metadata, machine_gpio, pull_up, pull_down, state_active, state_pending,
  state_rollback,
}
use industrial_edge_monitor.Config.Storage.Meta.{zero_metadata}
use industrial_edge_monitor.Config.Store.{Nvs}
use industrial_edge_monitor.Config.Store.Operations.{get_metadata}
use industrial_edge_monitor.Config.Store.Redacted.{RedactedConfig, get_redacted_snapshot}
use industrial_edge_monitor.Diagnostic.Ring.{LogRecord, Batch, batch}
use industrial_edge_monitor.Health.{Snapshot, ComponentSnapshot}
use industrial_edge_monitor.Health.Names.{component_status_to_string, overall_status_to_string}
use industrial_edge_monitor.Provisioning.Endpoint.{Abi}
use industrial_edge_monitor.Provisioning.Service.{
  Request, Value, text, number, integer, flag, null, object, array, Members, no_members, member,
  Values, no_values, element, Http, Act, ◌>>=◌, pure, get, call, stored,
}
use industrial_edge_monitor.Provisioning.Service.Requests.{json_error, send_json}
use industrial_edge_monitor.Provisioning.Service.Access.{require_auth}
use industrial_edge_monitor.Provisioning.Service.Views.Shown.{
  Readings, configuration_value, or_zero_metadata, status_value,
}

module _ {W : Type 0} (http : Http) where
  -- The batch that is shown, `none` where its buffer or its object cannot be allocated.
  unfoldable pub logs_json : ℕ → Act W (Option Batch)
  logs_json after = do
    has_batch ← call http.allocate
    has_object ← call http.allocate
    s ← get
    pure (if has_batch && has_object then some (batch s.ring after) else none)

module _ {W : Type 0} (http : Http) (abi : Abi) where
  unfoldable pub config_handler : Request → Act W EspErr
  unfolding require_auth send_json configuration_value
  config_handler request = do
    required ← require_auth http abi false request
    s ← get
    if not (is_ok required)
        then pure esp_ok
        else send_json http request (configuration_value s.configuration)

  unfoldable pub status_handler : Nvs W → Readings → Request → Act W EspErr
  unfolding require_auth json_error send_json status_value
  status_handler nvs readings request = do
    required ← require_auth http abi false request
    if not (is_ok required) then pure esp_ok else do
      (result, metadata) ← stored (get_metadata nvs (some zero_metadata))
      if not (is_ok result)
          then json_error http request (codes "503 Service Unavailable")
              (codes "configuration metadata is unavailable")
          else do
            micros ← call http.timer
            s ← get
            send_json http request (
                status_value s.configuration (or_zero_metadata metadata) readings
                  (micros / 1000000))
