-- ===== src/Health/Names.antt =====
-- The texts under which the states are published. The argument is a value of the enumeration, so
-- the `default` cases are not reached, except for a component number out of range.
use industrial_edge_monitor.Base.{ℕ, zero, suc, List, codes, ◌≡◌, arith, ℤ, pos}
use industrial_edge_monitor.Health.{
  OverallStatus, ComponentStatus, HealthError, Availability, no_error, not_initialized,
  communication_failed, read_failed, value_not_finite, temperature_out_of_range,
  humidity_out_of_range, time_not_synchronized, mqtt_disconnected, publish_failed,
  machine_status_unavailable, online, offline,
}

unfoldable pub overall_status_to_string : OverallStatus → List ℕ
overall_status_to_string OverallStatus.healthy = codes "healthy"
overall_status_to_string OverallStatus.degraded = codes "degraded"

unfoldable pub component_status_to_string : ComponentStatus → List ℕ
component_status_to_string ComponentStatus.healthy = codes "healthy"
component_status_to_string ComponentStatus.degraded = codes "degraded"
component_status_to_string ComponentStatus.fault = codes "fault"
component_status_to_string ComponentStatus.unknown = codes "unknown"

unfoldable pub error_to_string : HealthError → List ℕ
error_to_string no_error = codes "none"
error_to_string not_initialized = codes "not_initialized"
error_to_string communication_failed = codes "communication_failed"
error_to_string read_failed = codes "read_failed"
error_to_string value_not_finite = codes "value_not_finite"
error_to_string temperature_out_of_range = codes "temperature_out_of_range"
error_to_string humidity_out_of_range = codes "humidity_out_of_range"
error_to_string time_not_synchronized = codes "time_not_synchronized"
error_to_string mqtt_disconnected = codes "mqtt_disconnected"
error_to_string publish_failed = codes "publish_failed"
error_to_string machine_status_unavailable = codes "machine_status_unavailable"

unfoldable pub availability_to_string : Availability → List ℕ
availability_to_string online = codes "online"
availability_to_string offline = codes "offline"

unfoldable pub component_to_string : ℤ → List ℕ
component_to_string (pos zero) = codes "sensor"
component_to_string (pos (suc zero)) = codes "machine_status"
component_to_string (pos (suc (suc zero))) = codes "system_time"
component_to_string (pos (suc (suc (suc zero)))) = codes "mqtt"
component_to_string _ = codes "unknown"

-- The published names tell the states apart: two component states, two errors or two
-- availabilities with the same text are the same.
pub names_distinct :
    (a b : ComponentStatus) (e f : HealthError) (x y : Availability)
    → (component_status_to_string a ≡ component_status_to_string b → a ≡ b)
      × (error_to_string e ≡ error_to_string f → e ≡ f)
      × (availability_to_string x ≡ availability_to_string y → x ≡ y)
unfolding component_status_to_string error_to_string availability_to_string
names_distinct a b e f x y = (λ h. ground arith, λ h. ground arith, λ h. ground arith)
