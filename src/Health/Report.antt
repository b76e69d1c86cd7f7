-- ===== src/Health/Report.antt =====
-- firmware/components/device_health_service/device_health_service.c: the JSON text of the health.
use industrial_edge_monitor.Base.{
  ℕ, Option, none, some, List, ◌++◌, if◌then◌else◌, codes, decimal_text, int_text, snprintf_text,
  get_or,
}
use industrial_edge_monitor.Health.{Snapshot, ComponentSnapshot, Metrics, unknown_component}
use industrial_edge_monitor.Health.Names.{
  overall_status_to_string, component_status_to_string, error_to_string, availability_to_string,
}
use industrial_edge_monitor.Telemetry.Cycle.{
  sensor_component, machine_component, time_component, mqtt_component,
}

abbrev quoted : List ℕ → List ℕ
quoted text = codes "\"" ++ text ++ codes "\""

-- A time stamp in an array of 24 bytes.
abbrev pub time_json : Option (List ℕ) → List ℕ
time_json none = codes "null"
time_json (some text) = snprintf_text 24 (quoted text)

unfoldable pub timestamp_or_null : ComponentSnapshot → List ℕ
timestamp_or_null c = time_json (if c.has_updated_at then some c.updated_at else none)

abbrev rssi_json : Metrics → List ℕ
rssi_json m = if m.has_wifi_rssi then snprintf_text 16 (int_text m.wifi_rssi_dbm) else codes "null"

abbrev component_json : ComponentSnapshot → List ℕ
component_json c =
    codes "{\"status\":\""
    ++ component_status_to_string c.status
    ++ codes "\",\"error_code\":\""
    ++ error_to_string c.error
    ++ codes "\",\"updated_at\":"
    ++ timestamp_or_null c
    ++ codes "}"

abbrev component_at : Snapshot → ℕ → List ℕ
component_at s index = component_json (get_or s.components index unknown_component)

-- The whole text, before it is cut to the size of the buffer.
unfoldable pub serialize_health : List ℕ → Option (List ℕ) → Snapshot → List ℕ
serialize_health device_id stamp s =
    codes "{\"schema_version\":1,\"device_id\":\""
    ++ device_id
    ++ codes "\",\"timestamp\":"
    ++ time_json stamp
    ++ codes ",\"status\":\""
    ++ overall_status_to_string s.status
    ++ codes "\",\"availability\":\""
    ++ availability_to_string s.availability
    ++ codes "\",\"components\":{\"sensor\":"
    ++ component_at s sensor_component
    ++ codes ",\"machine_status\":"
    ++ component_at s machine_component
    ++ codes ",\"system_time\":"
    ++ component_at s time_component
    ++ codes ",\"mqtt\":"
    ++ component_at s mqtt_component
    ++ codes "},\"counters\":{\"samples_ok\":"
    ++ decimal_text s.counters.samples_ok
    ++ codes ",\"samples_rejected\":"
    ++ decimal_text s.counters.samples_rejected
    ++ codes ",\"publish_ok\":"
    ++ decimal_text s.counters.publish_ok
    ++ codes ",\"publish_failed\":"
    ++ decimal_text s.counters.publish_failed
    ++ codes ",\"machine_status_errors\":"
    ++ decimal_text s.counters.machine_status_errors
    ++ codes "},\"metrics\":{\"uptime_seconds\":"
    ++ decimal_text s.metrics.uptime_seconds
    ++ codes ",\"free_heap_bytes\":"
    ++ decimal_text s.metrics.free_heap_bytes
    ++ codes ",\"minimum_free_heap_bytes\":"
    ++ decimal_text s.metrics.minimum_free_heap_bytes
    ++ codes ",\"wifi_rssi_dbm\":"
    ++ rssi_json s.metrics
    ++ codes "}}"
