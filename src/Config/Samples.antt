-- ===== src/Config/Samples.antt =====
-- A configuration and metadata that the tests share.
use industrial_edge_monitor.Base.{
  ℕ, ◌+◌, ◌-◌, ◌≤◌, ◌≡◌, ◌∙◌, refl, Bool, true, false, arith, List, ◌++◌, length, length-append,
  length-replicate, replicate, pos, codes,
}
use industrial_edge_monitor.Config.{
  DeviceConfig, Metadata, machine_disabled, pull_none, state_pending,
}
use industrial_edge_monitor.Config.Storage.RoundTrip.MetaTrip.{decode_metadata-encode_metadata}
use industrial_edge_monitor.Config.Storage.RoundTrip.ConfigTrip.{
  decode_configuration-encode_configuration,
}
use industrial_edge_monitor.Config.Storage.RoundTrip.MetaTrip as MetaTrip
use industrial_edge_monitor.Config.Storage.RoundTrip.ConfigTrip as ConfigTrip

-- A string in an array, the rest of it filled with zeros.
abbrev pub in_array : List ℕ → ℕ → List ℕ
in_array text size = text ++ replicate (size - length text) 0

length-in_array :
    (text : List ℕ) (size : ℕ) → length text ≤ size → length (in_array text size) ≡ size
length-in_array text size fits =
    let padded : length (in_array text size) ≡ length text + (size - length text) =
      length-append text (replicate (size - length text) 0)
      ∙ omega (arith, length-replicate {A = ℕ} (size - length text) 0) in
    omega arith

abbrev pub site : DeviceConfig
site = record {
  schema_version = 1;
  revision = 5;
  device_id = in_array (codes "edge-01") 64;
  wifi_ssid = in_array (codes "plant") 33;
  wifi_password = in_array (codes "long-enough") 64;
  mqtt_broker_uri = in_array (codes "mqtts://broker:8883") 256;
  mqtt_ca_certificate = in_array (codes "-----BEGIN CERTIFICATE-----") 4096;
  mqtt_username = in_array (codes "edge-01") 64;
  mqtt_password = in_array (codes "secret") 128;
  mqtt_client_id = in_array (codes "edge-01-client") 128;
  telemetry_interval_seconds = 10;
  machine_status_provider = machine_disabled;
  machine_status_gpio = pos 4;
  machine_status_active_high = true;
  machine_status_pull = pull_none;
  maintenance_on_boot = false;
  maintenance_window_seconds = 300;
  maintenance_max_session_seconds = 900;
}

pub site-IsStorable : ConfigTrip.IsStorable site
site-IsStorable = record {
  schema_version = omega arith;
  revision = omega arith;
  device_id = length-in_array (codes "edge-01") 64 (omega arith);
  wifi_ssid = length-in_array (codes "plant") 33 (omega arith);
  wifi_password = length-in_array (codes "long-enough") 64 (omega arith);
  mqtt_broker_uri = length-in_array (codes "mqtts://broker:8883") 256 (omega arith);
  mqtt_ca_certificate = length-in_array (codes "-----BEGIN CERTIFICATE-----") 4096 (omega arith);
  mqtt_username = length-in_array (codes "edge-01") 64 (omega arith);
  mqtt_password = length-in_array (codes "secret") 128 (omega arith);
  mqtt_client_id = length-in_array (codes "edge-01-client") 128 (omega arith);
  telemetry_interval_seconds = omega arith;
  machine_status_provider = omega arith;
  machine_status_gpio = omega arith;
  machine_status_pull = omega arith;
  maintenance_window_seconds = omega arith;
  maintenance_max_session_seconds = omega arith;
}

abbrev pub pending : Metadata
pending = record {
  state = state_pending;
  candidate_revision = 5;
  boot_attempts = 1;
  boot_count = 12;
  last_rollback_reason = replicate 96 0;
}

pub pending-IsStorable : MetaTrip.IsStorable pending
pending-IsStorable = record {
  state = omega arith;
  candidate_revision = omega arith;
  boot_attempts = omega arith;
  boot_count = omega arith;
  reason_length = refl;
  reason_terminated = refl;
}

-- A certificate parser that takes every text.
abbrev pub any_certificate : List ℕ → Bool
any_certificate text = true
