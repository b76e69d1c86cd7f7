-- ===== src/Config/Store/Tests.antt =====
-- The configuration store at concrete inputs, over a partition in memory.
use industrial_edge_monitor.Base.{
  ◌≡◌, ◌≤◌, refl, true, false, none, some, arith, List, [], ◌∷◌, replicate, is_ok, codes, esp_ok,
  nvs_not_found, pos,
}
use industrial_edge_monitor.Config.{DeviceConfig, machine_disabled, pull_none}
use industrial_edge_monitor.Config.Storage.Configuration.{zero_configuration}
use industrial_edge_monitor.Config.Storage.Meta.{zero_metadata}
use industrial_edge_monitor.Config.Storage.RoundTrip.MetaTrip.{metadata_bytes}
use industrial_edge_monitor.Config.Samples.{site, pending, pending-IsStorable, any_certificate}
use industrial_edge_monitor.Config.Store.{active}
use industrial_edge_monitor.Config.Store.Operations.{Store, Outputs}
use industrial_edge_monitor.Config.Store.Memory.{Partition, blob_at, memory_nvs, memory-IsNvs}
use industrial_edge_monitor.Config.Store.Budget.{some_metadata}
use industrial_edge_monitor.Config.Store.Budget.Count.{candidate_boots, candidate_boots_bound}
use industrial_edge_monitor.Config.Store.Untouched.Calls.{
  Call, boot, roll_back, cancel, run, run_active,
}
use industrial_edge_monitor.Config.Storage.RoundTrip.ConfigTrip.{configuration_bytes}
use industrial_edge_monitor.Config.Store.Operations.Boot.{activate_candidate}
use industrial_edge_monitor.Config.Store.Operations.{locked}
use industrial_edge_monitor.Config.Store.Activation.{IsActivated, activate_candidate_ok}
use industrial_edge_monitor.Config.Validate.{
  validate, check, check_identity, check_ranges, check_gpio, valid_device_id, reserved_ids,
  gpio_allowed, split_first, split_last, valid_mqtts_uri, valid_uri_text, valid_authority,
  valid_port, valid_port_from, valid_named, valid_bracketed, message, has_part,
}
use industrial_edge_monitor.Config.Storage.{
  peek_header, write_header, write_bytes, write_u8, write_u16, write_u32, read_bytes, read_u8,
  read_u32, decode_u16, decode_u32, configuration_size, metadata_size,
}
use industrial_edge_monitor.Config.Storage.Configuration.{
  encode_configuration, decode_configuration, write_configuration_fields, read_configuration_fields,
  finish_configuration,
}
use industrial_edge_monitor.Config.Storage.Meta.{
  encode_metadata, decode_metadata, write_metadata_fields, read_metadata_fields, finish_metadata,
}
use industrial_edge_monitor.Config.Store.{
  read_metadata, read_encoded_blob, read_configuration, write_configuration, write_metadata,
  write_encoded_blob, erase_key,
}
use industrial_edge_monitor.Config.Store.Operations.{
  configuration_lock, configuration_unlock, get_metadata_locked, configurations_match,
}
use industrial_edge_monitor.Config.Store.Operations.Boot.{activate_locked}
use industrial_edge_monitor.Config.Store.Redacted.{
  RedactedConfig, get_redacted_snapshot, with_secrets, get_redacted_snapshot-with_secrets,
}
use industrial_edge_monitor.Config.Store.Secret.{
  Strings, IsStrings, IsAnswer, answer_of, get_or_create_setup_secret,
  get_or_create_setup_secret_lem,
}

abbrev staged : Partition
staged = record {
  active_blob = some (codes "active");
  candidate_blob = some (codes "candidate");
  metadata_blob = some (metadata_bytes pending);
}

abbrev outputs : Outputs
outputs = record {
  configuration = zero_configuration;
  using_candidate = false;
  metadata = zero_metadata;
}

candidate_boots_bound_example :
    candidate_boots memory_nvs any_certificate 2 (outputs ∷ outputs ∷ outputs ∷ []) staged ≤ 1
candidate_boots_bound_example =
    candidate_boots_bound memory-IsNvs any_certificate 2 (outputs ∷ outputs ∷ outputs ∷ []) staged 1
      (some_metadata pending (record { storable = pending-IsStorable; stored = refl })
        (omega arith))
      (omega arith)

abbrev ready : Store Partition
ready = record { has_mutex = true; in_progress = false; validation_revision = 0; world = staged }

abbrev calls : List Call
calls = boot (some outputs) ∷ roll_back none ∷ cancel ∷ []

run_active_example :
    blob_at (run memory_nvs any_certificate 2 ready calls).world active ≡ blob_at ready.world active
run_active_example = run_active memory-IsNvs any_certificate 2 calls ready

abbrev empty_snapshot : RedactedConfig
empty_snapshot = record {
  schema_version = 0;
  revision = 0;
  device_id = [];
  wifi_ssid = [];
  wifi_password_configured = false;
  mqtt_broker_uri = [];
  mqtt_username = [];
  mqtt_password_configured = false;
  mqtt_client_id = [];
  mqtt_ca_certificate_configured = false;
  telemetry_interval_seconds = 0;
  machine_status_provider = machine_disabled;
  machine_status_gpio = pos 0;
  machine_status_active_high = false;
  machine_status_pull = pull_none;
  maintenance_on_boot = false;
  maintenance_window_seconds = 0;
  maintenance_max_session_seconds = 0;
}

abbrev guarded : DeviceConfig
guarded = record zero_configuration {
  wifi_password = codes "long-enough";
  mqtt_password = codes "secret";
  mqtt_ca_certificate = codes "-----BEGIN CERTIFICATE-----";
}

get_redacted_snapshot-with_secrets_example :
    get_redacted_snapshot
      (some (with_secrets guarded (codes "another") (codes "word") (codes "certificate")))
      (some empty_snapshot)
    ≡ get_redacted_snapshot (some guarded) (some empty_snapshot)
get_redacted_snapshot-with_secrets_example =
    get_redacted_snapshot-with_secrets guarded (codes "another") (codes "word")
      (codes "certificate") empty_snapshot empty_snapshot refl refl refl

-- No secret is stored yet, and the generator yields zeros.
abbrev new_device : Strings Partition
new_device = record {
  string_size = λ h p. (nvs_not_found, 0, p);
  get_string = λ h p. (nvs_not_found, replicate 33 0, p);
  set_string = λ h text p. (esp_ok, p);
  random_bytes = λ p. (replicate 16 0, p);
}

new_device-IsStrings : IsStrings new_device
new_device-IsStrings = record {
  got_size = λ h p. refl;
  random_size = λ p. refl;
  random_range = λ p. ground arith;
}

get_or_create_setup_secret_lem_example :
    let ((result, after), s') =
      get_or_create_setup_secret memory_nvs new_device (some (replicate 33 0, false)) ready in
    IsAnswer (result, (answer_of after).0, (answer_of after).1)
get_or_create_setup_secret_lem_example =
    get_or_create_setup_secret_lem memory_nvs new_device-IsStrings (replicate 33 0, false) ready

-- The device is validating the candidate.
abbrev trial : Store Partition
trial = record {
  has_mutex = true;
  in_progress = true;
  validation_revision = 5;
  world = record staged { candidate_blob = some (configuration_bytes site) };
}

trial_succeeds :
    is_ok (activate_candidate memory_nvs any_certificate 5000 (some site) trial).0 ≡ true
unfolding activate_candidate activate_locked locked configuration_lock configuration_unlock
    get_metadata_locked read_metadata read_encoded_blob read_configuration write_configuration
    write_metadata write_encoded_blob erase_key decode_metadata decode_configuration encode_metadata
    encode_configuration write_configuration_fields write_metadata_fields read_configuration_fields
    read_metadata_fields peek_header write_header write_bytes write_u8 write_u16 write_u32
    read_bytes read_u8 read_u32 decode_u16 decode_u32 finish_configuration finish_metadata
    configuration_size metadata_size validate check check_identity check_ranges check_gpio
    valid_device_id reserved_ids gpio_allowed split_first split_last valid_mqtts_uri valid_uri_text
    valid_authority valid_port valid_port_from valid_named valid_bracketed configurations_match
    zero_configuration zero_metadata metadata_bytes configuration_bytes message has_part
trial_succeeds = refl

activate_candidate_ok_example :
    IsActivated memory-IsNvs any_certificate 5000 site trial
      (activate_candidate memory_nvs any_certificate 5000 (some site) trial).1
activate_candidate_ok_example =
    activate_candidate_ok memory-IsNvs any_certificate 5000 site trial trial_succeeds
