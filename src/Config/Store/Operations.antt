-- ===== src/Config/Store/Operations.antt =====
-- The operations of device_config.c on the stored configurations: they stage a candidate, choose
-- what to boot with, activate or roll back. `max_attempts` is CONFIG_PROVISIONING_CANDIDATE_MAX_ATTEMPTS.
pub mod Boot
use industrial_edge_monitor.Base.{
  ℕ, ◌+◌, ◌-◌, Bool, true, false, ◌&&◌, ◌||◌, not, Option, none, some, List, [], ◌∷◌, ◌++◌, ltb,
  leb, ◌==◌, if◌then◌else◌, EspErr, esp_ok, esp_fail, no_mem, invalid_arg, invalid_state, is_ok,
  u32, take, drop, length, codes, c_str, bytes_eq, ℤ, pos, negsuc, replicate,
}
use industrial_edge_monitor.Config.{
  DeviceConfig, Metadata, state_active, state_pending, state_rollback, rollback_reason_max,
}
use industrial_edge_monitor.Config.Validate.{validate}
use industrial_edge_monitor.Config.Storage.Configuration.{zero_configuration}
use industrial_edge_monitor.Config.Storage.Meta.{zero_metadata}
use industrial_edge_monitor.Config.Store.{
  Key, active, candidate, metadata, read_write, Nvs, is_not_found, read_metadata, write_metadata,
  read_configuration, write_configuration, erase_key,
}

-- The static variables, and the world around them. `has_mutex` says that the handle is not NULL.
pub record Store (W : Type 0) : Type 0 where
  pub has_mutex : Bool
  pub in_progress : Bool
  pub validation_revision : ℕ
  pub world : W

abbrev pub at_world : {W : Type 0} → Store W → W → Store W
at_world s w = record s { world = w }

-- `candidate_validation_in_progress = false; candidate_validation_revision = 0`.
abbrev pub no_validation : {W : Type 0} → Store W → Store W
no_validation s = record s { in_progress = false; validation_revision = 0 }

-- The same if the result is ESP_OK.
abbrev pub settle : {W : Type 0} → EspErr → Store W → Store W
settle result s = if is_ok result then no_validation s else s

-- `snprintf(array, size, "%s", text)`: the array keeps what stands behind the NUL.
abbrev pub store_text : ℕ → List ℕ → List ℕ → List ℕ
store_text size text array =
    let kept = take (size - 1) text in kept ++ (0 ∷ drop (length kept + 1) array)

abbrev pub pending_metadata : ℕ → Metadata → Metadata
pending_metadata revision m = record m {
  state = state_pending;
  candidate_revision = revision;
  boot_attempts = 0;
}

abbrev pub active_metadata : Metadata → Metadata
active_metadata m = record m { state = state_active; candidate_revision = 0; boot_attempts = 0 }

abbrev pub reason_text : Option (List ℕ) → List ℕ
reason_text none = codes "unspecified"
reason_text (some reason) = reason

abbrev pub rolled_back_metadata : Option (List ℕ) → Metadata → Metadata
rolled_back_metadata reason m = record m {
  state = state_rollback;
  candidate_revision = 0;
  boot_attempts = 0;
  last_rollback_reason =
      store_text (rollback_reason_max + 1) (reason_text reason) m.last_rollback_reason;
}

abbrev pub same_text : List ℕ → List ℕ → Bool
same_text left right = bytes_eq (c_str left) (c_str right)

abbrev pub same_int : ℤ → ℤ → Bool
same_int (pos a) (pos b) = a == b
same_int (negsuc a) (negsuc b) = a == b
same_int _ _ = false

abbrev pub same_flag : Bool → Bool → Bool
same_flag a b = if a then b else not b

unfoldable pub configurations_match : DeviceConfig → DeviceConfig → Bool
configurations_match left right =
    left.schema_version == right.schema_version
    && left.revision == right.revision
    && same_text left.device_id right.device_id
    && same_text left.wifi_ssid right.wifi_ssid
    && same_text left.wifi_password right.wifi_password
    && same_text left.mqtt_broker_uri right.mqtt_broker_uri
    && same_text left.mqtt_username right.mqtt_username
    && same_text left.mqtt_password right.mqtt_password
    && same_text left.mqtt_client_id right.mqtt_client_id
    && same_text left.mqtt_ca_certificate right.mqtt_ca_certificate
    && left.telemetry_interval_seconds == right.telemetry_interval_seconds
    && left.machine_status_provider == right.machine_status_provider
    && same_int left.machine_status_gpio right.machine_status_gpio
    && same_flag left.machine_status_active_high right.machine_status_active_high
    && left.machine_status_pull == right.machine_status_pull
    && same_flag left.maintenance_on_boot right.maintenance_on_boot
    && left.maintenance_window_seconds == right.maintenance_window_seconds
    && left.maintenance_max_session_seconds == right.maintenance_max_session_seconds

-- What `device_config_load_for_boot` stores through its pointers.
pub record Outputs : Type 0 where
  pub configuration : DeviceConfig
  pub using_candidate : Bool
  pub metadata : Metadata

module _ {W : Type 0} (nvs : Nvs W) where
  unfoldable pub configuration_lock : Store W → EspErr × Store W
  configuration_lock s =
      let (taken, w) = nvs.mutex_take s.world in
      if not s.has_mutex
      then (invalid_state, s)
      else (if taken then esp_ok else esp_fail, at_world s w)

  unfoldable pub configuration_unlock : Store W → Store W
  configuration_unlock s = at_world s (nvs.mutex_give s.world)

  -- A function body between `configuration_lock` and `configuration_unlock`; where the lock fails
  -- the function returns that error. Every path through the body unlocks.
  unfoldable pub locked :
      {A : Type 0} → Store W → (EspErr → A) → (Store W → A × Store W) → A × Store W
  unfolding configuration_lock configuration_unlock
  locked s refused body =
      let (result, s1) = configuration_lock s in
      let (a, s2) = body s1 in
      if is_ok result then (a, configuration_unlock s2) else (refused result, s1)

  unfoldable pub storage_init : Store W → EspErr × Store W
  storage_init s =
      let (created, w1) = nvs.mutex_create s.world in
      let (initialized, w2) = nvs.flash_init w1 in
      let (result, w3) = nvs.flash_init s.world in
      if s.has_mutex
      then (result, at_world s w3)
      else if not created
      then (no_mem, at_world s w1)
      else (initialized, record s { has_mutex = true; world = w2 })

  unfoldable pub storage_recover : Store W → EspErr × Store W
  storage_recover s =
      locked s (λ e. e)
        (λ s1.
          let (erased, w1) = nvs.flash_erase s1.world in
          let (initialized, w2) = nvs.flash_init w1 in
          if is_ok erased
          then (initialized, settle initialized (at_world s1 w2))
          else (erased, at_world s1 w1))

  unfoldable pub get_metadata_locked : Metadata → W → EspErr × Metadata × W
  get_metadata_locked before w =
      let (result, m, w1) = read_metadata nvs before w in
      if is_not_found result then (esp_ok, zero_metadata, w1) else (result, m, w1)

  unfoldable pub get_metadata : Option Metadata → Store W → (EspErr × Option Metadata) × Store W
  get_metadata none s = ((invalid_arg, none), s)
  get_metadata (some before) s =
      locked s (λ e. (e, some before))
        (λ s1.
          let (result, m, w1) = get_metadata_locked before s1.world in
          ((result, some m), at_world s1 w1))

  -- A local variable that C leaves uninitialized starts as zeros; it is read only after ESP_OK.
  unfoldable pub stage_locked : DeviceConfig → Store W → EspErr × Store W
  stage_locked c s =
      let (written, w1) = write_configuration nvs candidate c s.world in
      let (got, m, w2) = get_metadata_locked zero_metadata w1 in
      let (result, w3) = write_metadata nvs (pending_metadata c.revision m) w2 in
      if s.in_progress
      then (invalid_state, s)
      else if not (is_ok written)
      then (written, at_world s w1)
      else if not (is_ok got)
      then (got, at_world s w2)
      else (result, at_world s w3)

  unfoldable pub rollback_candidate_locked : Option (List ℕ) → Store W → EspErr × Store W
  rollback_candidate_locked reason s =
      let (got, m, w1) = get_metadata_locked zero_metadata s.world in
      let (written, w2) = write_metadata nvs (rolled_back_metadata reason m) w1 in
      let (erased, w3) = erase_key nvs candidate w2 in
      if not (is_ok got)
      then (got, at_world s w1)
      else if not (is_ok written)
      then (written, at_world s w2)
      else (erased, settle erased (at_world s w3))

  unfoldable pub rollback_candidate : Option (List ℕ) → Store W → EspErr × Store W
  rollback_candidate reason s = locked s (λ e. e) (rollback_candidate_locked reason)

  unfoldable pub cancel_locked : Store W → EspErr × Store W
  cancel_locked s =
      let (got, m, w1) = get_metadata_locked zero_metadata s.world in
      let (written, w2) = write_metadata nvs (active_metadata m) w1 in
      let (erased, w3) = erase_key nvs candidate w2 in
      if s.in_progress
      then (invalid_state, s)
      else if not (is_ok got)
      then (got, at_world s w1)
      else if not (is_ok written)
      then (written, at_world s w2)
      else (erased, at_world s w3)

  unfoldable pub cancel_candidate : Store W → EspErr × Store W
  cancel_candidate s = locked s (λ e. e) cancel_locked

  unfoldable pub candidate_validation_in_progress : Store W → Bool × Store W
  candidate_validation_in_progress s = locked s (λ e. false) (λ s1. (s1.in_progress, s1))

  unfoldable pub factory_reset : Store W → EspErr × Store W
  factory_reset s =
      locked s (λ e. e)
        (λ s1.
          let (opened, handle, w1) = nvs.nvs_open read_write s1.world in
          let (erased, w2) = nvs.erase_all handle w1 in
          let (committed, w3) = nvs.commit handle w2 in
          if not (is_ok opened)
          then (opened, at_world s1 w1)
          else if is_ok erased
          then (committed, settle committed (at_world s1 (nvs.close handle w3)))
          else (erased, at_world s1 (nvs.close handle w2)))
