-- ===== src/Health.antt =====
-- firmware/components/device_health: the health state that the device reports. The file's static
-- variables are the record `Health`; `taken` is what `xSemaphoreTake` returns to the call, and
-- `has_mutex` says that the mutex handle is not NULL.
pub mod Names
pub mod Overall
pub mod Revision
pub mod Report
pub mod Service
mod Tests
use industrial_edge_monitor.Base.{
  ℕ, ◌+◌, ◌-◌, Bool, true, false, ◌&&◌, ◌||◌, not, Option, none, some, List, [], ◌∷◌, leb, ◌==◌,
  if◌then◌else◌, ℤ, pos, negsuc, u32, u64, get_or, set, take, length, replicate, EspErr, esp_ok,
  no_mem, invalid_arg, invalid_state,
}

pub data OverallStatus : Type 0 where
  healthy degraded : OverallStatus

pub data ComponentStatus : Type 0 where
  healthy degraded fault unknown : ComponentStatus

pub data Availability : Type 0 where
  online offline : Availability

pub data HealthError : Type 0 where
  no_error not_initialized communication_failed read_failed value_not_finite : HealthError
  temperature_out_of_range humidity_out_of_range time_not_synchronized : HealthError
  mqtt_disconnected publish_failed machine_status_unavailable : HealthError

-- The four components, by the numbers of the enumeration.
abbrev pub component_count : ℕ
component_count = 4

abbrev pub timestamp_size : ℕ
timestamp_size = 21

pub record ComponentSnapshot : Type 0 where
  pub status : ComponentStatus
  pub error : HealthError
  pub has_updated_at : Bool
  pub updated_at : List ℕ

pub record Counters : Type 0 where
  pub samples_ok : ℕ
  pub samples_rejected : ℕ
  pub publish_ok : ℕ
  pub publish_failed : ℕ
  pub machine_status_errors : ℕ

pub record Metrics : Type 0 where
  pub uptime_seconds : ℕ
  pub free_heap_bytes : ℕ
  pub minimum_free_heap_bytes : ℕ
  pub has_wifi_rssi : Bool
  pub wifi_rssi_dbm : ℤ

pub record Snapshot : Type 0 where
  pub status : OverallStatus
  pub availability : Availability
  pub components : List ComponentSnapshot
  pub counters : Counters
  pub metrics : Metrics
  pub state_revision : ℕ

pub record Health : Type 0 where
  pub has_mutex : Bool
  pub state : Snapshot

abbrev pub is_bad : ComponentStatus → Bool
is_bad ComponentStatus.degraded = true
is_bad ComponentStatus.fault = true
is_bad _ = false

-- The loop over the component array.
unfoldable pub calculate_overall_status : List ComponentSnapshot → OverallStatus
calculate_overall_status [] = OverallStatus.healthy
calculate_overall_status (c ∷ cs) =
    if is_bad c.status then OverallStatus.degraded else calculate_overall_status cs

abbrev pub lock_state : Health → Bool → Bool
lock_state h taken = h.has_mutex && taken

abbrev pub unknown_component : ComponentSnapshot
unknown_component = record {
  status = ComponentStatus.unknown;
  error = not_initialized;
  has_updated_at = false;
  updated_at = [];
}

abbrev pub zero_counters : Counters
zero_counters = record {
  samples_ok = 0;
  samples_rejected = 0;
  publish_ok = 0;
  publish_failed = 0;
  machine_status_errors = 0;
}

abbrev pub zero_metrics : Metrics
zero_metrics = record {
  uptime_seconds = 0;
  free_heap_bytes = 0;
  minimum_free_heap_bytes = 0;
  has_wifi_rssi = false;
  wifi_rssi_dbm = pos 0;
}

-- `created` says whether `xSemaphoreCreateMutexStatic` returned a handle.
unfoldable pub init : Bool → Health → Health × EspErr
init created h = if h.has_mutex then (h, esp_ok) else if not created then (h, no_mem) else (
  record {
    has_mutex = true;
    state = record {
      status = OverallStatus.healthy;
      availability = offline;
      components = replicate component_count unknown_component;
      counters = zero_counters;
      metrics = zero_metrics;
      state_revision = 1;
    };
  },
  esp_ok,
)

abbrev pub status_code : ComponentStatus → ℕ
status_code ComponentStatus.healthy = 0
status_code ComponentStatus.degraded = 1
status_code ComponentStatus.fault = 2
status_code ComponentStatus.unknown = 3

abbrev pub error_code : HealthError → ℕ
error_code no_error = 0
error_code not_initialized = 1
error_code communication_failed = 2
error_code read_failed = 3
error_code value_not_finite = 4
error_code temperature_out_of_range = 5
error_code humidity_out_of_range = 6
error_code time_not_synchronized = 7
error_code mqtt_disconnected = 8
error_code publish_failed = 9
error_code machine_status_unavailable = 10

abbrev pub overall_code : OverallStatus → ℕ
overall_code OverallStatus.healthy = 0
overall_code OverallStatus.degraded = 1

-- `strlcpy` into the array, or the empty string for NULL.
abbrev pub stored_time : Option (List ℕ) → List ℕ
stored_time none = []
stored_time (some text) = take (timestamp_size - 1) text

abbrev pub is_some : Option (List ℕ) → Bool
is_some none = false
is_some (some text) = true

-- The body between the lock and the unlock, at an index that is in range.
unfoldable pub store_component :
    Snapshot → ℕ → ComponentStatus → HealthError → Option (List ℕ) → Snapshot
store_component s index status error updated_at =
    let entry : ComponentSnapshot = get_or s.components index unknown_component in
    let entry_changed =
      not (status_code entry.status == status_code status)
      || not (error_code entry.error == error_code error) in
    let components = set s.components index (record {
      status = status;
      error = error;
      has_updated_at = is_some updated_at;
      updated_at = stored_time updated_at;
    }) in
    let overall = calculate_overall_status components in
    let overall_changed = not (overall_code s.status == overall_code overall) in
    record s {
      components = components;
      status = overall;
      state_revision =
          if entry_changed || overall_changed then u32 (s.state_revision + 1) else s.state_revision;
    }

unfoldable pub update_component :
    Bool → Health → ℤ → ComponentStatus → HealthError → Option (List ℕ) → Health × EspErr
update_component taken h (negsuc n) status error updated_at = (h, invalid_arg)
update_component taken h (pos index) status error updated_at =
    if leb component_count index
    then (h, invalid_arg)
    else if not (lock_state h taken)
    then (h, invalid_state)
    else (record h { state = store_component h.state index status error updated_at }, esp_ok)

unfoldable pub set_availability : Bool → Health → Availability → Health × EspErr
set_availability taken h availability =
    if not (lock_state h taken)
    then (h, invalid_state)
    else (record h { state = record (h.state) { availability = availability } }, esp_ok)

-- The counters that `DEFINE_COUNTER_INCREMENT` makes a function for.
pub data Counter : Type 0 where
  samples_ok samples_rejected publish_ok publish_failed machine_status_errors : Counter

unfoldable pub bump : Counter → Counters → Counters
bump Counter.samples_ok c = record c { samples_ok = u64 (c.samples_ok + 1) }
bump Counter.samples_rejected c = record c { samples_rejected = u64 (c.samples_rejected + 1) }
bump Counter.publish_ok c = record c { publish_ok = u64 (c.publish_ok + 1) }
bump Counter.publish_failed c = record c { publish_failed = u64 (c.publish_failed + 1) }
bump Counter.machine_status_errors c = record c {
  machine_status_errors = u64 (c.machine_status_errors + 1);
}

unfoldable pub increment : Bool → Health → Counter → Health
increment taken h counter =
    if lock_state h taken
    then record h { state = record (h.state) { counters = bump counter h.state.counters } }
    else h

unfoldable pub set_metrics : Bool → Health → Option Metrics → Health × EspErr
set_metrics taken h none = (h, invalid_arg)
set_metrics taken h (some metrics) =
    if not (lock_state h taken)
    then (h, invalid_state)
    else (record h { state = record (h.state) { metrics = metrics } }, esp_ok)

-- The snapshot that the pointer then refers to, and the result.
unfoldable pub get_snapshot : Bool → Health → Option Snapshot → Option Snapshot × EspErr
get_snapshot taken h none = (none, invalid_arg)
get_snapshot taken h (some out) =
    if not (lock_state h taken) then (some out, invalid_state) else (some h.state, esp_ok)
