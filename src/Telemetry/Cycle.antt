-- ===== src/Telemetry/Cycle.antt =====
-- firmware/components/telemetry/telemetry.c: one cycle of the telemetry task, and its start. What
-- the calls of the other components answer in a cycle is the record `Moment`.
use industrial_edge_monitor.Base.{
  ℕ, Bool, true, false, ◌||◌, not, Option, none, some, List, [], ◌∷◌, ltb, if◌then◌else◌, EspErr,
  esp_ok, invalid_arg, invalid_state, no_mem, not_supported, is_ok, other, pos, ◌==◌,
}
use industrial_edge_monitor.Health.{
  Health, ComponentStatus, HealthError, Counter, update_component, increment,
}
use industrial_edge_monitor.MachineStatus.{Status}
use industrial_edge_monitor.Sensor.{Float32, Driver, Sensor}
use industrial_edge_monitor.Telemetry.{Telemetry, configure, create, to_json}

-- `clock` is `system_time_is_valid`, `stamp` and `second_stamp` are the two calls for a time stamp,
-- `publish` is `mqtt_publish_telemetry`, and `taken` is what taking the mutex of the device's health
-- comes to in the calls of the cycle, by their order in the source.
pub record Moment : Type 0 where
  pub clock : Bool
  pub stamp : EspErr × List ℕ
  pub second_stamp : EspErr × List ℕ
  pub machine : EspErr × Option Status
  pub format : Float32 → List ℕ
  pub publish : List ℕ → EspErr
  pub taken : ℕ → Bool

abbrev pub stamp_of : EspErr × List ℕ → Option (List ℕ)
stamp_of (result, text) = if is_ok result then some text else none

-- The components' numbers.
abbrev pub sensor_component : ℕ
sensor_component = 0

abbrev pub machine_component : ℕ
machine_component = 1

abbrev pub time_component : ℕ
time_component = 2

abbrev pub mqtt_component : ℕ
mqtt_component = 3

-- `device_health_update_component`, whose result nobody reads.
unfoldable pub note : Bool → ℕ → ComponentStatus → HealthError → Option (List ℕ) → Health → Health
unfolding update_component
note taken component status error stamp h =
    (update_component taken h (pos component) status error stamp).0

unfoldable pub count : Bool → Counter → Health → Health
unfolding increment
count taken counter h = increment taken h counter

-- What the comparisons with the model's errors find.
pub data ModelError : Type 0 where
  sensor_read not_finite temperature humidity timestamp another : ModelError

unfoldable pub model_error : EspErr → ModelError
model_error (other n) =
    if n == 0x7101
    then sensor_read
    else if n == 0x7102
    then not_finite
    else if n == 0x7103
    then temperature
    else if n == 0x7104
    then humidity
    else if n == 0x7105
    then timestamp
    else another
model_error _ = another

abbrev time_lost : Bool → Health → Health
time_lost taken =
    note taken time_component ComponentStatus.degraded HealthError.time_not_synchronized none

abbrev sensor_failed : Bool → HealthError → Option (List ℕ) → Health → Health
sensor_failed taken error stamp = note taken sensor_component ComponentStatus.fault error stamp

-- The branches on a failed model, with `update_sensor_failure`.
unfoldable pub note_failure : Bool → Option (List ℕ) → ModelError → Health → Health
note_failure taken stamp sensor_read h = sensor_failed taken HealthError.read_failed stamp h
note_failure taken stamp not_finite h = sensor_failed taken HealthError.value_not_finite stamp h
note_failure taken stamp temperature h =
    sensor_failed taken HealthError.temperature_out_of_range stamp h
note_failure taken stamp humidity h = sensor_failed taken HealthError.humidity_out_of_range stamp h
note_failure taken stamp timestamp h = time_lost taken h
note_failure taken stamp another h = h

abbrev pub is_not_supported : EspErr → Bool
is_not_supported not_supported = true
is_not_supported _ = false

abbrev pub is_invalid_state : EspErr → Bool
is_invalid_state invalid_state = true
is_invalid_state _ = false

unfoldable pub update_machine_status_health :
    (ℕ → Bool) → EspErr → Option (List ℕ) → Health → Health
update_machine_status_health taken result stamp h =
    if is_ok result
    then note (taken 5) machine_component ComponentStatus.healthy HealthError.no_error stamp h
    else if is_not_supported result
    then note (taken 5) machine_component ComponentStatus.unknown HealthError.no_error stamp h
    else note (taken 6) machine_component ComponentStatus.fault
        HealthError.machine_status_unavailable stamp
        (count (taken 5) Counter.machine_status_errors h)

-- After `mqtt_publish_telemetry`.
unfoldable pub note_publish : (ℕ → Bool) → EspErr → Option (List ℕ) → Health → Health
note_publish taken result stamp h =
    if is_ok result
    then note (taken 8) mqtt_component ComponentStatus.healthy HealthError.no_error stamp
        (count (taken 7) Counter.publish_ok h)
    else if is_invalid_state result
    then note (taken 8) mqtt_component ComponentStatus.degraded HealthError.mqtt_disconnected stamp
        (count (taken 7) Counter.publish_failed h)
    else note (taken 8) mqtt_component ComponentStatus.fault HealthError.publish_failed stamp
        (count (taken 7) Counter.publish_failed h)

abbrev pub publish_text : Moment → Option (List ℕ) → Option EspErr
publish_text m none = none
publish_text m (some text) = some (m.publish text)

-- From the JSON text on; `none` is a text that does not fit.
unfoldable pub finish : (ℕ → Bool) → Option EspErr → Option (List ℕ) → Health → Health
finish taken none stamp h = count (taken 7) Counter.publish_failed h
finish taken (some result) stamp h = note_publish taken result stamp h

abbrev pub machine_result_of : Option Telemetry → EspErr
machine_result_of none = esp_ok
machine_result_of (some t) = t.machine_status_result

-- What is noted of a sample that is made, up to the status of the machine.
unfoldable pub note_sample : (ℕ → Bool) → EspErr → Option (List ℕ) → Health → Health
note_sample taken machine stamp h = update_machine_status_health taken machine stamp (
    note (taken 4) time_component ComponentStatus.healthy HealthError.no_error stamp (
      note (taken 3) sensor_component ComponentStatus.healthy HealthError.no_error stamp
        (count (taken 2) Counter.samples_ok h)))

-- What follows a sample that is made: `published` is the result of `mqtt_publish_telemetry`.
unfoldable pub accept_sample :
    (ℕ → Bool) → EspErr → Option EspErr → Option (List ℕ) → Health → Health
accept_sample taken machine published stamp h =
    finish taken published stamp (note_sample taken machine stamp h)

unfoldable pub reject_sample : (ℕ → Bool) → ModelError → Option (List ℕ) → Health → Health
reject_sample taken error stamp h =
    note_failure (taken 3) stamp error (count (taken 2) Counter.samples_rejected h)

-- The uninitialized `telemetry_t` of the cycle; it is read only if it is made.
abbrev pub blank : Telemetry
blank = record {
  device_id = [];
  timestamp = [];
  temperature = Float32.not_a_number;
  humidity = Float32.not_a_number;
  machine_status = [];
  machine_status_result = esp_ok;
}

module _ {W : Type 0} (bme280 : Driver W) where
  -- `device_id` is that of the model. The health and the sensor afterwards, and the text that is
  -- given to `mqtt_publish_telemetry`, if any.
  unfoldable pub collect_and_publish :
      Moment → List ℕ → Health × Sensor W → (Health × Sensor W) × Option (List ℕ)
  collect_and_publish m device_id (h, s) =
      let stamp = stamp_of m.stamp in
      let ((result, sample), s1) =
        create bme280 m.second_stamp m.machine device_id (some blank) s in
      let json = to_json m.format sample 256 in
      if not m.clock
      then ((time_lost (m.taken 1) (count (m.taken 0) Counter.samples_rejected h), s), none)
      else if not (is_ok result)
      then ((reject_sample m.taken (model_error result) stamp h, s1), none)
      else (
        (accept_sample m.taken (machine_result_of sample) (publish_text m json) stamp h, s1),
        json,
      )

  -- The task, for as many cycles as there are moments.
  unfoldable pub task : List Moment → List ℕ → Health × Sensor W → Health × Sensor W
  task [] device_id state = state
  task (m ∷ later) device_id state =
      task later device_id ((collect_and_publish m device_id state).0)

-- `running` says that the task's handle is not NULL, `created` that `xTaskCreate` succeeds. The
-- result, the device's id, the interval and whether the task runs.
pub record Task : Type 0 where
  pub running : Bool
  pub device_id : List ℕ
  pub interval_seconds : ℕ

unfoldable pub start : Bool → Option (List ℕ) → ℕ → Task → EspErr × Task
unfolding configure
start created device_id interval t =
    let (configured, id) = configure device_id t.device_id in
    if t.running
    then (invalid_state, t)
    else if not (is_ok configured) || (ltb interval 1 || ltb 3600 interval)
    then (invalid_arg, record t { device_id = id })
    else if not created
    then (no_mem, record t { device_id = id; interval_seconds = interval })
    else (esp_ok, record { running = true; device_id = id; interval_seconds = interval })
