-- ===== src/Health/Service.antt =====
-- firmware/components/device_health_service/device_health_service.c: the task that publishes the
-- device's health. What the calls of the other components and of the system answer in a round is the
-- record `Moment`.
pub mod Retries
use industrial_edge_monitor.Base.{
  ℕ, ◌+◌, ◌-◌, ◌/◌, ◌^◌, Bool, true, false, not, ◌||◌, ◌&&◌, Option, none, some, List, [], ◌∷◌,
  ◌++◌, ltb, leb, ◌==◌, if◌then◌else◌, EspErr, esp_ok, invalid_arg, invalid_size, no_mem, is_ok,
  u32, codes, decimal_text, snprintf_text, ℤ, pos, negsuc, length, is_empty, get_or, suc,
}
use industrial_edge_monitor.Health.{
  Health, Snapshot, ComponentSnapshot, Metrics, Availability, ComponentStatus, HealthError, Counter,
  online, offline, set_availability, set_metrics, get_snapshot, unknown_component,
}
use industrial_edge_monitor.Health.Names.{
  overall_status_to_string, component_status_to_string, error_to_string, availability_to_string,
}
use industrial_edge_monitor.Health.Report.{serialize_health}
use industrial_edge_monitor.Telemetry.Cycle.{
  note, count, sensor_component, machine_component, time_component, mqtt_component,
}

abbrev pub device_id_size : ℕ
device_id_size = 64

abbrev pub health_payload_size : ℕ
health_payload_size = 1536

abbrev pub availability_payload_size : ℕ
availability_payload_size = 160

-- `stamp`, `connected` and `taken` answer the calls of the round for a time stamp, for
-- `mqtt_is_connected` and for the mutex of the health, by their order in the source. `uninitialized`
-- is what the snapshot of the task holds before it is filled.
pub record Moment : Type 0 where
  pub clock : Bool
  pub stamp : ℕ → Option (List ℕ)
  pub connected : ℕ → Bool
  pub generation : ℕ
  pub now : ℕ
  pub timer_us : ℕ
  pub free_heap : ℕ
  pub minimum_free_heap : ℕ
  pub rssi : Option ℤ
  pub taken : ℕ → Bool
  pub uninitialized : Snapshot
  pub publish_availability : List ℕ → EspErr
  pub publish_health : List ℕ → EspErr

-- The static variables of `update_runtime_components` and the local ones of the task.
pub record Loop : Type 0 where
  pub mqtt_state_observed : Bool
  pub mqtt_was_connected : Bool
  pub last_heartbeat : ℕ
  pub last_attempted_revision : ℕ
  pub last_connection_generation : ℕ
  pub health_retry_pending : Bool

abbrev has_rssi : Option ℤ → Bool
has_rssi none = false
has_rssi (some n) = true

abbrev rssi_or_zero : Option ℤ → ℤ
rssi_or_zero none = pos 0
rssi_or_zero (some n) = n

unfoldable pub update_metrics : Moment → Health → Health
unfolding set_metrics
update_metrics m h =
    (set_metrics (m.taken 3) h (
      some (record {
        uptime_seconds = m.timer_us / 1000000;
        free_heap_bytes = m.free_heap;
        minimum_free_heap_bytes = m.minimum_free_heap;
        has_wifi_rssi = has_rssi m.rssi;
        wifi_rssi_dbm = rssi_or_zero m.rssi;
      }))).0

unfoldable pub update_runtime_components : Moment → Loop × Health → Loop × Health
unfolding set_availability
update_runtime_components m (l, h) =
    let timed =
      if m.clock
      then note (m.taken 0) time_component ComponentStatus.healthy HealthError.no_error (m.stamp 0)
          h
      else note (m.taken 0) time_component ComponentStatus.degraded
          HealthError.time_not_synchronized none h in
    let connected = m.connected 0 in
    let shown = (set_availability (m.taken 1) timed (if connected then online else offline)).0 in
    (
      record l { mqtt_state_observed = true; mqtt_was_connected = connected },
      if not connected
          then note (m.taken 2) mqtt_component ComponentStatus.degraded
              HealthError.mqtt_disconnected (m.stamp 0) shown
          else if not l.mqtt_state_observed || not l.mqtt_was_connected
          then note (m.taken 2) mqtt_component ComponentStatus.healthy HealthError.no_error
              (m.stamp 0) shown
          else shown,
    )

abbrev or_else : Snapshot → Option Snapshot → Snapshot
or_else before none = before
or_else before (some s) = s

unfoldable pub publish_online_availability : (List ℕ → EspErr) → List ℕ → EspErr
publish_online_availability publish device_id =
    let written =
      codes "{\"schema_version\":1,\"device_id\":\""
      ++ device_id
      ++ codes "\",\"status\":\"online\"}" in
    if leb availability_payload_size (length written) then invalid_size else publish written

unfoldable pub publish_health_snapshot : Moment → List ℕ → Health → EspErr
unfolding serialize_health get_snapshot
publish_health_snapshot m device_id h =
    let (snapshot, result) = get_snapshot (m.taken 5) h (some m.uninitialized) in
    let written = serialize_health device_id (m.stamp 1) (or_else m.uninitialized snapshot) in
    if not (is_ok result)
    then result
    else if leb health_payload_size (length written)
    then invalid_size
    else m.publish_health written

unfoldable pub record_health_publish_failure : Moment → Health → Health
record_health_publish_failure m h =
    note (m.taken 7) mqtt_component ComponentStatus.fault HealthError.publish_failed (m.stamp 2)
      (count (m.taken 6) Counter.publish_failed h)

unfoldable pub record_health_publish_success : Moment → Health → Health
record_health_publish_success m h =
    if not (m.connected 2)
    then h
    else note (m.taken 6) mqtt_component ComponentStatus.healthy HealthError.no_error (m.stamp 2) h

-- The snapshot of the task, which stays as it was where it cannot be read.
abbrev pub seen : Moment → Health → Snapshot
seen m h = or_else m.uninitialized ((get_snapshot (m.taken 4) h (some m.uninitialized)).0)

abbrev pub heartbeat_due : ℕ → Moment → Loop → Bool
heartbeat_due period m l = leb period (u32 (m.now + 2 ^ 32 - l.last_heartbeat))

-- `reconnected || heartbeat_due || state_changed`: the reasons to publish but a retry.
unfoldable pub has_news : ℕ → Moment → Snapshot → Loop → Bool
has_news period m snapshot l =
    not (m.generation == l.last_connection_generation)
    || (heartbeat_due period m l || not (snapshot.state_revision == l.last_attempted_revision))

-- After `publish_health_snapshot`.
unfoldable pub settle : Moment → EspErr → Snapshot → Loop × Health → Loop × Health
settle m result snapshot (l, h) =
    let noted = record_health_publish_failure m h in
    let (read_again, got) = get_snapshot (m.taken 8) noted (some snapshot) in
    if not (is_ok result)
    then (
      record l {
        health_retry_pending = not l.health_retry_pending && m.connected 2;
        last_attempted_revision =
            (if is_ok got then or_else snapshot read_again else snapshot).state_revision;
        last_heartbeat = m.now;
      },
      noted,
    )
    else (
      record l {
        health_retry_pending = false;
        last_attempted_revision = snapshot.state_revision;
        last_heartbeat = m.now;
      },
      record_health_publish_success m h,
    )

-- An attempt to publish: whether there was more reason than a retry, and the results.
pub record Attempt : Type 0 where
  pub news : Bool
  pub availability : Option EspErr
  pub health : EspErr

-- One round of the task, with its attempt to publish.
unfoldable pub health_round : ℕ → List ℕ → Moment → Loop × Health → (Loop × Health) × Option Attempt
health_round period device_id m state =
    let (l, h0) = update_runtime_components m state in
    let h = update_metrics m h0 in
    let snapshot = seen m h in
    let news = has_news period m snapshot l in
    let result = publish_health_snapshot m device_id h in
    let (attempted, h') = settle m result snapshot (l, h) in
    if m.connected 1 && (news || l.health_retry_pending)
    then (
      (record attempted { last_connection_generation = m.generation }, h'),
      some (record {
        news = news;
        availability =
            if not (m.generation == l.last_connection_generation)
            then some (publish_online_availability m.publish_availability device_id)
            else none;
        health = result;
      }),
    )
    else ((record l { last_connection_generation = m.generation }, h), none)

-- The task, for as many rounds as there are moments.
unfoldable pub health_task : ℕ → List ℕ → List Moment → Loop × Health → List (Option Attempt)
health_task period device_id [] state = []
health_task period device_id (m ∷ later) state =
    let (next, attempt) = health_round period device_id m state in
    attempt ∷ health_task period device_id later next

-- `running` says that the task's handle is not NULL, `created` that `xTaskCreate` succeeds. The
-- result, and `runtime_device_id` with whether the task runs.
unfoldable pub service_start : Bool → Option (List ℕ) → Bool × List ℕ → EspErr × (Bool × List ℕ)
service_start created none (running, before) =
    (if running then esp_ok else invalid_arg, (running, before))
service_start created (some device_id) (running, before) =
    let kept = snprintf_text device_id_size device_id in
    if running
    then (esp_ok, (running, before))
    else if is_empty device_id
    then (invalid_arg, (running, before))
    else if leb device_id_size (length device_id)
    then (invalid_arg, (running, kept))
    else if not created
    then (no_mem, (false, kept))
    else (esp_ok, (true, kept))
