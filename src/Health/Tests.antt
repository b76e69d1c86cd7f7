-- ===== src/Health/Tests.antt =====
-- The device health at concrete inputs.
use industrial_edge_monitor.Base.{
  ℕ, ◌≤◌, ◌*◌, some, negsuc, codes, esp_fail, ◌+◌, ◌≡◌, ◌↔◌, refl, true, false, none, List, [], ◌∷◌,
  pos, replicate, esp_ok, u32, arith,
}
use industrial_edge_monitor.Health.{
  OverallStatus, ComponentStatus, Health, init, update_component, component_count,
  unknown_component, zero_counters, zero_metrics, read_failed, offline,
}
use industrial_edge_monitor.Health.Overall.{
  SomeBad, Call, run, update, run-status_iff, init-IsHealth,
}
use industrial_edge_monitor.Health.Revision.{entry_at, new_entry, update_component_lem}
use industrial_edge_monitor.Health.Service.{Moment, Loop, health_task}
use industrial_edge_monitor.Health.Service.Retries.{all_retries, all_news, all_retries_bound}

abbrev not_started : Health
not_started = record {
  has_mutex = false;
  state = record {
    status = OverallStatus.healthy;
    availability = offline;
    components = replicate component_count unknown_component;
    counters = zero_counters;
    metrics = zero_metrics;
    state_revision = 0;
  };
}

abbrev started : Health
started = (init true not_started).0

abbrev sensor_failure : List Call
sensor_failure = update true (pos 0) ComponentStatus.fault read_failed none ∷ []

run-status_iff_example :
    ((run started sensor_failure).state.status ≡ OverallStatus.degraded)
    ↔ SomeBad (run started sensor_failure).state.components
run-status_iff_example = run-status_iff not_started sensor_failure refl

update_component_lem_example :
    let (h', result) =
      update_component true started (pos 0) ComponentStatus.fault read_failed none in
    (result ≡ esp_ok)
    × (entry_at h'.state 0 ≡ new_entry ComponentStatus.fault read_failed none)
    × (entry_at h'.state 1 ≡ entry_at started.state 1)
    × (h'.state.availability ≡ started.state.availability)
    × ((entry_at started.state 0).status ≡ ComponentStatus.fault
        → (entry_at started.state 0).error ≡ read_failed
        → h'.state.state_revision ≡ started.state.state_revision)
    × (((entry_at started.state 0).status ≡ ComponentStatus.fault
          → (entry_at started.state 0).error ≡ read_failed
          → ⊥)
        → h'.state.state_revision ≡ u32 (started.state.state_revision + 1))
unfolding init
update_component_lem_example =
    update_component_lem started 0 1 ComponentStatus.fault read_failed none refl
      (init-IsHealth not_started refl) (omega arith) (omega arith)

-- A round with a connection, where the health cannot be published.
abbrev failing : ℕ → Moment
failing now = record {
  clock = true;
  stamp = λ k. some (codes "2026-01-02T03:04:05Z");
  connected = λ k. true;
  generation = 1;
  now = now;
  timer_us = now * 10000;
  free_heap = 200000;
  minimum_free_heap = 150000;
  rssi = some (negsuc 59);
  taken = λ k. true;
  uninitialized = started.state;
  publish_availability = λ text. esp_ok;
  publish_health = λ text. esp_fail;
}

abbrev first_round : Loop
first_round = record {
  mqtt_state_observed = false;
  mqtt_was_connected = false;
  last_heartbeat = 0;
  last_attempted_revision = 0;
  last_connection_generation = 0;
  health_retry_pending = false;
}

abbrev rounds : List Moment
rounds = failing 100 ∷ failing 200 ∷ failing 300 ∷ []

all_retries_bound_example :
    let attempts = health_task 3000 (codes "edge-1") rounds (first_round, started) in
    all_retries attempts ≤ all_news attempts + 0
all_retries_bound_example = all_retries_bound 3000 (codes "edge-1") rounds first_round started
