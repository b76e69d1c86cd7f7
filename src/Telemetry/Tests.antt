-- ===== src/Telemetry/Tests.antt =====
-- The telemetry at concrete inputs.
use industrial_edge_monitor.Base.{
  ◌==◌, if◌then◌else◌, ℕ, ◌+◌, ◌≡◌, refl, arith, Bool, true, false, some, List, [], ◌∷◌, EspErr,
  esp_ok, esp_fail, invalid_state, codes,
}
use industrial_edge_monitor.Health.{
  OverallStatus, Health, offline, zero_counters, zero_metrics, store_component, bump,
}
use industrial_edge_monitor.MachineStatus.{Status, to_string}
use industrial_edge_monitor.Sensor.{finite, SensorData, Driver, Sensor, read}
use industrial_edge_monitor.Telemetry.{create, whole, to_json, validate_measurement, complete}
use industrial_edge_monitor.Telemetry.Cycle.{
  Moment, blank, task, collect_and_publish, accept_sample, reject_sample, note_sample, finish,
  note_publish, update_machine_status_health, note_failure, count, note, model_error,
}
use industrial_edge_monitor.Telemetry.Counted.{IsCounted, none_left, takes, task-IsCounted}
use industrial_edge_monitor.Telemetry.Tally.{tally}
use industrial_edge_monitor.Telemetry.Sample.{Outcome, create-Outcome}

abbrev reading : SensorData
reading = record {
  temperature = finite (whole 21);
  humidity = finite (whole 40);
  pressure = finite (whole 1013);
}

-- A sensor that counts its readings, of which the third fails.
abbrev third_fails : Driver ℕ
third_fails = record {
  init = λ w. (esp_ok, w);
  deinit = λ w. (esp_ok, w);
  read = λ w. (if w == 2 then esp_fail else esp_ok, reading, w + 1);
}

abbrev clock : EspErr × List ℕ
clock = (esp_ok, codes "2026-01-02T03:04:05Z")

abbrev moment : Bool → EspErr → Moment
moment valid result = record {
  clock = valid;
  stamp = clock;
  second_stamp = clock;
  machine = (esp_ok, some Status.running);
  format = λ v. codes "21.00";
  publish = λ text. result;
  taken = λ k. true;
}

abbrev moments : List Moment
moments =
    moment false esp_ok ∷ moment true esp_ok ∷ moment true invalid_state ∷ moment true esp_ok ∷ []

abbrev started : Health
started = record {
  has_mutex = true;
  state = record {
    status = OverallStatus.healthy;
    availability = offline;
    components = [];
    counters = zero_counters;
    metrics = zero_metrics;
    state_revision = 1;
  };
}

abbrev not_initialized : Sensor ℕ
not_initialized = record { initialized = false; driver = 0 }

started-IsCounted : IsCounted 0 (tally started)
unfolding tally
started-IsCounted = record { mutex = refl; samples = refl; publications = refl }

task-IsCounted_example :
    IsCounted 4 (tally ((task third_fails moments (codes "edge-1") (started, not_initialized)).0))
task-IsCounted_example =
    task-IsCounted third_fails moments (codes "edge-1") started not_initialized
      (takes (λ k. refl) (takes (λ k. refl) (takes (λ k. refl) (takes (λ k. refl) none_left))))
      (omega arith) started-IsCounted

create-Outcome_example :
    let r =
      create third_fails clock
        (esp_ok, some Status.running)
        (codes "edge-1")
        (some blank)
        not_initialized in
    Outcome clock (codes "edge-1") blank (r.0.0) (r.0.1)
create-Outcome_example =
    create-Outcome third_fails clock (esp_ok, some Status.running) (codes "edge-1") blank
      not_initialized

-- One sample is published, one is not, and two are rejected.
counters_of_the_run :
    let h = (task third_fails moments (codes "edge-1") (started, not_initialized)).0 in
    tally h ≡ record { mutex = true; made = 2; rejected = 2; published = 1; failed = 1 }
unfolding tally task collect_and_publish create accept_sample reject_sample note_sample finish
    note_publish update_machine_status_health note_failure count note read validate_measurement
    complete to_string model_error to_json store_component bump
counters_of_the_run = refl
