-- ===== src/Mqtt/Tests.antt =====
-- The client at concrete inputs.
use industrial_edge_monitor.Base.{
  refl, true, false, some, none, List, [], ◌∷◌, Bool, codes, esp_ok, esp_fail,
}
use industrial_edge_monitor.Config.Samples.{site, any_certificate}
use industrial_edge_monitor.Mqtt.Client.{
  Client, Event, became_connected, became_disconnected, failed, Creation, mqtt_init,
}
use industrial_edge_monitor.Mqtt.Connection.{IsTracked, is_online, connections, run, run-IsTracked}
use industrial_edge_monitor.Mqtt.Started.{IsStart, mqtt_init-IsStart}

abbrev no_client : Client
no_client = record {
  has_client = false;
  connected = false;
  connection_generation = 0;
  has_group = false;
  connected_bit = false;
  last_error = record { has_mutex = false; text = [] };
  telemetry_topic = [];
  health_topic = [];
  availability_topic = [];
  offline_payload = [];
}

abbrev events : List (Bool × Event)
events =
    (true, failed none)
    ∷ (true, became_connected)
    ∷ (true, became_disconnected)
    ∷ (false, became_connected)
    ∷ []

run-IsTracked_example : IsTracked true 2 (run events no_client)
unfolding is_online connections
run-IsTracked_example =
    run-IsTracked events {made = 0} no_client
      (record { flag = refl; bit = refl; generation = refl })

abbrev not_started : Creation
not_started = record {
  mutex = true;
  group = true;
  client = true;
  registered = esp_ok;
  started = esp_fail;
}

mqtt_init-IsStart_example :
    IsStart any_certificate
      (some site)
      no_client
      (mqtt_init any_certificate (codes "edge") not_started (some site) no_client)
mqtt_init-IsStart_example =
    mqtt_init-IsStart any_certificate (codes "edge") not_started (some site) no_client refl
