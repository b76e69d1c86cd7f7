-- ===== src/Provisioning/Tests.antt =====
-- The provisioning control plane at concrete inputs.
use industrial_edge_monitor.Base.{
  ℕ, ◌≤◌, ◌<◌, ◌≡◌, ◌≢◌, ◌↔◌, refl, true, false, none, some, arith, List, [], ◌∷◌, pos, is_negative,
  codes, decimal, all_digits,
}
use industrial_edge_monitor.Provisioning.Stream.{
  Lifecycle, no_socket, admit, attach_socket, worker_current, request_shutdown, stop_satisfied,
}
use industrial_edge_monitor.Provisioning.Stream.Invariant.{
  IsLifecycle, Call, admit_worker, attach, shutdown, finish, apply,
}
use industrial_edge_monitor.Provisioning.Stream.Traces.{run, any_finishes, shutdown-stop_satisfied}
use industrial_edge_monitor.Provisioning.Stream.Operations.{
  Operation, on_worker, reset, perform_all, perform_all-IsLifecycle, stopping_absorbs,
}
use industrial_edge_monitor.Provisioning.State.{Machine, maintenance_window, operational, tick}
use industrial_edge_monitor.Provisioning.State.Window.{
  Event, ticked, active, or_self, step, tick_lem, absolute_limit, reopened_by_configuration,
}
use industrial_edge_monitor.Provisioning.State.Window as Window
use industrial_edge_monitor.Provisioning.Access.{
  constant_time_equal, session_authorized, stream_request_authorized,
}
use industrial_edge_monitor.Provisioning.Access.Equal.{constant_time_equal_iff}
use industrial_edge_monitor.Provisioning.Access.Session.{Before, SameText, session_authorized_iff}
use industrial_edge_monitor.Provisioning.Access.Generation.{stream_request_authorized_iff}
use industrial_edge_monitor.Provisioning.Endpoint.{
  Abi, SocketAddress, authorize_socket, is_authorized,
}
use industrial_edge_monitor.Provisioning.Endpoint.Authorized.{IsSoftap, authorize_socket_iff}

abbrev idle : Lifecycle
idle = record {
  next_worker_generation = 0;
  active_worker_generation = 0;
  completed_worker_generation = 0;
  active_socket = no_socket;
  active = false;
  shutdown_requested = false;
  service_stopping = false;
}

abbrev streaming : Lifecycle
streaming = record {
  next_worker_generation = 1;
  active_worker_generation = 1;
  completed_worker_generation = 0;
  active_socket = pos 54;
  active = true;
  shutdown_requested = false;
  service_stopping = false;
}

idle-IsLifecycle : IsLifecycle idle
idle-IsLifecycle = ground arith

streaming-IsLifecycle : IsLifecycle streaming
streaming-IsLifecycle = ground arith

abbrev session : List Call
session = admit_worker ∷ attach 1 (pos 54) ∷ finish 1 ∷ admit_worker ∷ []

-- A session, a stop, the reset behind it and another session.
abbrev restarted : List Operation
restarted =
    on_worker admit_worker
    ∷ on_worker (shutdown true)
    ∷ on_worker (finish 1)
    ∷ reset
    ∷ on_worker admit_worker
    ∷ []

perform_all-IsLifecycle_example : IsLifecycle (perform_all idle restarted)
perform_all-IsLifecycle_example =
    perform_all-IsLifecycle restarted idle idle-IsLifecycle (omega arith)

shutdown-stop_satisfied_example :
    let g = (request_shutdown (some streaming) false none).2 in
    stop_satisfied (some (run (apply streaming (shutdown false)) session)) g
    ≡ any_finishes g session
shutdown-stop_satisfied_example =
    shutdown-stop_satisfied streaming false none session streaming-IsLifecycle refl (omega arith)

-- A reset, a session and a stop that an admission follows.
abbrev stopped_again : List Operation
stopped_again =
    reset ∷ on_worker admit_worker ∷ on_worker (shutdown true) ∷ on_worker admit_worker ∷ []

stopping_absorbs_example :
    let l' = perform_all streaming stopped_again in
    (l'.service_stopping ≡ true)
    × (admit (some l') (some 0) ≡ (some l', some 0, false))
    × ((attach_socket (some l') 1 (pos 54)).1 ≡ false)
    × (worker_current (some l') 1 ≡ false)
stopping_absorbs_example = stopping_absorbs stopped_again streaming 0 1 (pos 54) refl

abbrev opened : Machine
opened = record {
  has_mutex = true;
  state = maintenance_window;
  configured = true;
  maintenance_enabled = true;
  authenticated_activity = false;
  opened_ms = 1000;
  last_authenticated_ms = 1000;
  inactivity_seconds = 300;
  absolute_seconds = 900;
}

abbrev closed : Machine
closed = record opened { state = operational }

abbrev visits : List Event
visits = active true 200000 ∷ ticked true 400000 ∷ active true 600000 ∷ []

absolute_limit_example :
    (step (Window.run opened visits) (ticked true 901000)).state ≡ operational
    × ((tick true (some (Window.run opened visits)) 901000).1 ≡ false)
absolute_limit_example = absolute_limit opened visits 901000 refl refl (omega arith) (omega arith)

abbrev token : List ℕ
token = codes "a1b2"

constant_time_equal_iff_example :
    (constant_time_equal (some token) (some (codes "a1b")) ≡ true) ↔ (token ≡ codes "a1b")
constant_time_equal_iff_example =
    constant_time_equal_iff token (codes "a1b") (ground arith) (ground arith) (omega arith)
      (omega arith)

session_authorized_iff_example :
    (session_authorized (some token) (some token) (some token) none (pos 900) (pos 100) true ≡ true)
    ↔ ((some token ≢ some [])
        × Before (pos 100) (pos 900)
        × SameText (some token) (some token)
        × (true ≡ true → SameText (some token) none))
session_authorized_iff_example =
    session_authorized_iff (some token) (some token) (some token) none (pos 900) (pos 100) true
      (ground arith) (ground arith) (ground arith) tt

stream_request_authorized_iff_example :
    (stream_request_authorized (some (codes "42")) 42 (pos 900) (pos 100) ≡ true) ↔ (
      (0 < 42)
      × Before (pos 100) (pos 900)
      × (codes "42" ≢ [])
      × (all_digits (codes "42") ≡ true)
      × (decimal (codes "42") ≡ 42))
stream_request_authorized_iff_example =
    stream_request_authorized_iff (codes "42") 42 (pos 900) (pos 100) (omega arith)

abbrev lwip : Abi
lwip = record {
  family_size = 1;
  ipv4_size = 16;
  ipv6_size = 28;
  storage_size = 28;
  af_unspec = 0;
  af_inet = 2;
  af_inet6 = 10;
}

abbrev softap_address : SocketAddress
softap_address = record { family = 2; ipv4_address = 17082560; ipv6_address = [] }

authorize_socket_iff_example :
    (is_authorized (authorize_socket lwip none (pos 54) true 17082560 16777215).0 ≡ false)
    × ((is_authorized
            (authorize_socket lwip (some (softap_address, 16)) (pos 54) true 17082560 16777215).0
          ≡ true)
        ↔ ((true ≡ true)
            × (0 < 17082560)
            × (0 < 16777215)
            × (is_negative (pos 54) ≡ false)
            × (16 ≤ lwip.storage_size)
            × IsSoftap lwip softap_address 16 17082560))
authorize_socket_iff_example =
    authorize_socket_iff lwip softap_address 16 (pos 54) true 17082560 16777215 (omega arith)
