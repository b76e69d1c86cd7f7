-- ===== src/Provisioning/State.antt =====
-- firmware/components/provisioning_state: the state machine that opens and closes the maintenance
-- window. A pointer argument is an `Option`, `none` being NULL. `taken` is what `xSemaphoreTake`
-- returns to the call; `has_mutex` says that the mutex handle is not NULL.
pub mod Window
use industrial_edge_monitor.Base.{
  ℕ, ◌-◌, ◌*◌, Bool, true, false, ◌&&◌, ◌||◌, not, Option, none, some, leb, if◌then◌else◌, u64,
  List, codes,
}

pub data Phase : Type 0 where
  boot load_configuration unprovisioned maintenance_window operational rollback : Phase

pub record Machine : Type 0 where
  pub has_mutex : Bool
  pub state : Phase
  pub configured : Bool
  pub maintenance_enabled : Bool
  pub authenticated_activity : Bool
  pub opened_ms : ℕ
  pub last_authenticated_ms : ℕ
  pub inactivity_seconds : ℕ
  pub absolute_seconds : ℕ

pub record Snapshot : Type 0 where
  pub state : Phase
  pub configured : Bool
  pub maintenance_enabled : Bool
  pub authenticated_activity : Bool
  pub opened_ms : ℕ
  pub last_authenticated_ms : ℕ
  pub inactivity_seconds : ℕ
  pub absolute_seconds : ℕ

abbrev pub state_lock : Machine → Bool → Bool
state_lock m taken = m.has_mutex && taken

-- `created` says whether `xSemaphoreCreateMutexStatic` returned a handle.
unfoldable pub init : Bool → Option Machine → Option Machine
init created none = none
init created (some m) = some (record {
  has_mutex = created;
  state = load_configuration;
  configured = false;
  maintenance_enabled = false;
  authenticated_activity = false;
  opened_ms = 0;
  last_authenticated_ms = 0;
  inactivity_seconds = 0;
  absolute_seconds = 0;
})

unfoldable pub configuration_loaded :
    Bool → Option Machine → Bool → Bool → ℕ → ℕ → ℕ → Option Machine
configuration_loaded taken none valid maintenance now inactivity absolute = none
configuration_loaded taken (some m) valid maintenance now inactivity absolute =
    if not (state_lock m taken)
    then some m
    else some (record m {
      configured = valid;
      maintenance_enabled = maintenance;
      opened_ms = now;
      last_authenticated_ms = now;
      inactivity_seconds = inactivity;
      absolute_seconds = absolute;
      state =
          if not valid
          then unprovisioned
          else if maintenance
          then maintenance_window
          else operational;
    })

abbrev pub in_window : Phase → Bool
in_window maintenance_window = true
in_window _ = false

unfoldable pub authenticated_activity : Bool → Option Machine → ℕ → Option Machine
authenticated_activity taken none now = none
authenticated_activity taken (some m) now =
    if state_lock m taken && in_window m.state
    then some (record m { authenticated_activity = true; last_authenticated_ms = now })
    else some m

-- `now >= since ? now - since : 0`.
abbrev pub elapsed : ℕ → ℕ → ℕ
elapsed now since = if leb since now then now - since else 0

unfoldable pub tick : Bool → Option Machine → ℕ → Option Machine × Bool
tick taken none now = (none, false)
tick taken (some m) now =
    let inactive = elapsed now m.last_authenticated_ms in
    let absolute = elapsed now m.opened_ms in
    if not (state_lock m taken)
    then (some m, false)
    else if not (in_window m.state)
    then (some m, false)
    else if leb (u64 (m.inactivity_seconds * 1000)) inactive
        || leb (u64 (m.absolute_seconds * 1000)) absolute
    then (some (record m { state = operational }), false)
    else (some m, true)

unfoldable pub get_snapshot : Bool → Option Machine → Option Snapshot → Option Snapshot × Bool
get_snapshot taken none out = (out, false)
get_snapshot taken (some m) none = (none, false)
get_snapshot taken (some m) (some out) = if not (state_lock m taken) then (some out, false) else (
  some (record {
    state = m.state;
    configured = m.configured;
    maintenance_enabled = m.maintenance_enabled;
    authenticated_activity = m.authenticated_activity;
    opened_ms = m.opened_ms;
    last_authenticated_ms = m.last_authenticated_ms;
    inactivity_seconds = m.inactivity_seconds;
    absolute_seconds = m.absolute_seconds;
  }),
  true,
)

-- The phases are the values of the enumeration, so the `default` case is not reached.
unfoldable pub name : Phase → List ℕ
name boot = codes "boot"
name load_configuration = codes "load_configuration"
name unprovisioned = codes "unprovisioned"
name maintenance_window = codes "maintenance_window"
name operational = codes "operational"
name rollback = codes "rollback"
