-- ===== src/Provisioning/State/Window.antt =====
-- How long the maintenance window stays open.
use industrial_edge_monitor.Base.{
  ℕ, ◌+◌, ◌*◌, ◌^◌, ◌≤◌, ◌<◌, ◌≡◌, ◌≢◌, ◌⊎◌, ◌↔◌, Bool, true, false, Option, none, some, arith,
  ◌&&◌, not, if◌then◌else◌, List, [], ◌∷◌,
}
use industrial_edge_monitor.Provisioning.State.{
  Machine, maintenance_window, operational, in_window, configuration_loaded, authenticated_activity,
  tick,
}

-- What happens between two configurations: a clock tick or an authenticated request at a time, and
-- whether its call gets the mutex.
pub data Event : Type 0 where
  ticked active : Bool → ℕ → Event

abbrev pub or_self : Machine → Option Machine → Machine
or_self m none = m
or_self m (some m') = m'

unfoldable pub step : Machine → Event → Machine
unfolding tick authenticated_activity
step m (ticked taken now) = or_self m (tick taken (some m) now).0
step m (active taken now) = or_self m (authenticated_activity taken (some m) now)

abbrev pub run : Machine → List Event → Machine
run m [] = m
run m (e ∷ es) = run (step m e) es

-- A tick that gets the mutex keeps the window open exactly when it is open, the time since the
-- last authenticated request is below the inactivity limit and the time since the opening is below
-- the absolute limit. A window that is open and is not kept open makes the machine operational;
-- in every other case the machine is unchanged.
pub tick_lem :
    (m : Machine) (now : ℕ)
    → m.has_mutex ≡ true
    → m.inactivity_seconds < 2 ^ 32
    → m.absolute_seconds < 2 ^ 32
    → ((tick true (some m) now).1 ≡ true ↔ (
        (m.state ≡ maintenance_window)
        × (now < m.last_authenticated_ms + m.inactivity_seconds * 1000)
        × (now < m.opened_ms + m.absolute_seconds * 1000)
        × (0 < m.inactivity_seconds)
        × (0 < m.absolute_seconds)))
      × ((tick true (some m) now).0
          ≡ some (
              if in_window m.state && not (tick true (some m) now).1
              then record m { state = operational }
              else m))
unfolding tick
tick_lem m now mutex small_inactivity small_absolute = (ground arith, ground arith)

-- What events leave alone.
record Keeps (m m' : Machine) : Type 0 where
  same_mutex : m'.has_mutex ≡ m.has_mutex
  same_opened : m'.opened_ms ≡ m.opened_ms
  same_absolute : m'.absolute_seconds ≡ m.absolute_seconds
  same_inactivity : m'.inactivity_seconds ≡ m.inactivity_seconds
  stays_out : in_window m.state ≡ false → m'.state ≡ m.state
  window_or_operational :
      m.state ≡ maintenance_window → (m'.state ≡ maintenance_window) ⊎ (m'.state ≡ operational)

step-Keeps : (m : Machine) (e : Event) → Keeps m (step m e)
unfolding step
step-Keeps m (ticked taken now) = ground arith
step-Keeps m (active taken now) = ground arith

run-Keeps : (es : List Event) (m : Machine) → Keeps m (run m es)
run-Keeps [] m = ground arith
run-Keeps (e ∷ es) m = ground (arith, step-Keeps m e, run-Keeps es (step m e))

-- No authenticated activity extends the window past its absolute limit: whatever ticks and
-- requests came since it was opened, the first tick at or after the limit that gets the mutex
-- finds it closed or closes it, and answers that it is closed.
pub absolute_limit :
    (m : Machine) (es : List Event) (now : ℕ)
    → m.has_mutex ≡ true
    → m.state ≡ maintenance_window
    → m.absolute_seconds < 2 ^ 32
    → m.opened_ms + m.absolute_seconds * 1000 ≤ now
    → (step (run m es) (ticked true now)).state ≡ operational
      × ((tick true (some (run m es)) now).1 ≡ false)
unfolding step
absolute_limit m es now mutex opened small late = ground (arith, run-Keeps es m)

-- Outside the window no tick or request changes the state, so only a newly loaded configuration
-- opens it again, and does so exactly when it is valid and asks for maintenance.
pub reopened_by_configuration :
    (m : Machine) (es : List Event) (valid maintenance : Bool) (now inactivity absolute : ℕ)
    → m.has_mutex ≡ true
    → m.state ≢ maintenance_window
    → let m' = run m es in
      (m'.state ≡ m.state)
      × ((in_window
            (or_self m' (
              configuration_loaded true (some m') valid maintenance now inactivity absolute)).state)
          ≡ (valid && maintenance))
unfolding configuration_loaded
reopened_by_configuration m es valid maintenance now inactivity absolute mutex outside =
    ground (arith, run-Keeps es m)
