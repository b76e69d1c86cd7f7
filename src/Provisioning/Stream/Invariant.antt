-- ===== src/Provisioning/Stream/Invariant.antt =====
-- What holds of the stream lifecycle between two calls.
use industrial_edge_monitor.Base.{
  ℕ, ◌-◌, ◌^◌, ◌≤◌, ◌<◌, ◌≡◌, Bool, true, false, Option, none, some, arith, ℤ,
}
use industrial_edge_monitor.Provisioning.Stream.{
  Lifecycle, no_socket, admit, attach_socket, request_shutdown, complete,
}

-- A worker is active exactly when its generation is not 0; it is then the newest one, and all
-- completed ones are older. Without a worker there is no socket and no pending shutdown.
pub record IsLifecycle (l : Lifecycle) : Type 0 where
  pub newest : l.active ≡ true → l.active_worker_generation ≡ l.next_worker_generation
  pub numbered : l.active ≡ true → 0 < l.active_worker_generation
  pub older : l.active ≡ true → l.completed_worker_generation < l.active_worker_generation
  pub idle : l.active ≡ false → l.active_worker_generation ≡ 0
  pub idle_socket : l.active ≡ false → l.active_socket ≡ no_socket
  pub idle_shutdown : l.active ≡ false → l.shutdown_requested ≡ false
  pub completed_known : l.completed_worker_generation ≤ l.next_worker_generation

-- A call on the lifecycle between two resets of it; `Operations` adds the reset.
pub data Call : Type 0 where
  admit_worker : Call
  attach : ℕ → ℤ → Call
  shutdown : Bool → Call
  finish : ℕ → Call

abbrev pub or_self : Lifecycle → Option Lifecycle → Lifecycle
or_self l none = l
or_self l (some l') = l'

-- The lifecycle after a call with pointers that are not NULL.
unfoldable pub apply : Lifecycle → Call → Lifecycle
unfolding admit attach_socket request_shutdown complete
apply l admit_worker = or_self l (admit (some l) (some 0)).0
apply l (attach generation socket) = or_self l (attach_socket (some l) generation socket).0
apply l (shutdown stopping) = or_self l (request_shutdown (some l) stopping (some no_socket)).0
apply l (finish generation) = or_self l (complete (some l) generation).0

-- A call keeps the lifecycle well formed while the generation counter does not wrap.
pub apply-IsLifecycle :
    (l : Lifecycle) (c : Call)
    → IsLifecycle l
    → l.next_worker_generation < 2 ^ 64 - 1
    → IsLifecycle (apply l c)
unfolding apply
apply-IsLifecycle l admit_worker ok small = ground arith
apply-IsLifecycle l (attach generation socket) ok small = ground arith
apply-IsLifecycle l (shutdown true) ok small = ground arith
apply-IsLifecycle l (shutdown false) ok small = ground arith
apply-IsLifecycle l (finish generation) ok small = ground arith
