-- ===== src/Provisioning/Stream.antt =====
-- The event-stream worker's lifecycle: the second half of
-- firmware/components/provisioning_service/provisioning_security.c, and the one-shot completion
-- flag of an asynchronous request. A pointer argument is an `Option`, `none` being NULL; a
-- function returns what its pointers refer to afterwards.
pub mod Invariant
pub mod Traces
pub mod Operations
use industrial_edge_monitor.Base.{
  ℕ, ◌+◌, Bool, true, false, ◌&&◌, ◌||◌, not, Option, none, some, leb, ◌==◌, if◌then◌else◌, u64, ℤ,
  pos, negsuc, is_negative,
}

pub record AsyncLifecycle : Type 0 where
  pub completed : Bool

unfoldable pub mark_complete : Option AsyncLifecycle → Option AsyncLifecycle × Bool
mark_complete none = (none, false)
mark_complete (some l) =
    if l.completed then (some l, false) else (some (record l { completed = true }), true)

pub record Lifecycle : Type 0 where
  pub next_worker_generation : ℕ
  pub active_worker_generation : ℕ
  pub completed_worker_generation : ℕ
  pub active_socket : ℤ
  pub active : Bool
  pub shutdown_requested : Bool
  pub service_stopping : Bool

-- -1, the socket of no worker.
abbrev pub no_socket : ℤ
no_socket = negsuc 0

unfoldable pub init : Option Lifecycle → Option Lifecycle
init none = none
init (some l) = some (record {
  next_worker_generation = 0;
  active_worker_generation = 0;
  completed_worker_generation = 0;
  active_socket = no_socket;
  active = false;
  shutdown_requested = false;
  service_stopping = false;
})

-- `next_worker_generation++`, which skips 0 where it wraps.
unfoldable pub next_generation : ℕ → ℕ
next_generation n = if u64 (n + 1) == 0 then 1 else u64 (n + 1)

-- The lifecycle, the caller's `worker_generation` and the result.
unfoldable pub admit : Option Lifecycle → Option ℕ → Option Lifecycle × Option ℕ × Bool
unfolding next_generation
admit none out = (none, out, false)
admit (some l) none = (some l, none, false)
admit (some l) (some out) =
    let generation = next_generation l.next_worker_generation in
    if l.active || l.service_stopping then (some l, some out, false) else (
      some (record l {
        next_worker_generation = generation;
        active_worker_generation = generation;
        active_socket = no_socket;
        active = true;
        shutdown_requested = false;
      }),
      some generation,
      true,
    )

unfoldable pub attach_socket : Option Lifecycle → ℕ → ℤ → Option Lifecycle × Bool
attach_socket none generation socket = (none, false)
attach_socket (some l) generation socket =
    if is_negative socket || (not l.active || not (l.active_worker_generation == generation))
    then (some l, false)
    else (
      some (record l { active_socket = socket }),
      not l.shutdown_requested && not l.service_stopping,
    )

unfoldable pub worker_current : Option Lifecycle → ℕ → Bool
worker_current none generation = false
worker_current (some l) generation =
    l.active
    && (l.active_worker_generation == generation
        && (not l.shutdown_requested && not l.service_stopping))

-- The flag is set before the test of `active`.
abbrev pub note_stopping : Bool → Lifecycle → Lifecycle
note_stopping true l = record l { service_stopping = true }
note_stopping false l = l

-- `some` if the pointer to the socket is not NULL: what it then refers to.
abbrev pub store_socket : Option ℤ → ℤ → Option ℤ
store_socket none socket = none
store_socket (some _) socket = some socket

-- The lifecycle, the caller's `socket_fd` and the generation to wait for, 0 for none.
unfoldable pub request_shutdown :
    Option Lifecycle → Bool → Option ℤ → Option Lifecycle × Option ℤ × ℕ
request_shutdown none stopping out = (none, store_socket out no_socket, 0)
request_shutdown (some l) stopping out =
    let l' = note_stopping stopping l in
    if not l'.active then (some l', store_socket out no_socket, 0) else (
      some (record l' { shutdown_requested = true }),
      store_socket out l'.active_socket,
      l'.active_worker_generation,
    )

unfoldable pub complete : Option Lifecycle → ℕ → Option Lifecycle × Bool
complete none generation = (none, false)
complete (some l) generation =
    if not l.active || not (l.active_worker_generation == generation) then (some l, false) else (
      some (record l {
        completed_worker_generation = generation;
        active_worker_generation = 0;
        active_socket = no_socket;
        active = false;
        shutdown_requested = false;
      }),
      true,
    )

unfoldable pub stop_satisfied : Option Lifecycle → ℕ → Bool
stop_satisfied none generation = true
stop_satisfied (some l) generation =
    if generation == 0
    then true
    else leb generation l.completed_worker_generation
      && (not l.active || not (l.active_worker_generation == generation))
