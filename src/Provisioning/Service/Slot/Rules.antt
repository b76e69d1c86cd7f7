-- ===== src/Provisioning/Service/Slot/Rules.antt =====
-- The slot for the event-stream worker: what leaves it with its worker, and what it comes to.
use industrial_edge_monitor.Base.{
  ℕ, ◌≡◌, refl, arith, true, false, ==_iff, ℤ, Option, none, some, List, ◌∷◌,
}
use industrial_edge_monitor.Provisioning.Stream.{attach_socket, complete, Lifecycle}
use industrial_edge_monitor.Provisioning.Service.{
  Request, Http, Effect, start_worker, Service, call, emit, or_stream,
}
use industrial_edge_monitor.Provisioning.Service.Laws.{Keeps, keeps_rules}
use industrial_edge_monitor.Provisioning.Service.Requests.{json_error}
use industrial_edge_monitor.Provisioning.Service.Events.{StreamContext, complete_stream_context}

-- The slot belongs to the worker with that generation.
pub record Holds {W : Type 0} (generation : ℕ) (s : Service W) : Type 0 where
  pub mutex : s.has_mutex ≡ true
  pub active : s.stream.active ≡ true
  pub worker : s.stream.active_worker_generation ≡ generation

module _ {W : Type 0} {g : ℕ} where
  pub call-Holds : {A : Type 0} (answer : ℕ → A) → Keeps (Holds {W = W} g) (call answer)
  unfolding call
  call-Holds answer = record {
    at = λ s h. record { mutex = h.mutex; active = h.active; worker = h.worker };
  }

  pub emit-Holds : (e : Effect) → Keeps (Holds {W = W} g) (emit e)
  unfolding emit
  emit-Holds e = record {
    at = λ s h. record { mutex = h.mutex; active = h.active; worker = h.worker };
  }

  pub json_error-Holds :
      (http : Http) (request : Request) (status message : List ℕ)
      → Keeps (Holds {W = W} g) (json_error http request status message)
  unfolding json_error
  json_error-Holds http request status message =
      search (keeps_rules, call-Holds, emit-Holds) depth 9

  pub complete-Holds :
      (context : Option StreamContext) → Keeps (Holds {W = W} g) (complete_stream_context context)
  unfolding complete_stream_context
  complete-Holds none = search keeps_rules
  complete-Holds (some context) = search (keeps_rules, emit-Holds)

pub complete_lem :
    (g : ℕ) (l : Lifecycle)
    → l.active ≡ true
    → l.active_worker_generation ≡ g
    → (or_stream l (complete (some l) g).0).active ≡ false
unfolding complete
complete_lem g l active worker = rw (active, (==_iff _ _).1 worker) refl

pub attach_socket_lem :
    (l : Lifecycle) (g : ℕ) (socket : ℤ)
    → ((or_stream l (attach_socket (some l) g socket).0).active ≡ l.active)
      × ((or_stream l (attach_socket (some l) g socket).0).active_worker_generation
          ≡ l.active_worker_generation)
unfolding attach_socket
attach_socket_lem l g socket = ground arith

-- The slot is free, or the last thing that was done is to start the worker that holds it.
pub data Settled {W : Type 0} (authorized : ℕ) (s : Service W) : Type 0 where
  free : s.stream.active ≡ false → Settled authorized s
  started :
      (handle worker : ℕ) (rest : List Effect)
      → s.stream.active_worker_generation ≡ worker
      → s.trace ≡ start_worker handle authorized worker ∷ rest
      → Settled authorized s

-- The generation that is authorized is the current one.
abbrev pub IsCurrent : ℕ → Option ℕ → Type 0
IsCurrent current none = Unit {0}
IsCurrent current (some g) = g ≡ current
