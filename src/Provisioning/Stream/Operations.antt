-- ===== src/Provisioning/Stream/Operations.antt =====
-- What holds of the stream lifecycle over every sequence of operations of the service, among them
-- the reset of the lifecycle when the service starts or has stopped.
use industrial_edge_monitor.Base.{
  ℕ, ◌+◌, ◌-◌, ◌^◌, ◌<◌, ◌≡◌, refl, Bool, true, false, ◌||◌, some, arith, ℤ, List, [], ◌∷◌, length,
  ap, ◌∙◌,
}
use industrial_edge_monitor.Provisioning.Stream.{
  Lifecycle, init, admit, attach_socket, worker_current,
}
use industrial_edge_monitor.Provisioning.Stream.Invariant.{
  IsLifecycle, Call, admit_worker, attach, shutdown, finish, or_self, apply, apply-IsLifecycle,
}
use industrial_edge_monitor.Provisioning.Stream.Traces.{Fits, apply-next}

-- A call between two resets, or `provisioning_stream_lifecycle_init`.
pub data Operation : Type 0 where
  on_worker : Call → Operation
  reset : Operation

unfoldable pub perform : Lifecycle → Operation → Lifecycle
unfolding apply init
perform l (on_worker call) = apply l call
perform l reset = or_self l (init (some l))

abbrev pub perform_all : Lifecycle → List Operation → Lifecycle
perform_all l [] = l
perform_all l (o ∷ os) = perform_all (perform l o) os

perform-IsLifecycle :
    (l : Lifecycle) (o : Operation)
    → IsLifecycle l
    → l.next_worker_generation < 2 ^ 64 - 1
    → IsLifecycle (perform l o)
unfolding perform
perform-IsLifecycle l (on_worker call) ok small = apply-IsLifecycle l call ok small
perform-IsLifecycle l reset ok small = ground arith

perform-next :
    (l : Lifecycle) (o : Operation) (later : ℕ)
    → l.next_worker_generation + (later + 1) < 2 ^ 64 - 1
    → (perform l o).next_worker_generation + later < 2 ^ 64 - 1
unfolding perform
perform-next l (on_worker call) later fits = omega (arith, apply-next l call (omega arith))
perform-next l reset later fits = omega arith

-- Every lifecycle that operations reach, resets among them, is well formed, while the generation
-- counter does not wrap.
pub perform_all-IsLifecycle :
    (os : List Operation) (l : Lifecycle)
    → IsLifecycle l
    → Fits (length os) l
    → IsLifecycle (perform_all l os)
perform_all-IsLifecycle [] l ok fits = ok
perform_all-IsLifecycle (o ∷ os) l ok fits =
    perform_all-IsLifecycle os (perform l o) (perform-IsLifecycle l o ok (omega arith))
      (perform-next l o (length os) (omega arith))

-- Whether the service is stopping after an operation and after operations, if it was `before`.
abbrev pub stopping_after : Operation → Bool → Bool
stopping_after (on_worker (shutdown stopping)) before = stopping || before
stopping_after (on_worker _) before = before
stopping_after reset before = false

abbrev pub is_stopping : List Operation → Bool → Bool
is_stopping [] before = before
is_stopping (o ∷ os) before = is_stopping os (stopping_after o before)

perform-service_stopping :
    (l : Lifecycle) (o : Operation)
    → (perform l o).service_stopping ≡ stopping_after o l.service_stopping
unfolding perform apply
perform-service_stopping l (on_worker admit_worker) = ground arith
perform-service_stopping l (on_worker (attach generation socket)) = ground arith
perform-service_stopping l (on_worker (shutdown true)) = ground arith
perform-service_stopping l (on_worker (shutdown false)) = ground arith
perform-service_stopping l (on_worker (finish generation)) = ground arith
perform-service_stopping l reset = ground arith

perform_all-service_stopping :
    (os : List Operation) (l : Lifecycle)
    → (perform_all l os).service_stopping ≡ is_stopping os l.service_stopping
perform_all-service_stopping [] l = refl
perform_all-service_stopping (o ∷ os) l =
    perform_all-service_stopping os (perform l o)
    ∙ ap (is_stopping os) (perform-service_stopping l o)

refused :
    (l : Lifecycle) (out g : ℕ) (socket : ℤ)
    → l.service_stopping ≡ true
    → (admit (some l) (some out) ≡ (some l, some out, false))
      × ((attach_socket (some l) g socket).1 ≡ false)
      × (worker_current (some l) g ≡ false)
unfolding admit attach_socket worker_current
refused l out g socket h = ground arith

-- After any operations among which a shutdown with `service_stopping` was requested and the
-- lifecycle was not reset since (or it was stopping before and never reset), it is stopping: every
-- admission is refused and changes nothing, no socket attachment is confirmed and no worker is
-- current.
pub stopping_absorbs :
    (os : List Operation) (l : Lifecycle) (out g : ℕ) (socket : ℤ)
    → is_stopping os l.service_stopping ≡ true
    → let l' = perform_all l os in
      (l'.service_stopping ≡ true)
      × (admit (some l') (some out) ≡ (some l', some out, false))
      × ((attach_socket (some l') g socket).1 ≡ false)
      × (worker_current (some l') g ≡ false)
stopping_absorbs os l out g socket h =
    let stopping = perform_all-service_stopping os l ∙ h in
    let (admission, attachment, current) = refused (perform_all l os) out g socket stopping in
    (stopping, admission, attachment, current)
