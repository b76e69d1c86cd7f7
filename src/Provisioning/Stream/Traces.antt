-- ===== src/Provisioning/Stream/Traces.antt =====
-- What holds of the stream lifecycle over every sequence of calls between two resets.
use industrial_edge_monitor.Base.{
  ℕ, suc, ◌+◌, ◌-◌, ◌^◌, ◌≤◌, ◌<◌, ◌≡◌, ◌↔◌, ◌∙◌, inl, inr, Bool, true, false, Option, some, arith,
  ℤ, ◌||◌, List, [], ◌∷◌, length, ◌==◌, Bool-cases,
}
use industrial_edge_monitor.Provisioning.Stream.{
  Lifecycle, admit, worker_current, request_shutdown, stop_satisfied,
}
use industrial_edge_monitor.Provisioning.Stream.Invariant.{
  IsLifecycle, Call, admit_worker, attach, shutdown, finish, apply, apply-IsLifecycle,
}

abbrev pub run : Lifecycle → List Call → Lifecycle
run l [] = l
run l (c ∷ cs) = run (apply l c) cs

-- Generations that are left before the counter wraps.
abbrev pub Fits : ℕ → Lifecycle → Type 0
Fits calls l = l.next_worker_generation + calls < 2 ^ 64 - 1

pub apply-next :
    (l : Lifecycle) (c : Call)
    → l.next_worker_generation < 2 ^ 64 - 1
    → (apply l c).next_worker_generation ≤ l.next_worker_generation + 1
unfolding apply
apply-next l admit_worker small = ground arith
apply-next l (attach generation socket) small = ground arith
apply-next l (shutdown true) small = ground arith
apply-next l (shutdown false) small = ground arith
apply-next l (finish generation) small = ground arith

-- Whether the calls complete the worker of that generation.
abbrev pub finishes : ℕ → Call → Bool
finishes g (finish generation) = generation == g
finishes g _ = false

abbrev pub any_finishes : ℕ → List Call → Bool
any_finishes g [] = false
any_finishes g (c ∷ cs) = finishes g c || any_finishes g cs

IsWaiting : Lifecycle → ℕ → Type 0
IsWaiting l g = (l.active ≡ true) × (l.active_worker_generation ≡ g)

abbrev IsDone : Lifecycle → ℕ → Type 0
IsDone l g = (0 < g) × (g ≤ l.completed_worker_generation)

apply-IsWaiting :
    (l : Lifecycle) (c : Call) (g : ℕ)
    → IsWaiting l g
    → finishes g c ≡ false
    → IsWaiting (apply l c) g
unfolding apply IsWaiting
apply-IsWaiting l admit_worker g w h = ground arith
apply-IsWaiting l (attach generation socket) g w h = ground arith
apply-IsWaiting l (shutdown true) g w h = ground arith
apply-IsWaiting l (shutdown false) g w h = ground arith
apply-IsWaiting l (finish generation) g w h = ground arith

apply-finishes :
    (l : Lifecycle) (c : Call) (g : ℕ)
    → IsLifecycle l
    → IsWaiting l g
    → finishes g c ≡ true
    → IsDone (apply l c) g
unfolding apply IsWaiting
apply-finishes l admit_worker g ok w h = ground arith
apply-finishes l (attach generation socket) g ok w h = ground arith
apply-finishes l (shutdown stopping) g ok w h = ground arith
apply-finishes l (finish generation) g ok w h = ground arith

apply-IsDone :
    (l : Lifecycle) (c : Call) (g : ℕ) → IsLifecycle l → IsDone l g → IsDone (apply l c) g
unfolding apply
apply-IsDone l admit_worker g ok d = ground arith
apply-IsDone l (attach generation socket) g ok d = ground arith
apply-IsDone l (shutdown true) g ok d = ground arith
apply-IsDone l (shutdown false) g ok d = ground arith
apply-IsDone l (finish generation) g ok d = ground arith

stop_satisfied-IsDone :
    (l : Lifecycle) (g : ℕ) → IsLifecycle l → IsDone l g → stop_satisfied (some l) g ≡ true
unfolding stop_satisfied
stop_satisfied-IsDone l g ok d = ground arith

stop_satisfied-IsWaiting :
    (l : Lifecycle) (g : ℕ) → IsLifecycle l → IsWaiting l g → stop_satisfied (some l) g ≡ false
unfolding stop_satisfied IsWaiting
stop_satisfied-IsWaiting l g ok w = ground arith

run-IsDone :
    (cs : List Call) (l : Lifecycle) (g : ℕ)
    → IsLifecycle l
    → Fits (length cs) l
    → IsDone l g
    → stop_satisfied (some (run l cs)) g ≡ true
run-IsDone [] l g ok fits d = stop_satisfied-IsDone l g ok d
run-IsDone (c ∷ cs) l g ok fits d =
    run-IsDone cs (apply l c) g (apply-IsLifecycle l c ok (omega arith))
      (omega (arith, apply-next l c (omega arith))) (apply-IsDone l c g ok d)

run-IsWaiting :
    (cs : List Call) (l : Lifecycle) (g : ℕ)
    → IsLifecycle l
    → Fits (length cs) l
    → IsWaiting l g
    → stop_satisfied (some (run l cs)) g ≡ any_finishes g cs
run-IsWaiting [] l g ok fits w = stop_satisfied-IsWaiting l g ok w
run-IsWaiting (c ∷ cs) l g ok fits w = elim (Bool-cases (finishes g c)) [
  | inl ends ↦ run-IsDone cs (apply l c) g ok' fits' (apply-finishes l c g ok w ends) ∙ ground arith
  | inr stays ↦
      run-IsWaiting cs (apply l c) g ok' fits' (apply-IsWaiting l c g w stays) ∙ ground arith
]
  where
    ok' : IsLifecycle (apply l c)
    ok' = apply-IsLifecycle l c ok (omega arith)

    fits' : Fits (length cs) (apply l c)
    fits' = omega (arith, apply-next l c (omega arith))

request_shutdown-IsWaiting :
    (l : Lifecycle) (stopping : Bool) (out : Option ℤ)
    → l.active ≡ true
    → IsWaiting (apply l (shutdown stopping)) (request_shutdown (some l) stopping out).2
unfolding apply IsWaiting
request_shutdown-IsWaiting l true out on = ground arith
request_shutdown-IsWaiting l false out on = ground arith

-- A shutdown request returns the generation to wait for. Whatever admissions, attachments, shutdowns
-- and completions are called after it, in any number and order while the counter does not wrap, the
-- wait for that generation is satisfied exactly when one of the calls completed that very worker:
-- neither a completion under another generation nor a newer worker ends or revives it.
pub shutdown-stop_satisfied :
    (l : Lifecycle) (stopping : Bool) (out : Option ℤ) (cs : List Call)
    → IsLifecycle l
    → l.active ≡ true
    → Fits (suc (length cs)) l
    → let g = (request_shutdown (some l) stopping out).2 in
      stop_satisfied (some (run (apply l (shutdown stopping)) cs)) g ≡ any_finishes g cs
shutdown-stop_satisfied l stopping out cs ok on fits =
    run-IsWaiting cs (apply l (shutdown stopping)) _
      (apply-IsLifecycle l (shutdown stopping) ok (omega arith))
      (omega (arith, apply-next l (shutdown stopping) (omega arith)))
      (request_shutdown-IsWaiting l stopping out on)

-- An admission succeeds exactly when no worker is active and the service is not stopping. It then
-- hands out a generation above every earlier one, which becomes the active worker's and is current.
pub admit_fresh :
    (l : Lifecycle) (out : ℕ)
    → IsLifecycle l
    → l.next_worker_generation < 2 ^ 64 - 1
    → let (l', handed, admitted) = admit (some l) (some out) in
      ((admitted ≡ true) ↔ ((l.active ≡ false) × (l.service_stopping ≡ false)))
      × (admitted ≡ true
          → (handed ≡ some (l.next_worker_generation + 1))
            × (worker_current l' (l.next_worker_generation + 1) ≡ true)
            × (l.completed_worker_generation < l.next_worker_generation + 1))
unfolding admit worker_current
admit_fresh l out ok small = (ground arith, ground arith)
