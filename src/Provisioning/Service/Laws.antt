-- ===== src/Provisioning/Service/Laws.antt =====
-- Properties that the functions of the service keep, one rule for each way to build a function.
use industrial_edge_monitor.Base.{ℕ, ◌≡◌, Bool, true, false, [], if◌then◌else◌}
use industrial_edge_monitor.Provisioning.State.{Machine, boot}
use industrial_edge_monitor.Provisioning.Service.{
  Http, Effect, Service, Act, ◌>>=◌, pure, get, modify, call, emit, now_ms,
}

-- `m` keeps `P`.
pub record Keeps {W A : Type 0} (P : Service W → Type 0) (m : Act W A) : Type 0 where
  pub at : (s : Service W) → P s → P (m s).1

module _ {W : Type 0} {P : Service W → Type 0} where
  pub Keeps-pure : {A : Type 0} (a : A) → Keeps P (pure a)
  unfolding pure
  Keeps-pure a = record { at = λ s h. h }

  pub Keeps-get : Keeps P get
  unfolding get
  Keeps-get = record { at = λ s h. h }

  pub Keeps-modify :
      (f : Service W → Service W) → ((s : Service W) → P s → P (f s)) → Keeps P (modify f)
  unfolding modify
  Keeps-modify f h = record { at = h }

  pub Keeps-if :
      {A : Type 0} (b : Bool) (m n : Act W A) → Keeps P m → Keeps P n → Keeps P (if b then m else n)
  Keeps-if true m n km kn = km
  Keeps-if false m n km kn = kn

  pub Keeps-bind :
      {A B : Type 0} (m : Act W A) (f : A → Act W B)
      → Keeps P m
      → ((a : A) → Keeps P (f a))
      → Keeps P (m >>= f)
  unfolding ◌>>=◌
  Keeps-bind m f km kf = record { at = λ s h. (kf (m s).0).at (m s).1 (km.at s h) }

pub ruleset keeps_rules = (Keeps-pure, Keeps-get, Keeps-if, Keeps-bind)

abbrev no_machine : Machine
no_machine = record {
  has_mutex = false;
  state = boot;
  configured = false;
  maintenance_enabled = false;
  authenticated_activity = false;
  opened_ms = 0;
  last_authenticated_ms = 0;
  inactivity_seconds = 0;
  absolute_seconds = 0;
}

-- The state without the count of calls, the trace and the machine that the service points to.
abbrev pub core : {W : Type 0} → Service W → Service W
core s = record s { calls = 0; trace = []; machine = no_machine }

pub record HasCore {W : Type 0} (c : Service W) (s : Service W) : Type 0 where
  pub same : core s ≡ c

module _ {W : Type 0} {c : Service W} where
  pub call-HasCore : {A : Type 0} (answer : ℕ → A) → Keeps (HasCore c) (call answer)
  unfolding call
  call-HasCore answer = record { at = λ s h. record { same = h.same } }

  pub emit-HasCore : (e : Effect) → Keeps (HasCore c) (emit e)
  unfolding emit
  emit-HasCore e = record { at = λ s h. record { same = h.same } }

  pub machine-HasCore :
      (f : Machine → Machine) → Keeps (HasCore c) (modify (λ s. record s { machine = f s.machine }))
  unfolding modify
  machine-HasCore f = record { at = λ s h. record { same = h.same } }

  pub now_ms-HasCore : (http : Http) → Keeps (HasCore c) (now_ms http)
  unfolding now_ms
  now_ms-HasCore http = search (keeps_rules, call-HasCore)
