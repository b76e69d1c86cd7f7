-- ===== src/Provisioning/Service/Lockout.antt =====
-- How often a login with a wrong secret can be tried.
pub mod Responses
use industrial_edge_monitor.Base.{
  ℕ, suc, zero, ◌+◌, ◌*◌, ◌/◌, ◌^◌, ◌≤◌, ◌<◌, ◌≡◌, ◌⊎◌, inl, refl, ap, sym, ◌∙◌, subst, arith, Bool,
  true, false, not, List, [], ◌∷◌, EspErr, codes, bytes_eq, if◌then◌else◌, if_split, ltb, leb, u32,
}
use industrial_edge_monitor.Provisioning.Endpoint.{Abi}
use industrial_edge_monitor.Provisioning.Service.{
  Request, Http, Effect, set_status, Service, Act, ◌>>=◌, pure, get, modify, call, emit, now_ms,
}
use industrial_edge_monitor.Provisioning.Service.Laws.{Keeps, keeps_rules, core}
use industrial_edge_monitor.Provisioning.Service.Requests.{
  CJson, Received, complete, failed, out_of_fuel, receive_loop, request_arrived_on_softap,
  json_error, refuse_body, parse_received, receive_json,
}
use industrial_edge_monitor.Provisioning.Service.Opened.{accept_login-IsOpened}
use industrial_edge_monitor.Provisioning.Service.Sessions.{
  Limits, lock_login, count_failure, reject_login, judge_login, login, session_create_handler,
}
use industrial_edge_monitor.Provisioning.Service.Lockout.Responses.{
  Quiet, json_error-Quiet, now_ms-Quiet, receive_json-Quiet, refusals, softap-Quiet,
}

-- The failures so far leave room, or the lock lasts until `ends`. `base` is the number of refusals
-- before the guesses began.
abbrev Bounded : Limits → ℕ → ℕ → ℕ → ℕ → ℕ → Type 0
Bounded limits ends base count failures locked_until =
    (count ≤ base + failures) × (failures < limits.max_failures)
    ⊎ (ends ≤ locked_until) × (count ≤ base + limits.max_failures)

record InBudget {W : Type 0} (limits : Limits) (ends base : ℕ) (s : Service W) : Type 0 where
  bounded : Bounded limits ends base (refusals s.trace) s.login_failures s.login_locked_until_ms

module _ {W : Type 0} (limits : Limits) (ends base : ℕ) where
  Quiet-InBudget :
      {s s' : Service W}
      → InBudget limits ends base s
      → Quiet (core s) (refusals s.trace) s'
      → InBudget limits ends base s'
  Quiet-InBudget budget quiet =
      let failures = ap (λ c. c.login_failures) quiet.same in
      let locked = ap (λ c. c.login_locked_until_ms) quiet.same in
      record { bounded = ground (arith, budget.bounded, failures, locked, quiet.count) }

  module _ (http : Http) (small : limits.max_failures < 2 ^ 32)
      (lasts : (n : ℕ) → ends ≤ http.timer n / 1000 + limits.lockout_seconds * 1000) where
    count_failure-InBudget :
        (s : Service W)
        → (refusals s.trace ≤ base + s.login_failures) × (s.login_failures < limits.max_failures)
        → let counted = (count_failure http limits s).1 in
          Bounded limits ends base
            (refusals counted.trace + 1)
            counted.login_failures
            counted.login_locked_until_ms
    unfolding count_failure lock_login ◌>>=◌ get modify now_ms call pure
    count_failure-InBudget s room =
        if_split
          (λ (m : Act W (Unit {0})).
            Bounded limits ends base (refusals (m s).1.trace + 1) (m s).1.login_failures
              (m s).1.login_locked_until_ms)
          (not (leb limits.max_failures (u32 (s.login_failures + 1)))) (λ e. ground arith)
          (λ e. ground (arith, lasts s.calls))

    reject_login-InBudget :
        (request : Request) (s : Service W)
        → (refusals s.trace ≤ base + s.login_failures) × (s.login_failures < limits.max_failures)
        → InBudget limits ends base (reject_login http limits request s).1
    unfolding reject_login json_error ◌>>=◌ call emit pure
    reject_login-InBudget request s room =
        let counted = (count_failure http limits s).1 in
        record {
          bounded =
              subst
                (λ k.
                  Bounded limits ends base k counted.login_failures counted.login_locked_until_ms)
                (omega arith) (count_failure-InBudget s room);
        }

    judge_login-InBudget :
        (received valid : Bool) (request : Request) (s : Service W)
        → (judge_login http limits received valid request s).1.session_generation
          ≡ s.session_generation
        → InBudget limits ends base s
        → (refusals s.trace ≤ base + s.login_failures) × (s.login_failures < limits.max_failures)
        → InBudget limits ends base (judge_login http limits received valid request s).1
    unfolding judge_login pure
    judge_login-InBudget false valid request s same budget room = budget
    judge_login-InBudget true true request s same budget room =
        absurd ((accept_login-IsOpened http limits request s).fresh same)
    judge_login-InBudget true false request s same budget room =
        reject_login-InBudget request s room

    module _ (early : (n : ℕ) → http.timer n / 1000 < ends) where
      room_of :
          {s s' : Service W} {now : ℕ}
          → InBudget limits ends base s
          → Quiet (core s) (refusals s.trace) s'
          → now < ends
          → ltb now s.login_locked_until_ms ≡ false
          → (refusals s'.trace ≤ base + s'.login_failures)
            × (s'.login_failures < limits.max_failures)
      room_of budget quiet before unlocked =
          let failures = ap (λ c. c.login_failures) quiet.same in
          ground (arith, budget.bounded, failures, quiet.count)

      login-InBudget :
          {J : Type 0} (json : CJson J) (request : Request) (s : Service W)
          → (login http limits json request s).1.session_generation ≡ s.session_generation
          → InBudget limits ends base s
          → InBudget limits ends base (login http limits json request s).1
      unfolding login ◌>>=◌ get now_ms call pure
      login-InBudget json request s same budget =
          let timed = (now_ms http s).1 in
          let at_time : Quiet (core s) (refusals s.trace) timed =
            (now_ms-Quiet http).at s (record { same = refl; count = refl }) in
          let read = receive_json http json limits.max_body_bytes request timed in
          let quiet : Quiet (core s) (refusals s.trace) read.1 =
            (receive_json-Quiet json http limits.max_body_bytes request).at timed at_time in
          if_split
            (λ (m : Act W EspErr).
              (m timed).1.session_generation ≡ s.session_generation
              → InBudget limits ends base (m timed).1)
            (ltb (http.timer s.calls / 1000) s.login_locked_until_ms)
            (λ locked e.
              Quiet-InBudget budget ((json_error-Quiet http request _ _ refl).at timed at_time))
            (λ unlocked e.
              judge_login-InBudget _ _ request read.1
                (e ∙ sym (ap (λ c. c.session_generation) quiet.same)) (Quiet-InBudget budget quiet)
                (room_of budget quiet (early s.calls) unlocked))
            same

      handler-InBudget :
          {J : Type 0} (json : CJson J) (abi : Abi) (request : Request) (s : Service W)
          → (session_create_handler http limits json abi request s).1.session_generation
            ≡ s.session_generation
          → InBudget limits ends base s
          → InBudget limits ends base (session_create_handler http limits json abi request s).1
      unfolding session_create_handler ◌>>=◌
      handler-InBudget json abi request s same budget =
          let asked = request_arrived_on_softap http abi request s in
          let quiet : Quiet (core s) (refusals s.trace) asked.1 =
            (softap-Quiet http abi request).at s (record { same = refl; count = refl }) in
          if_split
            (λ (m : Act W EspErr).
              (m asked.1).1.session_generation ≡ s.session_generation
              → InBudget limits ends base (m asked.1).1)
            (not asked.0)
            (λ refused e.
              Quiet-InBudget budget ((json_error-Quiet http request _ _ refl).at asked.1 quiet))
            (λ passed e.
              login-InBudget json request asked.1
                (e ∙ sym (ap (λ c. c.session_generation) quiet.same)) (Quiet-InBudget budget quiet))
            same

module _ {W J : Type 0} (http : Http) (limits : Limits) (json : CJson J) (abi : Abi) where
  -- Requests to log in, one after the other, none of which is accepted: an accepted one changes the
  -- session's generation.
  pub data Guesses : Service W → Service W → Type 0 where
    done : {s : Service W} → Guesses s s
    again :
        {s s' : Service W} (request : Request)
        → (session_create_handler http limits json abi request s).1.session_generation
          ≡ s.session_generation
        → Guesses (session_create_handler http limits json abi request s).1 s'
        → Guesses s s'

  refusals-InBudget :
      (ends base : ℕ) {s s' : Service W}
      → limits.max_failures < 2 ^ 32
      → ((n : ℕ) → ends ≤ http.timer n / 1000 + limits.lockout_seconds * 1000)
      → ((n : ℕ) → http.timer n / 1000 < ends)
      → Guesses s s'
      → InBudget limits ends base s
      → InBudget limits ends base s'
  refusals-InBudget ends base small lasts early done budget = budget
  refusals-InBudget ends base small lasts early (again request same rest) budget =
      refusals-InBudget ends base small lasts early rest
        (handler-InBudget limits ends base http small lasts early json abi request _ same budget)

  -- Requests to log in that come one after the other and are not accepted, while every reading of
  -- the clock lies within one lockout period from `start` on: at most `max_failures` of them are
  -- answered by "401 Unauthorized", however many there are, where the count of failures is below
  -- `max_failures` at the start.
  pub refusals_bound :
      (start : ℕ) {s s' : Service W}
      → limits.max_failures < 2 ^ 32
      → ((n : ℕ) → start ≤ http.timer n / 1000)
      → ((n : ℕ) → http.timer n / 1000 < start + limits.lockout_seconds * 1000)
      → s.login_failures < limits.max_failures
      → Guesses s s'
      → refusals s'.trace ≤ refusals s.trace + limits.max_failures
  refusals_bound start {s} {s'} small late early room guesses =
      let ends = start + limits.lockout_seconds * 1000 in
      let budget =
        refusals-InBudget ends (refusals s.trace) small (λ n. omega (arith, late n)) early guesses
          (record { bounded = inl (omega arith, room) }) in
      ground (arith, budget.bounded)
