-- ===== src/Provisioning/Service/Stopping.antt =====
-- Stopping the service: the wait for the event-stream worker ends, and what a stop that succeeds
-- leaves behind.
use industrial_edge_monitor.Base.{
  ℕ, zero, suc, ◌+◌, ◌*◌, ◌/◌, ◌≤◌, ◌<◌, ◌≡◌, ◌≢◌, refl, arith, Bool, true, false, ◌&&◌, not,
  Option, none, some, [], EspErr, esp_ok, is_ok, if_split, leb,
}
use industrial_edge_monitor.Provisioning.Stream.{stop_satisfied}
use industrial_edge_monitor.Provisioning.Service.{
  Http, Service, Act, ◌>>=◌, pure, get, modify, modify_then, call, wait, httpd_stop, now_ms, Login,
  login_of, stream_lock, session_clear, request_stream_shutdown,
}
use industrial_edge_monitor.Provisioning.Service.Opened.{HasSession, stream_lock-HasSession}
use industrial_edge_monitor.Provisioning.Service.Control.{
  Waited, stopped, timed_out, out_of_fuel, wait_loop, stopped_service, stop_http, after_wait,
  service_stop,
}

-- The clock reaches every time: `reach t` is a call from which on the timer shows at least `t`.
pub record IsClock (http : Http) : Type 0 where
  pub reach : ℕ → ℕ
  pub reached : (t n : ℕ) → reach t ≤ n → t ≤ http.timer n

module _ {W : Type 0} (http : Http) where
  stream_lock_calls : (s : Service W) → s.calls ≤ (stream_lock http s).1.calls
  unfolding stream_lock ◌>>=◌ get pure call
  stream_lock_calls s =
      if_split (λ (m : Act W Bool). s.calls ≤ (m s).1.calls) (not s.has_mutex) (λ e. omega arith)
        (λ e. omega arith)

  wait_loop_ends :
      (clock : IsClock http) (fuel generation deadline : ℕ) (s : Service W)
      → 0 < fuel
      → clock.reach (deadline * 1000) < s.calls + fuel
      → (wait_loop http fuel generation deadline s).0 ≢ out_of_fuel
  unfolding wait_loop ◌>>=◌ get pure now_ms call wait
  wait_loop_ends clock fuel zero deadline s positive enough = cc
  wait_loop_ends clock zero (suc generation) deadline s positive enough = absurd (omega arith)
  wait_loop_ends clock (suc fuel) (suc generation) deadline s positive enough =
      let locked = (stream_lock http s).1 in
      let later = stream_lock_calls s in
      if_split (λ (m : Act W Waited). (m locked).0 ≢ out_of_fuel)
        ((stream_lock http s).0 && stop_satisfied (some locked.stream) (suc generation)) (λ e. cc)
        (λ e.
          if_split
            (λ (m : Act W Waited). (m (record locked { calls = locked.calls + 1 })).0 ≢ out_of_fuel)
            (leb deadline (http.timer locked.calls / 1000)) (λ late. cc)
            (λ early.
              let before : locked.calls < clock.reach (deadline * 1000) =
                ground (arith, clock.reached (deadline * 1000) locked.calls) in
              wait_loop_ends clock fuel (suc generation) deadline _ (omega arith) (omega arith)))

  after_wait_some :
      (waited : Waited) (s : Service W) → waited ≢ out_of_fuel → (after_wait http waited s).0 ≢ none
  unfolding after_wait modify_then ◌>>=◌ pure
  after_wait_some stopped s ended = cc
  after_wait_some timed_out s ended = cc
  after_wait_some out_of_fuel s ended = absurd (ended refl)

  -- What `provisioning_service_stop` does once it waits.
  abbrev requested : Service W → ℕ × Service W
  requested s = request_stream_shutdown http true (record s { stop_in_progress = true })

  -- Where the clock reaches every time, stopping the service ends: with enough fuel there is a
  -- result, whatever the worker does.
  pub service_stop_ends :
      (clock : IsClock http) (s : Service W) → (fuel : ℕ) × ((service_stop http fuel s).0 ≢ none)
  unfolding service_stop ◌>>=◌ get pure modify now_ms call
  service_stop_ends clock s =
      let asked = requested s in
      let deadline = http.timer asked.1.calls / 1000 + 4000 in
      let fuel = suc (clock.reach (deadline * 1000)) in
      (
        fuel,
        if_split (λ (m : Act W (Option EspErr)). (m s).0 ≢ none) s.stop_in_progress (λ e. cc)
            (λ e.
              if_split (λ (m : Act W (Option EspErr)). (m s).0 ≢ none) (not s.server) (λ e. cc)
                (λ e. after_wait_some _ _ (
                  wait_loop_ends clock fuel asked.0 deadline
                    (record (asked.1) { calls = asked.1.calls + 1 }) (omega arith) (omega arith)))),
      )

-- The variables of the session after `session_clear`.
pub record IsCleared (l : Login) : Type 0 where
  pub token : l.session_token ≡ []
  pub csrf : l.csrf_token ≡ []
  pub expired : l.session_expires_ms ≡ 0

-- The session is what the handlers that run until `httpd_stop` returns, at one call, make of a
-- cleared one.
pub record IsLeft {W : Type 0} (http : Http) (s : Service W) : Type 0 where
  pub at_call : ℕ
  pub before : Login
  pub cleared : IsCleared before
  pub token : s.session_token ≡ (http.others_login at_call before).session_token
  pub csrf : s.csrf_token ≡ (http.others_login at_call before).csrf_token
  pub expires : s.session_expires_ms ≡ (http.others_login at_call before).session_expires_ms
  pub generation : s.session_generation ≡ (http.others_login at_call before).session_generation

-- A service that is stopped: no server and no pointers, and it can be started again. Its session is
-- the one that was left.
pub record IsStopped {W : Type 0} (http : Http) (s : Service W) : Type 0 where
  pub no_server : s.server ≡ false
  pub left : IsLeft http s
  pub no_configuration : s.configuration ≡ none
  pub no_secret : s.setup_secret ≡ none
  pub no_machine : s.has_machine ≡ false
  pub no_failures : (s.login_failures ≡ 0) × (s.login_locked_until_ms ≡ 0)
  pub not_stopping : s.stop_in_progress ≡ false

stopped_service-IsStopped :
    {W : Type 0} (http : Http) (locked : Bool) (s : Service W)
    → IsLeft http s
    → IsStopped http (stopped_service locked s)
unfolding stopped_service
stopped_service-IsStopped http true s left = record {
  no_server = refl;
  left = record {
    at_call = left.at_call;
    before = left.before;
    cleared = left.cleared;
    token = left.token;
    csrf = left.csrf;
    expires = left.expires;
    generation = left.generation;
  };
  no_configuration = refl;
  no_secret = refl;
  no_machine = refl;
  no_failures = (refl, refl);
  not_stopping = refl;
}
stopped_service-IsStopped http false s left = record {
  no_server = refl;
  left = record {
    at_call = left.at_call;
    before = left.before;
    cleared = left.cleared;
    token = left.token;
    csrf = left.csrf;
    expires = left.expires;
    generation = left.generation;
  };
  no_configuration = refl;
  no_secret = refl;
  no_machine = refl;
  no_failures = (refl, refl);
  not_stopping = refl;
}

not_ok : (result : EspErr) → not (is_ok result) ≡ true → result ≢ esp_ok
not_ok result h = ground arith

module _ {W : Type 0} (http : Http) where
  abbrev StopResult : EspErr × Service W → Type 0
  StopResult (result, s) = result ≡ esp_ok → IsStopped http s

  stop_http-IsStopped : (s : Service W) → StopResult (stop_http http s)
  unfolding stop_http session_clear modify modify_then httpd_stop ◌>>=◌ pure
  stop_http-IsStopped s =
      let cleared = (session_clear http s).1 in
      let ended = (httpd_stop http cleared).1 in
      let kept : HasSession ended (stream_lock http ended).1 =
        (stream_lock-HasSession http).at ended
          (record { token = refl; csrf = refl; expires = refl; generation = refl }) in
      if_split (λ (m : Act W EspErr). StopResult (m ended)) (not (is_ok (http.server_stop s.calls)))
        (λ failing e. absurd (not_ok _ failing e))
        (λ stopped e. stopped_service-IsStopped http _ _ (record {
          at_call = s.calls;
          before = login_of cleared;
          cleared = record { token = refl; csrf = refl; expired = refl };
          token = kept.token;
          csrf = kept.csrf;
          expires = kept.expires;
          generation = kept.generation;
        }))

  abbrev AfterWait : Option EspErr × Service W → Type 0
  AfterWait (result, s) = result ≡ some esp_ok → IsStopped http s

  after_wait-IsStopped : (waited : Waited) (s : Service W) → AfterWait (after_wait http waited s)
  unfolding after_wait modify_then ◌>>=◌ pure
  after_wait-IsStopped stopped s e = stop_http-IsStopped s (cc)
  after_wait-IsStopped timed_out s e = cc
  after_wait-IsStopped out_of_fuel s e = cc

  -- A stop of a running service that returns ESP_OK, whatever other tasks do to the stream, the log,
  -- the machine, the session and the lock of the login while it blocks, leaves no server, none of
  -- the three pointers, no count of failed logins and no lock. The session is cleared before
  -- `httpd_stop`, not behind it: what the handlers that still run in it make of the cleared session
  -- is left, so a login among them leaves its session.
  pub service_stop-IsStopped :
      (fuel : ℕ) (s : Service W)
      → s.server ≡ true
      → (service_stop http fuel s).0 ≡ some esp_ok
      → IsStopped http (service_stop http fuel s).1
  unfolding service_stop ◌>>=◌ get pure
  service_stop-IsStopped fuel s running =
      if_split (λ (m : Act W (Option EspErr)). AfterWait (m s)) s.stop_in_progress (λ e r. cc)
        (λ e.
          if_split (λ (m : Act W (Option EspErr)). AfterWait (m s)) (not s.server) (λ e r. cc)
            (λ e. after_wait-IsStopped _ _))
