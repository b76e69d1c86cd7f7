-- ===== src/Provisioning/Service/Opened.antt =====
-- The session after a login.
use industrial_edge_monitor.Base.{
  ℕ, ◌+◌, ◌*◌, ◌/◌, ◌≡◌, ◌≢◌, ◌∙◌, refl, sym, arith, Bool, Option, none, some, List, ℤ,
}
use industrial_edge_monitor.Config.Store.Secret.{hex_text}
use industrial_edge_monitor.Provisioning.Stream.{Lifecycle}
use industrial_edge_monitor.Provisioning.Service.{
  Request, Value, Http, Effect, Service, ◌>>=◌, pure, get, modify, call, emit, now_ms, next_session,
  close_if, set_stream, stream_lock, request_stream_shutdown,
}
use industrial_edge_monitor.Provisioning.Service.Laws.{Keeps, keeps_rules}
use industrial_edge_monitor.Provisioning.Service.Requests.{json_error, send_json, send_printed}
use industrial_edge_monitor.Provisioning.Service.Access.{tell_machine, note_activity}
use industrial_edge_monitor.Provisioning.Service.Sessions.{
  Limits, open_session, answer_login, accept_login,
}

-- The four variables of the session are those of `c`.
pub record HasSession {W : Type 0} (c : Service W) (s : Service W) : Type 0 where
  pub token : s.session_token ≡ c.session_token
  pub csrf : s.csrf_token ≡ c.csrf_token
  pub expires : s.session_expires_ms ≡ c.session_expires_ms
  pub generation : s.session_generation ≡ c.session_generation

module _ {W : Type 0} {c : Service W} where
  call-HasSession : {A : Type 0} (answer : ℕ → A) → Keeps (HasSession c) (call answer)
  unfolding call
  call-HasSession answer = record {
    at = λ s h. record {
      token = h.token;
      csrf = h.csrf;
      expires = h.expires;
      generation = h.generation;
    };
  }

  emit-HasSession : (e : Effect) → Keeps (HasSession c) (emit e)
  unfolding emit
  emit-HasSession e = record {
    at = λ s h. record {
      token = h.token;
      csrf = h.csrf;
      expires = h.expires;
      generation = h.generation;
    };
  }

  module _ (http : Http) where
    tell_machine-HasSession :
        (taken : Bool) (now : ℕ) → Keeps (HasSession c) (tell_machine http taken now)
    unfolding tell_machine modify
    tell_machine-HasSession taken now = record {
      at = λ s h. record {
        token = h.token;
        csrf = h.csrf;
        expires = h.expires;
        generation = h.generation;
      };
    }

    set_stream-HasSession : (stream : Option Lifecycle) → Keeps (HasSession c) (set_stream stream)
    unfolding set_stream
    set_stream-HasSession stream = record {
      at = λ s h. record {
        token = h.token;
        csrf = h.csrf;
        expires = h.expires;
        generation = h.generation;
      };
    }

    now_ms-HasSession : Keeps (HasSession c) (now_ms http)
    unfolding now_ms
    now_ms-HasSession = search (keeps_rules, call-HasSession)

    note_activity-HasSession : Keeps (HasSession c) (note_activity http)
    unfolding note_activity
    note_activity-HasSession =
        search (keeps_rules, call-HasSession, tell_machine-HasSession, now_ms-HasSession)

    pub stream_lock-HasSession : Keeps (HasSession c) (stream_lock http)
    unfolding stream_lock
    stream_lock-HasSession = search (keeps_rules, call-HasSession)

    close_if-HasSession :
        (server : Bool) (socket : Option ℤ) → Keeps (HasSession c) (close_if http server socket)
    unfolding close_if
    close_if-HasSession server none = search keeps_rules
    close_if-HasSession server (some socket) = search (keeps_rules, emit-HasSession)

    pub shutdown-HasSession :
        (stopping : Bool) → Keeps (HasSession c) (request_stream_shutdown http stopping)
    unfolding request_stream_shutdown
    shutdown-HasSession stopping =
        search (keeps_rules, stream_lock-HasSession, set_stream-HasSession, close_if-HasSession)
          depth 9

    json_error-HasSession :
        (request : Request) (status message : List ℕ)
        → Keeps (HasSession c) (json_error http request status message)
    unfolding json_error
    json_error-HasSession request status message =
        search (keeps_rules, call-HasSession, emit-HasSession) depth 9

    send_printed-HasSession :
        (request : Request) (body : Option (List ℕ))
        → Keeps (HasSession c) (send_printed http request body)
    unfolding send_printed
    send_printed-HasSession request none = json_error-HasSession request _ _
    send_printed-HasSession request (some printed) =
        search (keeps_rules, call-HasSession, emit-HasSession)

    send_json-HasSession :
        (request : Request) (value : Value) → Keeps (HasSession c) (send_json http request value)
    unfolding send_json
    send_json-HasSession request value =
        search (keeps_rules, call-HasSession, emit-HasSession, send_printed-HasSession) depth 9

    answer_login-HasSession :
        (limits : Limits) (request : Request) (session csrf : List ℕ) (generation : ℕ)
        → Keeps (HasSession c) (answer_login http limits request session csrf generation)
    unfolding answer_login
    answer_login-HasSession limits request session csrf generation =
        search
          (
            keeps_rules, emit-HasSession, shutdown-HasSession, send_json-HasSession,
            note_activity-HasSession,
          )
          depth 9

next_session_fresh : (n : ℕ) → (next_session n ≢ n) × (next_session n ≢ 0)
next_session_fresh n = ground arith

-- What a login does to the session.
pub record IsOpened {W : Type 0} (http : Http) (limits : Limits) (before after : Service W)
    : Type 0 where
  pub token : after.session_token ≡ hex_text (http.random before.calls)
  pub csrf : after.csrf_token ≡ hex_text (http.random (before.calls + 1))
  pub expires :
      after.session_expires_ms
      ≡ http.timer (before.calls + 1 + 1) / 1000 + limits.session_seconds * 1000
  pub generation : after.session_generation ≡ next_session before.session_generation
  pub fresh : after.session_generation ≢ before.session_generation
  pub nonzero : after.session_generation ≢ 0

pub accept_login-IsOpened :
    {W : Type 0} (http : Http) (limits : Limits) (request : Request) (s : Service W)
    → IsOpened http limits s (accept_login http limits request s).1
unfolding accept_login open_session ◌>>=◌ call modify get now_ms pure
accept_login-IsOpened http limits request s =
    let session = hex_text (http.random s.calls) in
    let csrf = hex_text (http.random (s.calls + 1)) in
    let opened =
      open_session limits session csrf (http.timer (s.calls + 1 + 1) / 1000)
        (record s { calls = s.calls + 1 + 1 + 1 }) in
    let after : HasSession opened (accept_login http limits request s).1 =
      (answer_login-HasSession http limits request session csrf opened.session_generation).at opened
        (record { token = refl; csrf = refl; expires = refl; generation = refl }) in
    let generation : (accept_login http limits request s).1.session_generation
        ≡ next_session s.session_generation =
      after.generation in
    record {
      token = after.token;
      csrf = after.csrf;
      expires = after.expires;
      generation = generation;
      fresh = λ e. (next_session_fresh s.session_generation).0 (sym generation ∙ e);
      nonzero = λ e. (next_session_fresh s.session_generation).1 (sym generation ∙ e);
    }
