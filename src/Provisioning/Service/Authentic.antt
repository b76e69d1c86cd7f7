-- ===== src/Provisioning/Service/Authentic.antt =====
-- Which requests `authenticated` accepts.
use industrial_edge_monitor.Base.{
  ℕ, ◌+◌, ◌/◌, ◌≡◌, inl, inr, refl, ap, sym, subst, ◌≢◌, ◌∙◌, Bool, true, false, not, Option, none,
  some, List, pos, codes, is_ok, if_split, if◌then◌else◌, not-false, Option-cases,
}
use industrial_edge_monitor.Provisioning.Access.{session_authorized}
use industrial_edge_monitor.Provisioning.Endpoint.{Abi, authorize_socket, is_authorized}
use industrial_edge_monitor.Provisioning.Service.{
  Request, Http, Service, Act, ◌>>=◌, pure, get, call, now_ms, stream_lock, service_is_stopping,
}
use industrial_edge_monitor.Provisioning.Service.Requests.{cookie_token, request_arrived_on_softap}
use industrial_edge_monitor.Provisioning.Service.Access.{tokens_of}
use industrial_edge_monitor.Provisioning.Service.Cookie.{
  HasCookie, cookie_token-HasCookie, tokens_of-cookie,
}
use industrial_edge_monitor.Provisioning.Service.Access.{
  presented_tokens, check_session, authenticated,
}

if_else : (b : Bool) {c : Bool} → (if not b then true else c) ≡ false → c ≡ false
if_else true h = h
if_else false h = cc

guard_some :
    {A : Type 0} (b : Bool) {o : Option A} {a : A}
    → (if not b then none else o) ≡ some a
    → (b ≡ true) × (o ≡ some a)
guard_some true h = (refl, h)
guard_some false h = cc

abbrev tokens : Bool → Request → Option (List ℕ × Option (List ℕ))
tokens modifying request =
    tokens_of modifying (cookie_token request) (request.header (codes "X-CSRF-Token") 40)

-- Whether a request came in on the access point, by the calls from the n-th on.
abbrev pub softap_at : Http → Abi → Request → ℕ → Bool
softap_at http abi request n =
    let (ready, softap, netmask) = http.softap_ipv4 n in
    is_authorized
      (authorize_socket abi (http.getsockname (n + 1) request.socket) request.socket (is_ok ready)
        softap netmask).0

-- A request that may act with the session of generation `n`: the service is not being stopped, the
-- request came in on the address of the access point, its cookie holds the session's token, the
-- session has not expired and, if the request modifies, its CSRF header holds the session's token.
-- The answers are those of the calls that the code makes in order.
pub record IsAuthentic {W : Type 0} (http : Http) (abi : Abi) (modifying : Bool) (request : Request)
    (s : Service W) (n : ℕ) : Type 0 where
  pub has_mutex : s.has_mutex ≡ true
  pub not_stopping : s.stream.service_stopping ≡ false
  pub on_softap : softap_at http abi request (s.calls + 1) ≡ true
  pub cookie : List ℕ
  pub csrf : Option (List ℕ)
  pub presented :
      tokens_of modifying (cookie_token request) (request.header (codes "X-CSRF-Token") 40)
      ≡ some (cookie, csrf)
  pub named : HasCookie cookie (request.header (codes "Cookie") 160)
  pub session :
      session_authorized
        (some s.session_token)
        (some cookie)
        (some s.csrf_token)
        csrf
        (pos s.session_expires_ms)
        (pos (http.timer (s.calls + 1 + 1 + 1) / 1000))
        modifying
      ≡ true
  pub generation : n ≡ s.session_generation

module _ {W : Type 0} (http : Http) where
  abbrev one_call : Service W → Service W
  one_call s = record s { calls = s.calls + 1 }

  service_is_stopping-false :
      (s : Service W)
      → (service_is_stopping http s).0 ≡ false
      → (s.has_mutex ≡ true)
        × (s.stream.service_stopping ≡ false)
        × ((service_is_stopping http s).1 ≡ one_call s)
  unfolding service_is_stopping stream_lock ◌>>=◌ get pure call
  service_is_stopping-false s =
      if_split
        (λ (m : Act W Bool).
          (if not (m s).0 then true else (m s).1.stream.service_stopping) ≡ false
          → (s.has_mutex ≡ true) × (s.stream.service_stopping ≡ false) × ((m s).1 ≡ one_call s))
        (not s.has_mutex) (λ missing h. cc) (λ e h. (not-false _ e, if_else _ h, refl))

  module _ (abi : Abi) (modifying : Bool) (request : Request) where
    presented_lem :
        (s : Service W) (t : List ℕ × Option (List ℕ))
        → (presented_tokens http abi modifying request s).0 ≡ some t
        → (s.has_mutex ≡ true)
          × (s.stream.service_stopping ≡ false)
          × (softap_at http abi request (s.calls + 1) ≡ true)
          × (tokens modifying request ≡ some t)
          × ((presented_tokens http abi modifying request s).1 ≡ one_call (one_call (one_call s)))
    unfolding presented_tokens request_arrived_on_softap ◌>>=◌ pure call
    presented_lem s t =
        let asked = service_is_stopping http s in
        if_split
          (λ (m : Act W (Option (List ℕ × Option (List ℕ)))).
            (m asked.1).0 ≡ some t
            → (s.has_mutex ≡ true)
              × (s.stream.service_stopping ≡ false)
              × (softap_at http abi request (s.calls + 1) ≡ true)
              × (tokens modifying request ≡ some t)
              × ((m asked.1).1 ≡ one_call (one_call (one_call s))))
          asked.0 (λ e h. cc)
          (λ e h.
            let (mutex, running, same) = service_is_stopping-false s e in
            let calls : asked.1.calls ≡ s.calls + 1 = ap (λ t. t.calls) same in
            let (softap, presented) = guard_some (softap_at http abi request asked.1.calls) h in
            (
              mutex,
              running,
              ap (softap_at http abi request) (sym calls) ∙ softap,
              presented,
              ap (λ t. one_call (one_call t)) same,
            ))

  check_session_lem :
      (modifying : Bool) (cookie : List ℕ) (csrf : Option (List ℕ)) (s : Service W) (n : ℕ)
      → (check_session http modifying (some (cookie, csrf)) s).0 ≡ some n
      → (session_authorized
            (some s.session_token)
            (some cookie)
            (some s.csrf_token)
            csrf
            (pos s.session_expires_ms)
            (pos (http.timer s.calls / 1000))
            modifying
          ≡ true)
        × (n ≡ s.session_generation)
  unfolding check_session ◌>>=◌ get pure now_ms call
  check_session_lem modifying cookie csrf s n =
      let authorized =
        session_authorized (some s.session_token) (some cookie) (some s.csrf_token) csrf
          (pos s.session_expires_ms) (pos (http.timer s.calls / 1000)) modifying in
      if_split
        (λ (m : Act W (Option ℕ)).
          (m (one_call s)).0 ≡ some n → (authorized ≡ true) × (n ≡ s.session_generation))
        (not authorized) (λ e h. cc) (λ e h. (not-false _ e, cc))

  no_tokens :
      (modifying : Bool) (s : Service W) (n : ℕ) → (check_session http modifying none s).0 ≢ some n
  unfolding check_session pure
  no_tokens modifying s n = cc

  module _ (abi : Abi) (modifying : Bool) (request : Request) (s : Service W) (n : ℕ) where
    -- A request is authenticated only if the service is not being stopped, the request came in on
    -- the address of the access point, its cookie header has `IEM_SESSION=` and behind it, up to a
    -- `;`, a space or the end, the session's token of 32 bytes before the session expires and, where it modifies, its CSRF header holds the session's other token; what it is
    -- authenticated for is the generation of the current session.
    pub authenticated-IsAuthentic :
        (authenticated http abi modifying request s).0 ≡ some n
        → IsAuthentic http abi modifying request s n
    unfolding authenticated ◌>>=◌
    authenticated-IsAuthentic h =
        let presented = presented_tokens http abi modifying request s in
        elim (Option-cases presented.0) [
          | inl none_e ↦ absurd (
              no_tokens modifying presented.1 n
                (subst (λ o. (check_session http modifying o presented.1).0 ≡ some n) none_e h))
          | inr ((cookie, csrf), some_e) ↦
              let (mutex, running, softap, given, same) =
                presented_lem abi modifying request s (cookie, csrf) some_e in
              let h' =
                subst
                  (λ (t : Option (List ℕ × Option (List ℕ)) × Service W).
                    (check_session http modifying t.0 t.1).0 ≡ some n)
                  (λ i. (some_e i, same i)) h in
              let (session, generation) =
                check_session_lem modifying cookie csrf (one_call (one_call (one_call s))) n h' in
              record {
                has_mutex = mutex;
                not_stopping = running;
                on_softap = softap;
                cookie = cookie;
                csrf = csrf;
                presented = given;
                named = cookie_token-HasCookie request cookie (
                    tokens_of-cookie modifying (cookie_token request)
                      (request.header (codes "X-CSRF-Token") 40) cookie csrf given);
                session = session;
                generation = generation;
              }
        ]
