-- ===== src/Provisioning/Service/Replaced.antt =====
-- What a login does to the session before it.
use industrial_edge_monitor.Base.{
  ℕ, ◌^◌, ◌<◌, ◌≡◌, ◌≢◌, ◌∙◌, refl, sym, arith, Bool, false, Option, some, List, [], ◌∷◌, All,
  subst, decimal_text, Bool-cases, inl, inr, length, ℤ,
}
use industrial_edge_monitor.Config.Store.Secret.{hex_text, length-hex_text}
use industrial_edge_monitor.Provisioning.Access.{
  constant_time_equal, session_authorized, stream_session_valid, stream_request_authorized,
}
use industrial_edge_monitor.Provisioning.Access.Equal.{IsBytes}
use industrial_edge_monitor.Provisioning.Access.Session.{IsText, equal_iff}
use industrial_edge_monitor.Provisioning.Access.Generation.{stream_request_authorized_iff}
use industrial_edge_monitor.Provisioning.Service.{Request, Http, Service, next_session}
use industrial_edge_monitor.Provisioning.Service.Sessions.{Limits, accept_login}
use industrial_edge_monitor.Provisioning.Service.Opened.{IsOpened, accept_login-IsOpened}
use industrial_edge_monitor.Provisioning.Service.Generations.{decimal-decimal_text}

-- `esp_fill_random` fills 16 bytes.
pub record IsRandom (http : Http) : Type 0 where
  pub bytes : (n : ℕ) → All (λ x. x < 2 ^ 8) (http.random n)
  pub size : (n : ℕ) → length (http.random n) ≡ 16

IsBytes-hex_text : (xs : List ℕ) → All (λ x. x < 2 ^ 8) xs → IsBytes (hex_text xs)
unfolding hex_text
IsBytes-hex_text [] bytes = tt
IsBytes-hex_text (x ∷ xs) (small, bytes) = (ground arith, (ground arith, IsBytes-hex_text xs bytes))

IsText-hex_text : {http : Http} → IsRandom http → (n : ℕ) → IsText (hex_text (http.random n))
IsText-hex_text {http} random n = (
  IsBytes-hex_text _ (random.bytes n),
  omega (arith, length-hex_text (http.random n), random.size n),
)

-- A session that takes the place of the one before: it is opened, and neither the cookie nor a
-- stream of the one before, nor a request for one, is accepted at any time.
pub record IsReplaced {W : Type 0} (http : Http) (limits : Limits) (before after : Service W)
    : Type 0 where
  pub opened : IsOpened http limits before after
  pub cookie :
      (csrf given : Option (List ℕ)) (expires now : ℤ) (modifying : Bool)
      → session_authorized
          (some after.session_token)
          (some before.session_token)
          csrf
          given
          expires
          now
          modifying
        ≡ false
  pub stream :
      (expires now : ℤ) (shutdown stopping : Bool)
      → stream_session_valid before.session_generation after.session_generation expires now shutdown
          stopping
        ≡ false
  pub stream_request :
      (expires now : ℤ)
      → stream_request_authorized
          (some (decimal_text before.session_generation))
          after.session_generation
          expires
          now
        ≡ false

cookie_refused :
    (stored given : List ℕ) (csrf given_csrf : Option (List ℕ)) (expires now : ℤ) (modifying : Bool)
    → constant_time_equal (some stored) (some given) ≡ false
    → session_authorized (some stored) (some given) csrf given_csrf expires now modifying ≡ false
unfolding session_authorized
cookie_refused [] given csrf given_csrf expires now modifying e = refl
cookie_refused (c ∷ cs) given csrf given_csrf expires now modifying e = ground arith

stream_refused :
    (stream current : ℕ) (expires now : ℤ) (shutdown stopping : Bool)
    → current ≢ stream
    → stream_session_valid stream current expires now shutdown stopping ≡ false
unfolding stream_session_valid
stream_refused stream current expires now shutdown stopping h = ground arith

request_refused :
    (n authenticated : ℕ) (expires now : ℤ)
    → n < 2 ^ 64
    → authenticated < 2 ^ 64
    → authenticated ≢ n
    → stream_request_authorized (some (decimal_text n)) authenticated expires now ≡ false
request_refused n authenticated expires now small fits other =
    elim (Bool-cases
      (stream_request_authorized (some (decimal_text n)) authenticated expires now)) [
        | inr e ↦ e
        | inl e ↦
            let (positive, before, filled, digits, value) =
              (stream_request_authorized_iff (decimal_text n) authenticated expires now fits).0 e in
            absurd (other (sym value ∙ decimal-decimal_text n small))
      ]

next_session_small : (n : ℕ) → next_session n < 2 ^ 64
next_session_small n = ground arith

-- Where the random generator fills 16 bytes and draws another token than the stored one, which is a
-- string of bytes, and the generation has 64 bits: after a login the session has the tokens of two
-- calls of the generator and expires `session_seconds` after the time that is read for it; its
-- generation is the next one, neither the one before nor 0. At no time does the new session accept
-- the cookie of the session before, a stream of it or a request for one with its generation.
pub accept_login-IsReplaced :
    {W : Type 0} (http : Http) (limits : Limits) (request : Request) (s : Service W)
    → IsRandom http
    → IsText s.session_token
    → s.session_generation < 2 ^ 64
    → hex_text (http.random s.calls) ≢ s.session_token
    → IsReplaced http limits s (accept_login http limits request s).1
accept_login-IsReplaced http limits request s random text small other =
    let opened = accept_login-IsOpened http limits request s in
    let after = (accept_login http limits request s).1 in
    let same = equal_iff _ s.session_token (IsText-hex_text random s.calls) text in
    let differs : constant_time_equal (some after.session_token) (some s.session_token) ≡ false =
      rw (opened.token) (ground (arith, same)) in
    record {
      opened = opened;
      cookie = λ csrf given expires now modifying.
          cookie_refused _ s.session_token csrf given expires now modifying differs;
      stream = λ expires now shutdown stopping.
          stream_refused _ _ expires now shutdown stopping opened.fresh;
      stream_request = λ expires now.
          request_refused _ _ expires now small
            (subst (λ n. n < 2 ^ 64) (sym opened.generation) (next_session_small _)) opened.fresh;
    }
