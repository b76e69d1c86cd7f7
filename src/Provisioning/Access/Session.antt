-- ===== src/Provisioning/Access/Session.antt =====
-- When a request's session is authorized.
use industrial_edge_monitor.Base.{
  ℕ, ◌+◌, ◌^◌, ◌<◌, ◌≡◌, ◌↔◌, ◌≢◌, refl, Bool, true, false, Option, none, some, arith, List, [],
  ◌∷◌, length, ℤ, pos_part, neg_part,
}
use industrial_edge_monitor.Provisioning.Access.{
  constant_time_equal, csrf_matches, session_authorized, stream_session_valid,
}
use industrial_edge_monitor.Provisioning.Access.Equal.{IsBytes, constant_time_equal_iff}

-- A string that fits the device's memory.
abbrev pub IsText : List ℕ → Type 0
IsText text = IsBytes text × (length text < 2 ^ 32)

abbrev pub IsTextOrNull : Option (List ℕ) → Type 0
IsTextOrNull none = Unit {0}
IsTextOrNull (some text) = IsText text

-- `a` is before `b`.
abbrev pub Before : ℤ → ℤ → Type 0
Before a b = pos_part a + neg_part b < pos_part b + neg_part a

-- Two pointers that are not NULL and point to the same text.
abbrev pub SameText : Option (List ℕ) → Option (List ℕ) → Type 0
SameText none b = ⊥
SameText (some a) none = ⊥
SameText (some a) (some b) = a ≡ b

pub equal_iff :
    (a b : List ℕ) → IsText a → IsText b → (constant_time_equal (some a) (some b) ≡ true) ↔ (a ≡ b)
equal_iff a b p q = constant_time_equal_iff a b p.0 q.0 p.1 q.1

csrf_matches_iff :
    (stored request : Option (List ℕ))
    → IsTextOrNull stored
    → IsTextOrNull request
    → (csrf_matches stored request ≡ true) ↔ SameText stored request
unfolding csrf_matches
csrf_matches_iff none none p q = ground arith
csrf_matches_iff none (some r) p q = ground arith
csrf_matches_iff (some s) none p q = ground arith
csrf_matches_iff (some s) (some r) p q = equal_iff s r p q

-- A request is authorized exactly when it presents the stored session, which is neither NULL nor
-- empty, before its expiry and, if it modifies state, also the stored CSRF token, which is not NULL.
-- So a NULL pointer to either session, or to either token on a modifying request, is refused.
pub session_authorized_iff :
    (stored request stored_csrf request_csrf : Option (List ℕ)) (expires now : ℤ) (modifying : Bool)
    → IsTextOrNull stored
    → IsTextOrNull request
    → IsTextOrNull stored_csrf
    → IsTextOrNull request_csrf
    → (session_authorized stored request stored_csrf request_csrf expires now modifying ≡ true) ↔ (
        (stored ≢ some [])
        × Before now expires
        × SameText stored request
        × (modifying ≡ true → SameText stored_csrf request_csrf))
unfolding session_authorized
session_authorized_iff none request stored_csrf request_csrf expires now modifying p q r s =
    (λ e. cc, λ h. absurd h.2)
session_authorized_iff (some stored) none stored_csrf request_csrf expires now modifying p q r s =
    (λ e. cc, λ h. absurd h.2)
session_authorized_iff (some []) (some request) stored_csrf request_csrf expires now modifying p q r
      s =
    (λ e. cc, λ h. absurd (h.0 refl))
session_authorized_iff (some (c ∷ cs)) (some request) stored_csrf request_csrf expires now modifying
      p q r s =
    let filled : some (c ∷ cs) ≢ some [] = λ e. cc in
    ground
      (arith, filled, equal_iff (c ∷ cs) request p q, csrf_matches_iff stored_csrf request_csrf r s)

-- A stream stays valid exactly while neither the worker nor the service is being shut down, its
-- generation is the current one and not 0, and the session has not expired.
pub stream_session_valid_iff :
    (stream current : ℕ) (expires now : ℤ) (shutdown stopping : Bool)
    → (stream_session_valid stream current expires now shutdown stopping ≡ true) ↔ (
        (shutdown ≡ false)
        × (stopping ≡ false)
        × (0 < stream)
        × (stream ≡ current)
        × Before now expires)
unfolding stream_session_valid
stream_session_valid_iff stream current expires now shutdown stopping = ground arith
