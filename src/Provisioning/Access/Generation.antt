-- ===== src/Provisioning/Access/Generation.antt =====
-- The stream generation in a request's query: parsing a decimal 64-bit number.
use industrial_edge_monitor.Base.{
  ℕ, ◌+◌, ◌-◌, ◌*◌, ◌^◌, ◌<◌, ◌≡◌, ◌↔◌, ◌≢◌, true, none, some, arith, List, [], ◌∷◌, ◌&&◌,
  if◌then◌else◌, ℤ, ltb, decimal_from, decimal, all_digits, le-decimal_from,
}
use industrial_edge_monitor.Provisioning.Access.{
  parse_digits, parse_stream_generation, stream_request_authorized,
}
use industrial_edge_monitor.Provisioning.Access.Session.{Before}

parse_digits_lem :
    (cs : List ℕ) (acc : ℕ)
    → acc < 2 ^ 64
    → parse_digits cs acc ≡ (
        if all_digits cs && ltb (decimal_from acc cs) (2 ^ 64)
        then some (decimal_from acc cs)
        else none)
unfolding parse_digits
parse_digits_lem [] acc h = ground arith
parse_digits_lem (c ∷ cs) acc h =
    ground (
      arith,
      le-decimal_from cs (acc * 10 + (c - b'0')),
      parse_digits_lem cs (acc * 10 + (c - b'0')),
    )

-- Parsing a generation yields `n` exactly when the text is not empty, has only decimal digits and
-- denotes `n`, which is not 0 and fits 64 bits: no accepted text is truncated or wrapped, and no
-- text in that range is refused.
pub parse_stream_generation_iff :
    (text : List ℕ) (n : ℕ)
    → (parse_stream_generation (some text) true ≡ some n)
      ↔ ((text ≢ []) × (all_digits text ≡ true) × (decimal text ≡ n) × (0 < n) × (n < 2 ^ 64))
unfolding parse_stream_generation
parse_stream_generation_iff [] n = ground arith
parse_stream_generation_iff (c ∷ cs) n = ground (arith, parse_digits_lem (c ∷ cs) 0)

-- A stream request is authorized exactly when it names, in decimal, the generation of the
-- authenticated session, which is not 0 and fits 64 bits, before the session expires.
pub stream_request_authorized_iff :
    (text : List ℕ) (authenticated : ℕ) (expires now : ℤ)
    → authenticated < 2 ^ 64
    → (stream_request_authorized (some text) authenticated expires now ≡ true) ↔ (
        (0 < authenticated)
        × Before now expires
        × (text ≢ [])
        × (all_digits text ≡ true)
        × (decimal text ≡ authenticated))
unfolding stream_request_authorized
stream_request_authorized_iff [] authenticated expires now fits = ground arith
stream_request_authorized_iff (c ∷ cs) authenticated expires now fits =
    ground (arith, parse_digits_lem (c ∷ cs) 0)
