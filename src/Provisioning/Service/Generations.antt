-- ===== src/Provisioning/Service/Generations.antt =====
-- The stream generation that a login sends, and what a stream request that names it comes to.
use industrial_edge_monitor.Base.{
  ℕ, zero, suc, ◌+◌, ◌-◌, ◌*◌, ◌/◌, ◌%◌, ◌^◌, ◌<◌, ◌≡◌, ◌≢◌, refl, arith, true, some, List, [], ◌∷◌,
  ◌++◌, ltb, ℤ, if_split, is_digit, decimal_from, decimal, all_digits, digits_text, decimal_text,
  ltb→lt,
}
use industrial_edge_monitor.Provisioning.Access.{parse_stream_generation, stream_request_authorized}
use industrial_edge_monitor.Provisioning.Access.Session.{Before}
use industrial_edge_monitor.Provisioning.Access.Generation.{
  parse_stream_generation_iff, stream_request_authorized_iff,
}

decimal_from-snoc :
    (xs : List ℕ) (c acc : ℕ)
    → decimal_from acc (xs ++ (c ∷ [])) ≡ decimal_from acc xs * 10 + (c - b'0')
decimal_from-snoc [] c acc = refl
decimal_from-snoc (x ∷ xs) c acc = decimal_from-snoc xs c (acc * 10 + (x - b'0'))

all_digits-snoc :
    (xs : List ℕ) (c : ℕ)
    → all_digits xs ≡ true
    → is_digit c ≡ true
    → all_digits (xs ++ (c ∷ [])) ≡ true
all_digits-snoc [] c h d = rw d refl
all_digits-snoc (x ∷ xs) c h d = ground (arith, all_digits-snoc xs c)

snoc_nonempty : (xs : List ℕ) (c : ℕ) → xs ++ (c ∷ []) ≢ []
snoc_nonempty [] c = cc
snoc_nonempty (x ∷ xs) c = cc

-- The first number with more digits.
abbrev limit : ℕ → ℕ
limit zero = 1
limit (suc places) = 10 * limit places

record IsDecimal (n : ℕ) (text : List ℕ) : Type 0 where
  nonempty : text ≢ []
  digits : all_digits text ≡ true
  value : decimal text ≡ n

digit_lem : (d : ℕ) → d < 10 → (is_digit (b'0' + d) ≡ true) × ((b'0' + d) - b'0' ≡ d)
digit_lem d small = ground arith

one-IsDecimal : (n : ℕ) → n < 10 → IsDecimal n ((b'0' + n) ∷ [])
one-IsDecimal n small = record {
  nonempty = cc;
  digits = rw ((digit_lem n small).0) refl;
  value = omega (arith, (digit_lem n small).1);
}

snoc-IsDecimal :
    (n : ℕ) (front : List ℕ)
    → IsDecimal (n / 10) front
    → IsDecimal n (front ++ ((b'0' + n % 10) ∷ []))
snoc-IsDecimal n front h =
    let (digit, value) = digit_lem (n % 10) (omega arith) in
    record {
      nonempty = snoc_nonempty front _;
      digits = all_digits-snoc front _ h.digits digit;
      value = omega (arith, decimal_from-snoc front (b'0' + n % 10) 0, h.value, value);
    }

digits_text-IsDecimal :
    (places n : ℕ) → n < limit (suc places) → IsDecimal n (digits_text (suc places) n)
digits_text-IsDecimal zero n small =
    if_split (IsDecimal n) (ltb n 10) (λ e. one-IsDecimal n small) (λ e. absurd (ground arith))
digits_text-IsDecimal (suc places) n small =
    if_split (IsDecimal n) (ltb n 10) (λ e. one-IsDecimal n (ltb→lt n 10 e))
      (λ e. snoc-IsDecimal n _ (digits_text-IsDecimal places (n / 10) (omega arith)))

pub decimal-decimal_text : (n : ℕ) → n < 2 ^ 64 → decimal (decimal_text n) ≡ n
decimal-decimal_text n small = (digits_text-IsDecimal 19 n (omega arith)).value

-- A generation of 64 bits that is not 0, written in decimal as a login sends it, parses to itself;
-- so a stream request that sends it back is authorized until the session expires.
pub parse_stream_generation-decimal_text :
    (n : ℕ)
    → 0 < n
    → n < 2 ^ 64
    → (parse_stream_generation (some (decimal_text n)) true ≡ some n)
      × ((expires now : ℤ)
          → Before now expires
          → stream_request_authorized (some (decimal_text n)) n expires now ≡ true)
parse_stream_generation-decimal_text n positive small =
    let text = digits_text-IsDecimal 19 n (omega arith) in
    (
      (parse_stream_generation_iff (decimal_text n) n).1
          (text.nonempty, text.digits, text.value, positive, small),
      λ expires now before.
          (stream_request_authorized_iff (decimal_text n) n expires now small).1
            (positive, before, text.nonempty, text.digits, text.value),
    )
