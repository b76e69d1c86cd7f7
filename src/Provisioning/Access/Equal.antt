-- ===== src/Provisioning/Access/Equal.antt =====
-- The constant-time comparison decides equality.
use industrial_edge_monitor.Base.{
  ℕ, zero, suc, ◌+◌, ◌^◌, ◌<◌, ◌≡◌, ◌↔◌, ◌∙◌, ap₂, refl, sym, subst, true, some, arith, List, [],
  ◌∷◌, length, u32, bit_or, bit_xor, bit_or-zero_iff, bit_xor-zero_iff, bit_xor-lt, max, ==_iff,
  All,
}
use industrial_edge_monitor.Provisioning.Access.{byte_at, accumulate, constant_time_equal}

-- Every element of a C string is a byte.
abbrev pub IsBytes : List ℕ → Type 0
IsBytes = All (λ x. x < 2 ^ 8)

-- The strings have the same bytes at `n` indices from `index` on.
abbrev Agree : List ℕ → List ℕ → ℕ → ℕ → Type 0
Agree left right index zero = Unit {0}
Agree left right index (suc n) =
    (byte_at left index ≡ byte_at right index) × Agree left right (index + 1) n

accumulate-zero_iff :
    (left right : List ℕ) (rounds index difference : ℕ)
    → (accumulate left right index rounds difference ≡ 0)
      ↔ ((difference ≡ 0) × Agree left right index rounds)
unfolding accumulate
accumulate-zero_iff left right zero index difference = (λ h. (h, tt), λ h. h.0)
accumulate-zero_iff left right (suc rounds) index difference =
    let a = byte_at left index in
    let b = byte_at right index in
    let next =
      accumulate-zero_iff left right rounds (index + 1) (bit_or difference (bit_xor a b)) in
    let zeros = bit_or-zero_iff difference (bit_xor a b) in
    let same = bit_xor-zero_iff a b in
    (
      λ h. ((zeros.0 (next.0 h).0).0, (same.0 (zeros.0 (next.0 h).0).1, (next.0 h).1)),
      λ h. next.1 (zeros.1 (h.0, same.1 h.1.0), h.1.1),
    )

Agree-refl : (text : List ℕ) (index n : ℕ) → Agree text text index n
Agree-refl text index zero = tt
Agree-refl text index (suc n) = (refl, Agree-refl text (index + 1) n)

byte_at-suc : (x : ℕ) (xs : List ℕ) (i : ℕ) → byte_at (x ∷ xs) (suc i) ≡ byte_at xs i
byte_at-suc x xs i = ground arith

byte_at-zero : (x : ℕ) (xs : List ℕ) → x < 2 ^ 8 → byte_at (x ∷ xs) 0 ≡ x
byte_at-zero x xs h = ground arith

Agree-tail :
    (x y : ℕ) (left right : List ℕ) (index n : ℕ)
    → Agree (x ∷ left) (y ∷ right) (suc index) n
    → Agree left right index n
Agree-tail x y left right index zero h = tt
Agree-tail x y left right index (suc n) h =
    let e : suc index + 1 ≡ suc (index + 1) = omega arith in
    (
      sym (byte_at-suc x left index) ∙ h.0 ∙ byte_at-suc y right index,
      Agree-tail x y left right (index + 1) n (rw e at h.1),
    )

Agree-eq :
    (left right : List ℕ)
    → IsBytes left
    → IsBytes right
    → length left ≡ length right
    → Agree left right 0 (length left)
    → left ≡ right
Agree-eq [] [] p q e h = refl
Agree-eq [] (y ∷ ys) p q e h = absurd (omega arith)
Agree-eq (x ∷ xs) [] p q e h = absurd (omega arith)
Agree-eq (x ∷ xs) (y ∷ ys) p q e h =
    ap₂ ◌∷◌ (sym (byte_at-zero x xs p.0) ∙ h.0 ∙ byte_at-zero y ys q.0)
      (Agree-eq xs ys p.1 q.1 (omega arith) (Agree-tail x y xs ys 0 (length xs) h.1))

equal-zero_iff :
    (left right : List ℕ)
    → (constant_time_equal (some left) (some right) ≡ true) ↔ (
        (u32 (bit_xor (length left) (length right)) ≡ 0)
        × Agree left right 0 (max (length left) (length right)))
unfolding constant_time_equal
equal-zero_iff left right =
    let spec =
      accumulate-zero_iff left right (max (length left) (length right)) 0
        (u32 (bit_xor (length left) (length right))) in
    (λ h. spec.0 ((==_iff _ 0).0 h), λ h. (==_iff _ 0).1 (spec.1 h))

equal_refl : (text : List ℕ) → constant_time_equal (some text) (some text) ≡ true
equal_refl text =
    (equal-zero_iff text text).1
      (omega (arith, (bit_xor-zero_iff (length text) (length text)).1 refl), Agree-refl text 0 _)

eq_of_equal :
    (left right : List ℕ)
    → IsBytes left
    → IsBytes right
    → length left < 2 ^ 32
    → length right < 2 ^ 32
    → constant_time_equal (some left) (some right) ≡ true
    → left ≡ right
eq_of_equal left right p q small_left small_right h =
    let z = (equal-zero_iff left right).0 h in
    let same : length left ≡ length right =
      (bit_xor-zero_iff _ _).0
        (omega (arith, z.0, bit_xor-lt 32 (length left) (length right) small_left small_right)) in
    let rounds : max (length left) (length right) ≡ length left = omega arith in
    Agree-eq left right p q same (subst (Agree left right 0) rounds z.1)

-- The comparison, which reads both strings to the end of the longer one, returns true exactly on
-- two equal strings. The strings hold bytes and are shorter than 2 ^ 32.
pub constant_time_equal_iff :
    (left right : List ℕ)
    → IsBytes left
    → IsBytes right
    → length left < 2 ^ 32
    → length right < 2 ^ 32
    → (constant_time_equal (some left) (some right) ≡ true) ↔ (left ≡ right)
constant_time_equal_iff left right p q small_left small_right = (
  eq_of_equal left right p q small_left small_right,
  λ e. subst (λ r. constant_time_equal (some left) (some r) ≡ true) e (equal_refl left),
)
