-- ===== src/Base/Bits.antt =====
-- Bit operations at variables, from the digit recursion that they stand for: when `^` and `|` are
-- zero, and `|` of a low field and a shifted one.
use Prim.Native.Nat.{
  ℕ, zero, suc, ◌+◌, ◌*◌, ◌/◌, ◌%◌, ◌^◌, ◌≤◌, ◌<◌, max, digits, differ, bit_or, bit_xor,
  bit_or-bitwise, bit_xor-bitwise,
}
use mathlib.Core.Path.{◌≡◌, refl, ap, ◌∙◌}
use mathlib.Core.Logic.{◌↔◌, ◌⊎◌, inl, inr}
use native.Mathlib.Nat.{pow-suc}
use native.Mathlib.Omega.{arith}

digit-cases : (a : ℕ) → (a % 2 ≡ 0) ⊎ (a % 2 ≡ 1)
digit-cases a = omega arith

differ_iff : (x y : ℕ) → x ≡ 0 ⊎ (x ≡ 1) → y ≡ 0 ⊎ (y ≡ 1) → (differ x y ≡ 0) ↔ (x ≡ y)
differ_iff x y (inl p) (inl q) = rw (p, q) (λ h. refl, λ h. refl)
differ_iff x y (inl p) (inr q) = rw (p, q) (λ h. absurd (omega arith), λ h. absurd (omega arith))
differ_iff x y (inr p) (inl q) = rw (p, q) (λ h. absurd (omega arith), λ h. absurd (omega arith))
differ_iff x y (inr p) (inr q) = rw (p, q) (λ h. refl, λ h. refl)

xor_digits : (n a b : ℕ) → a ≤ n → (digits (λ y. y) differ n a b ≡ 0) ↔ (a ≡ b)
xor_digits zero a b h = ground arith
xor_digits (suc n) zero b h = ground arith
xor_digits (suc n) (suc a) b h = ground (
  arith,
  xor_digits n (suc a / 2) (b / 2) (omega arith),
  differ_iff (suc a % 2) (b % 2) (digit-cases (suc a)) (digit-cases b),
)

-- `a ^ b` is zero exactly when the numbers are equal.
pub bit_xor-zero_iff : (a b : ℕ) → (bit_xor a b ≡ 0) ↔ (a ≡ b)
bit_xor-zero_iff a b = rw bit_xor-bitwise (xor_digits a a b (omega arith))

or_digits : (n a b : ℕ) → a ≤ n → (digits (λ y. y) max n a b ≡ 0) ↔ ((a ≡ 0) × (b ≡ 0))
or_digits zero a b h = ground arith
or_digits (suc n) zero b h = ground arith
or_digits (suc n) (suc a) b h = ground (arith, or_digits n (suc a / 2) (b / 2) (omega arith))

-- `a | b` is zero exactly when both numbers are.
pub bit_or-zero_iff : (a b : ℕ) → (bit_or a b ≡ 0) ↔ ((a ≡ 0) × (b ≡ 0))
bit_or-zero_iff a b = rw bit_or-bitwise (or_digits a a b (omega arith))

-- Any fuel that covers the left number gives the digits of a sum, when the left number fits below
-- the shifted one.
or_field_digits :
    (k n a q : ℕ) → a ≤ n → a < 2 ^ k → digits (λ y. y) max n a (q * 2 ^ k) ≡ a + q * 2 ^ k
or_field_digits zero zero a q fuel fits = omega arith
or_field_digits zero (suc n) zero q fuel fits = omega arith
or_field_digits zero (suc n) (suc a) q fuel fits = absurd (omega arith)
or_field_digits (suc k) zero a q fuel fits = omega arith
or_field_digits (suc k) (suc n) zero q fuel fits = omega arith
or_field_digits (suc k) (suc n) (suc a) q fuel fits =
    let half : q * 2 ^ suc k / 2 ≡ q * 2 ^ k = omega (arith, shifted) in
    let low : suc a / 2 < 2 ^ k = omega (arith, pow-suc 2 k) in
    rw (half, or_field_digits k n (suc a / 2) q (omega arith) low) (omega (arith, shifted))
  where
    shifted : q * 2 ^ suc k ≡ 2 * (q * 2 ^ k)
    shifted = omega (arith, ap (λ (t : ℕ). q * t) (pow-suc 2 k))

-- `a | (q << k)` is a sum when `a` fits `k` bits.
pub bit_or_field : (k a q : ℕ) → a < 2 ^ k → bit_or a (q * 2 ^ k) ≡ a + q * 2 ^ k
bit_or_field k a q fits = bit_or-bitwise a (q * 2 ^ k) ∙ or_field_digits k a a q (omega arith) fits

differ-lt : (x y : ℕ) → x ≡ 0 ⊎ (x ≡ 1) → y ≡ 0 ⊎ (y ≡ 1) → differ x y < 2
differ-lt x y (inl p) (inl q) = rw (p, q) (omega arith)
differ-lt x y (inl p) (inr q) = rw (p, q) (omega arith)
differ-lt x y (inr p) (inl q) = rw (p, q) (omega arith)
differ-lt x y (inr p) (inr q) = rw (p, q) (omega arith)

xor_digits-lt : (k n a b : ℕ) → a ≤ n → a < 2 ^ k → b < 2 ^ k → digits (λ y. y) differ n a b < 2 ^ k
xor_digits-lt k zero a b fuel p q = q
xor_digits-lt k (suc n) zero b fuel p q = q
xor_digits-lt zero (suc n) (suc a) b fuel p q = absurd (omega arith)
xor_digits-lt (suc k) (suc n) (suc a) b fuel p q = omega (
  arith,
  pow-suc 2 k,
  xor_digits-lt k n (suc a / 2) (b / 2) (omega arith) (omega (arith, pow-suc 2 k))
      (omega (arith, pow-suc 2 k)),
  differ-lt (suc a % 2) (b % 2) (digit-cases (suc a)) (digit-cases b),
)

-- `a ^ b` has no more bits than the two numbers.
pub bit_xor-lt : (k a b : ℕ) → a < 2 ^ k → b < 2 ^ k → bit_xor a b < 2 ^ k
bit_xor-lt k a b p q = rw bit_xor-bitwise (xor_digits-lt k a a b (omega arith) p q)
