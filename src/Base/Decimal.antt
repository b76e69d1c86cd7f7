-- ===== src/Base/Decimal.antt =====
-- The number that decimal digits denote, with no bound.
use Prim.Native.Nat.{ℕ, zero, suc, ◌+◌, ◌-◌, ◌*◌, ◌/◌, ◌%◌, ◌≤◌}
use mathlib.Core.Bool.{Bool, true, ◌&&◌}
use mathlib.Core.List.{List, [], ◌∷◌, ◌++◌}
use native.Mathlib.Omega.{arith}
use industrial_edge_monitor.Base.Tests.{ltb, if◌then◌else◌}
use industrial_edge_monitor.Base.Text.{is_digit}
use industrial_edge_monitor.Base.Word.{ℤ, pos, negsuc}

-- After the digits that `acc` stands for.
abbrev pub decimal_from : ℕ → List ℕ → ℕ
decimal_from acc [] = acc
decimal_from acc (c ∷ cs) = decimal_from (acc * 10 + (c - b'0')) cs

abbrev pub decimal : List ℕ → ℕ
decimal = decimal_from 0

abbrev pub all_digits : List ℕ → Bool
all_digits [] = true
all_digits (c ∷ cs) = is_digit c && all_digits cs

pub le-decimal_from : (cs : List ℕ) (acc : ℕ) → acc ≤ decimal_from acc cs
le-decimal_from [] acc = omega arith
le-decimal_from (c ∷ cs) acc = omega (arith, le-decimal_from cs (acc * 10 + (c - b'0')))

-- `"%u"` of a number with at most `places` digits: the remainders by 10, the last one at the end.
abbrev pub digits_text : ℕ → ℕ → List ℕ
digits_text zero n = []
digits_text (suc places) n =
    let front = digits_text places (n / 10) in
    if ltb n 10 then (b'0' + n) ∷ [] else front ++ ((b'0' + n % 10) ∷ [])

-- A number of at most 64 bits has at most 20 digits.
abbrev pub decimal_text : ℕ → List ℕ
decimal_text n = digits_text 20 n

-- `"%d"`.
abbrev pub int_text : ℤ → List ℕ
int_text (pos n) = decimal_text n
int_text (negsuc n) = b'-' ∷ decimal_text (suc n)
