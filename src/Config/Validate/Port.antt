-- ===== src/Config/Validate/Port.antt =====
-- The port of a broker URI.
use industrial_edge_monitor.Base.{
  ℕ, ◌+◌, ◌-◌, ◌*◌, ◌≤◌, ◌<◌, ◌≡◌, ◌↔◌, true, arith, List, [], ◌∷◌, ◌&&◌, ltb, leb, decimal,
  decimal_from, all_digits, le-decimal_from,
}
use industrial_edge_monitor.Config.Validate.{valid_port_from, valid_port}

valid_port_from_lem :
    (text : List ℕ) (port : ℕ)
    → port ≤ 65535
    → valid_port_from port text
      ≡ (all_digits text && (ltb 0 (decimal_from port text) && leb (decimal_from port text) 65535))
unfolding valid_port_from
valid_port_from_lem [] port h = ground arith
valid_port_from_lem (c ∷ cs) port h = ground (
  arith,
  le-decimal_from cs (port * 10 + (c - b'0')),
  valid_port_from_lem cs (port * 10 + (c - b'0')),
)

-- A port text is accepted exactly when it is made of decimal digits that denote 1 to 65535.
pub valid_port_iff :
    (text : List ℕ)
    → (valid_port text ≡ true)
      ↔ ((all_digits text ≡ true) × (0 < decimal text) × (decimal text ≤ 65535))
unfolding valid_port
valid_port_iff [] = ground arith
valid_port_iff (c ∷ cs) = ground (arith, valid_port_from_lem (c ∷ cs) 0)
