-- ===== src/Diagnostic/Ring/Window.antt =====
-- A window of `n` slots of the ring array, read from any slot number modulo the capacity.
use industrial_edge_monitor.Base.{
  ℕ, zero, suc, ◌+◌, ◌%◌, ◌≤◌, ◌<◌, ◌≡◌, refl, ap, ap₂, ◌∙◌, sym, List, [], ◌∷◌, ◌++◌, arith,
  get_or, set, length, get_or-set_ne,
}
use industrial_edge_monitor.Diagnostic.Ring.{LogRecord, zero_record, capacity}

abbrev pub slot : List LogRecord → ℕ → LogRecord
slot records s = get_or records (s % capacity) zero_record

abbrev pub window : List LogRecord → ℕ → ℕ → List LogRecord
window records s zero = []
window records s (suc n) = slot records s ∷ window records (s + 1) n

pub length-window : (records : List LogRecord) (s n : ℕ) → length (window records s n) ≡ n
length-window records s zero = refl
length-window records s (suc n) = ap suc (length-window records (s + 1) n)

-- Only the slot number modulo the capacity matters.
pub window-mod :
    (records : List LogRecord) (s t n : ℕ)
    → s % capacity ≡ t % capacity
    → window records s n ≡ window records t n
window-mod records s t zero e = refl
window-mod records s t (suc n) e =
    ap₂ ◌∷◌ (ap (λ i. get_or records i zero_record) e)
      (window-mod records (s + 1) (t + 1) n (omega arith))

-- A write to a slot outside the window.
pub window-set :
    (records : List LogRecord) (h s n : ℕ) (v : LogRecord)
    → h < capacity
    → h < s
    → s + n ≤ h + capacity
    → window (set records h v) s n ≡ window records s n
window-set records h s zero v small lo hi = refl
window-set records h s (suc n) v small lo hi =
    ap₂ ◌∷◌ (get_or-set_ne records h (s % capacity) v zero_record (λ e. absurd (omega arith)))
      (window-set records h (s + 1) n v small (omega arith) (omega arith))

-- One more slot at the end.
pub window-suc :
    (records : List LogRecord) (s n : ℕ)
    → window records s (suc n) ≡ window records s n ++ (slot records (s + n) ∷ [])
window-suc records s zero = let e : s + 0 ≡ s = omega arith in ap (λ t. slot records t ∷ []) (sym e)
window-suc records s (suc n) =
    let e : s + 1 + n ≡ s + suc n = omega arith in
    ap (◌∷◌ (slot records s))
      (window-suc records (s + 1) n ∙ ap (λ t. window records (s + 1) n ++ (slot records t ∷ [])) e)
