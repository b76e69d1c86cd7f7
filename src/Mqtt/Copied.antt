-- ===== src/Mqtt/Copied.antt =====
-- What a reader gets of an error that was set.
use industrial_edge_monitor.Base.{
  ℕ, zero, suc, ◌-◌, ◌≡◌, ◌≤◌, ◌<◌, ◌↔◌, refl, ap, true, false, Option, some, arith, List, [], ◌∷◌,
  length, length-take, take, ltb, min, ltb→lt, lt→ltb, ◌==◌,
}
use industrial_edge_monitor.Mqtt.{lock, ErrorState, text_or_empty, set_error, copy_error}

take_short : (n : ℕ) (xs : List ℕ) → length xs ≤ n → take n xs ≡ xs
take_short zero [] h = refl
take_short zero (x ∷ xs) h = absurd (omega arith)
take_short (suc n) [] h = refl
take_short (suc n) (x ∷ xs) h = ap (◌∷◌ x) (take_short n xs (omega arith))

whole_iff :
    (size : ℕ) (text : List ℕ)
    → 0 < size
    → (ltb (length text) size ≡ true) ↔ (take (size - 1) text ≡ text)
whole_iff size text room = (
  λ h. take_short (size - 1) text (omega (arith, ltb→lt _ _ h)),
  λ e.
      let same : length (take (size - 1) text) ≡ length text = ap length e in
      lt→ltb _ _ (omega (arith, length-take (size - 1) text)),
)

-- After an error was set, a copy with both calls getting the mutex returns true exactly if the
-- buffer then holds the whole of the message's first 95 characters, an empty text for NULL, and
-- never more than 95 characters whatever the size of the buffer, which is not 0.
pub copy_error-set_error :
    (s : ErrorState) (message : Option (List ℕ)) (buffer : List ℕ) (size : ℕ)
    → s.has_mutex ≡ true
    → 0 < size
    → let (copied, whole) = copy_error true (set_error true (some s) message) (some buffer) size in
      ((whole ≡ true) ↔ (copied ≡ some (take 95 (text_or_empty message))))
      × (length (text_or_empty copied) ≤ min 95 (size - 1))
unfolding copy_error set_error
copy_error-set_error s message buffer size mutex room =
    let text = take 95 (text_or_empty message) in
    let taken : lock s true ≡ true = rw mutex refl in
    let some_room : (size == 0) ≡ false = ground arith in
    let whole = whole_iff size text room in
    rw (taken, some_room)
      (rw taken (
        (λ h. ap some (whole.0 h), λ e. whole.1 (ap text_or_empty e)),
        omega (arith, length-take (size - 1) text, length-take 95 (text_or_empty message)),
      ))
