-- ===== src/Diagnostic/Ring/Gapless.antt =====
-- A polling reader misses no record that is still in the ring.
use industrial_edge_monitor.Base.{
  ℕ, zero, suc, ◌+◌, ◌-◌, ◌≤◌, ◌<◌, ◌≡◌, refl, ap, ◌∙◌, sym, subst, List, [], ◌∷◌, arith, get_or,
  length, drop, take, ltb, ltb→lt, ltb→le, le→ltb, lt→ltb, if◌then◌else◌, Bool-cases, inl, inr, min,
  length-take, length-drop,
}
use industrial_edge_monitor.Diagnostic.Ring.{
  LogRecord, zero_record, batch_capacity, Ring, start_of, uint64_max, batch, open_batch,
}
use industrial_edge_monitor.Diagnostic.Ring.Window.{slot, window}
use industrial_edge_monitor.Diagnostic.Ring.View.{view, IsRing, Consecutive, length-view}
use industrial_edge_monitor.Diagnostic.Ring.Batches.{newer, last_sequence, batch-IsCollected}

newer_all : (n after : ℕ) (xs : List LogRecord) → Consecutive n xs → after < n → newer after xs ≡ xs
newer_all n after [] c h = refl
newer_all n after (x ∷ xs) c h =
    rw (lt→ltb after x.sequence (omega arith))
      (ap (◌∷◌ x) (newer_all (n + 1) after xs c.1 (omega arith)))

-- Over consecutive numbers the newer records are a final part of the log.
newer-drop :
    (gap n after : ℕ) (xs : List LogRecord)
    → Consecutive n xs
    → n + gap ≡ after + 1
    → newer after xs ≡ drop gap xs
newer-drop zero n after xs c e = newer_all n after xs c (omega arith)
newer-drop (suc gap) n after [] c e = refl
newer-drop (suc gap) n after (x ∷ xs) c e =
    rw (le→ltb after x.sequence (omega arith)) (newer-drop gap (n + 1) after xs c.1 (omega arith))

Consecutive-drop :
    (gap n m : ℕ) (xs : List LogRecord)
    → Consecutive n xs
    → n + gap ≡ m
    → Consecutive m (drop gap xs)
Consecutive-drop zero n m xs c e = let e' : n ≡ m = omega arith in rw (← e') c
Consecutive-drop (suc gap) n m [] c e = tt
Consecutive-drop (suc gap) n m (x ∷ xs) c e = Consecutive-drop gap (n + 1) m xs c.1 (omega arith)

Consecutive-take : (k n : ℕ) (xs : List LogRecord) → Consecutive n xs → Consecutive n (take k xs)
Consecutive-take zero n xs c = tt
Consecutive-take (suc k) n [] c = tt
Consecutive-take (suc k) n (x ∷ xs) c = (c.0, Consecutive-take k (n + 1) xs c.1)

last_sequence-Consecutive :
    (n m : ℕ) (xs : List LogRecord)
    → Consecutive n xs
    → 0 < length xs
    → last_sequence m xs + 1 ≡ n + length xs
last_sequence-Consecutive n m [] c h = absurd (omega arith)
last_sequence-Consecutive n m (x ∷ []) c h = omega (arith, c.0)
last_sequence-Consecutive n m (x ∷ y ∷ xs) c h =
    last_sequence-Consecutive (n + 1) x.sequence (y ∷ xs) c.1 (omega arith) ∙ omega arith

last_sequence-empty : (m : ℕ) (xs : List LogRecord) → length xs ≡ 0 → last_sequence m xs ≡ m
last_sequence-empty m [] e = refl
last_sequence-empty m (x ∷ xs) e = absurd (omega arith)

oldest-Consecutive :
    (records : List LogRecord) (s n count : ℕ)
    → Consecutive n (window records s count)
    → 0 < count
    → (slot records s).sequence ≡ n
oldest-Consecutive records s n zero c h = absurd (omega arith)
oldest-Consecutive records s n (suc count) c h = c.0

oldest_lem :
    (r : Ring)
    → IsRing r
    → 0 < r.count
    → (get_or r.records (start_of r) zero_record).sequence ≡ r.next_sequence - r.count
unfolding view start_of
oldest_lem r ok h =
    ap (λ i. (get_or r.records i zero_record).sequence) (omega arith)
    ∙ oldest-Consecutive r.records _ _ r.count ok.numbered h

open_batch-lost :
    (r : Ring) (after : ℕ)
    → IsRing r
    → after < uint64_max
    → (open_batch r after).lost_before_cursor
      ≡ (if ltb 0 r.count then r.next_sequence - r.count - after - 1 else 0)
unfolding open_batch
open_batch-lost r after ok small = elim (Bool-cases (ltb 0 r.count)) [
  | inl held ↦ rw (held, oldest_lem r ok (ltb→lt _ _ held)) (ground arith)
  | inr empty ↦ rw empty refl
]

-- The next sequence number that the reader gets.
abbrev resume : Ring → ℕ → ℕ
resume r after = after + 1 + (batch r after).lost_before_cursor

batch-lost :
    (r : Ring) (after : ℕ)
    → IsRing r
    → after < r.next_sequence
    → r.next_sequence ≤ uint64_max
    → (batch r after).lost_before_cursor ≡ r.next_sequence - r.count - (after + 1)
batch-lost r after ok seen fits =
    (batch-IsCollected r after).lost_lem
    ∙ open_batch-lost r after ok (omega arith)
    ∙ ground (arith, ok.accounted, ok.full_before_loss)

newer-eq-drop :
    (first after : ℕ) (xs : List LogRecord)
    → Consecutive first xs
    → newer after xs ≡ drop (after + 1 - first) xs
newer-eq-drop first after xs c = elim (Bool-cases (ltb after first)) [
  | inl lost ↦
      newer_all first after xs c (ltb→lt _ _ lost)
      ∙ ap (λ n. drop n xs) (let z : 0 ≡ after + 1 - first = omega (arith, ltb→lt _ _ lost) in z)
  | inr held ↦ newer-drop (after + 1 - first) first after xs c (omega (arith, ltb→le _ _ held))
]

batch-newer :
    (r : Ring) (after : ℕ)
    → IsRing r
    → after < r.next_sequence
    → r.next_sequence ≤ uint64_max
    → Consecutive (resume r after) (newer after (view r))
      × (length (newer after (view r)) ≡ r.next_sequence - resume r after)
batch-newer r after ok seen fits = rw (newer-eq-drop _ after (view r) ok.numbered) (
  Consecutive-drop gap _ _ (view r) ok.numbered
      (omega (arith, ok.accounted, batch-lost r after ok seen fits)),
  omega (
    arith,
    ok.accounted,
    batch-lost r after ok seen fits,
    length-drop gap (view r),
    length-view r,
  ),
)
  where
    gap : ℕ
    gap = after + 1 - (r.next_sequence - r.count)

-- What `batch-IsCollected` says, with the fields of the opened batch put in.
batch-fields :
    (r : Ring) (after : ℕ)
    → let b = batch r after in
      let news = newer after (view r) in
      (b.records ≡ take batch_capacity news)
      × (b.count ≡ length (take batch_capacity news))
      × (b.cursor ≡ last_sequence after (take batch_capacity news))
      × (b.has_more ≡ ltb batch_capacity (length news))
batch-fields r after =
    let c = batch-IsCollected r after in
    unfold open_batch in (c.records_lem, c.count_lem ∙ omega arith, c.cursor_lem, c.more_lem)

batch-cursor :
    (r : Ring) (after : ℕ)
    → IsRing r
    → after < r.next_sequence
    → r.next_sequence ≤ uint64_max
    → (batch r after).cursor ≡ after + (batch r after).lost_before_cursor + (batch r after).count
batch-cursor r after ok seen fits = elim (Bool-cases (ltb 0 (length delivered))) [
  | inl some_news ↦ omega (
    arith,
    f.2,
    f.1,
    last_sequence-Consecutive _ after delivered
        (Consecutive-take batch_capacity _ _ (batch-newer r after ok seen fits).0)
        (ltb→lt _ _ some_news),
  )
  | inr no_news ↦ ground (
    arith,
    f.2,
    f.1,
    last_sequence-empty after delivered,
    length-take batch_capacity (newer after (view r)),
    batch-newer r after ok seen fits,
    batch-lost r after ok seen fits,
    ok.full_before_loss,
    ok.accounted,
  )
]
  where
    delivered : List LogRecord
    delivered = take batch_capacity (newer after (view r))

    f :
        ((batch r after).records ≡ delivered)
        × ((batch r after).count ≡ length delivered)
        × ((batch r after).cursor ≡ last_sequence after delivered)
        × ((batch r after).has_more ≡ ltb batch_capacity (length (newer after (view r))))
    f = batch-fields r after

-- While the sequence numbers have not wrapped, a reader at a cursor that was handed out gets the
-- records that follow it with no gap but the number that the batch itself reports as lost: the
-- batch starts at number `after + 1 + lost_before_cursor`, is consecutive, holds all that is left
-- up to `batch_capacity`, moves the cursor to its last record, and sets `has_more` exactly when
-- records remain beyond that cursor.
pub batch_gapless :
    (r : Ring) (after : ℕ)
    → IsRing r
    → after < r.next_sequence
    → r.next_sequence ≤ uint64_max
    → let b = batch r after in
      Consecutive (after + 1 + b.lost_before_cursor) b.records
      × (length b.records ≡ b.count)
      × (b.count ≡ min batch_capacity (r.next_sequence - (after + 1 + b.lost_before_cursor)))
      × (b.cursor ≡ after + b.lost_before_cursor + b.count)
      × (b.has_more ≡ ltb (b.cursor + 1) r.next_sequence)
batch_gapless r after ok seen fits =
    let f = batch-fields r after in
    let n = batch-newer r after ok seen fits in
    (
      subst (Consecutive _) (sym f.0) (Consecutive-take batch_capacity _ _ n.0),
      ap (λ (xs : List LogRecord). length xs) f.0 ∙ sym f.1,
      omega (arith, f.1, n.1, length-take batch_capacity (newer after (view r))),
      batch-cursor r after ok seen fits,
      f.3
          ∙ ground (
            arith,
            batch-cursor r after ok seen fits,
            f.1,
            n.1,
            length-take batch_capacity (newer after (view r)),
          ),
    )
