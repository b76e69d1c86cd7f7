-- ===== src/Diagnostic/Ring/View.antt =====
-- What the ring array holds, as the list of its records from the oldest to the newest, and the
-- abstract log that it implements.
use industrial_edge_monitor.Base.{
  ℕ, suc, ◌+◌, ◌-◌, ◌%◌, ◌≤◌, ◌<◌, ◌≡◌, refl, ap, ap₂, ◌∙◌, sym, List, [], ◌∷◌, ◌++◌, arith, get_or,
  set, length, drop, get_or-set_self, length-set, length-drop, length-append, Option, none, some,
  ltb, ltb→lt, ltb→le, le→ltb, lt→ltb, if◌then◌else◌, Bool-cases, inl, inr,
}
use industrial_edge_monitor.Diagnostic.Ring.{
  LogRecord, zero_record, capacity, Ring, reset, push, start_of, uint64_max,
}
use industrial_edge_monitor.Diagnostic.Ring.Window.{
  slot, window, length-window, window-mod, window-set, window-suc,
}

unfoldable pub view : Ring → List LogRecord
unfolding start_of
view r = window r.records (start_of r) r.count

-- The sequence numbers of the records from `n` upwards.
abbrev pub Consecutive : ℕ → List LogRecord → Type 0
Consecutive n [] = Unit {0}
Consecutive n (x ∷ xs) = (x.sequence ≡ n) × Consecutive (n + 1) xs

-- The ring is well formed: the indices are in range, the records number the entries one after
-- another up to `next_sequence`, and the entries that are gone are counted.
pub record IsRing (r : Ring) : Type 0 where
  pub slots : length r.records ≡ capacity
  pub head_in_range : r.head < capacity
  pub count_in_range : r.count ≤ capacity
  pub numbered : Consecutive (r.next_sequence - r.count) (view r)
  pub accounted : r.next_sequence ≡ r.overwritten + r.count + 1
  pub full_before_loss : 0 < r.overwritten → r.count ≡ capacity

-- The log of which the ring keeps the newest `capacity` entries.
abbrev pub keep_newest : List LogRecord → List LogRecord
keep_newest log = drop (length log - capacity) log

abbrev pub stamp : Ring → LogRecord → LogRecord
stamp r given = record given { sequence = r.next_sequence }

Consecutive-append :
    (n m : ℕ) (xs : List LogRecord) (x : LogRecord)
    → Consecutive n xs
    → x.sequence ≡ m
    → n + length xs ≡ m
    → Consecutive n (xs ++ (x ∷ []))
Consecutive-append n m [] x c e s = omega arith
Consecutive-append n m (y ∷ ys) x c e s =
    (c.0, Consecutive-append (n + 1) m ys x c.1 e (omega arith))

Consecutive-drop :
    (n : ℕ) (xs : List LogRecord) → Consecutive n xs → Consecutive (n + 1) (drop 1 xs)
Consecutive-drop n [] c = c
Consecutive-drop n (x ∷ xs) c = c.1

-- The array after the write, read from the old start over one more slot, is the old view and the
-- new record.
view-push_grow :
    (r : Ring) (v : LogRecord)
    → IsRing r
    → r.count < capacity
    → window (set r.records r.head v) (r.head + capacity - r.count) (suc r.count)
      ≡ view r ++ (v ∷ [])
unfolding view
view-push_grow r v ok room =
    window-suc (set r.records r.head v) (r.head + capacity - r.count) r.count
    ∙ ap₂ (λ (xs : List LogRecord) (x : LogRecord). xs ++ (x ∷ [])) before last
  where
    before :
        window (set r.records r.head v) (r.head + capacity - r.count) r.count
        ≡ window r.records ((r.head + capacity - r.count) % capacity) r.count
    before =
        window-set r.records r.head (r.head + capacity - r.count) r.count v ok.head_in_range
          (omega arith) (omega arith)
        ∙ window-mod r.records _ _ r.count (omega arith)

    at_head : (r.head + capacity - r.count + r.count) % capacity ≡ r.head
    at_head = omega (arith, ok.head_in_range, ok.count_in_range)

    last : slot (set r.records r.head v) (r.head + capacity - r.count + r.count) ≡ v
    last =
        ap (λ i. get_or (set r.records r.head v) i zero_record) at_head
        ∙ get_or-set_self r.records r.head v zero_record (omega (arith, ok.slots, ok.head_in_range))

-- With the ring full the write replaces the oldest entry.
view-push_full :
    (r : Ring) (v : LogRecord)
    → IsRing r
    → r.count ≡ capacity
    → window (set r.records r.head v) (r.head + 1) capacity ≡ drop 1 (view r) ++ (v ∷ [])
unfolding view
view-push_full r v ok full =
    window-suc (set r.records r.head v) (r.head + 1) 63
    ∙ ap₂ (λ (xs : List LogRecord) (x : LogRecord). xs ++ (x ∷ [])) before last
  where
    oldest :
        window r.records ((r.head + capacity - r.count) % capacity) r.count
        ≡ window r.records r.head 64
    oldest =
        ap (window r.records ((r.head + capacity - r.count) % capacity)) full
        ∙ window-mod r.records _ _ 64 (omega (arith, full, ok.head_in_range))

    before :
        window (set r.records r.head v) (r.head + 1) 63
        ≡ drop 1 (window r.records ((r.head + capacity - r.count) % capacity) r.count)
    before =
        window-set r.records r.head (r.head + 1) 63 v ok.head_in_range (omega arith) (omega arith)
        ∙ sym (ap (drop 1) oldest)

    at_head : (r.head + 1 + 63) % capacity ≡ r.head
    at_head = omega (arith, ok.head_in_range)

    last : slot (set r.records r.head v) (r.head + 1 + 63) ≡ v
    last =
        ap (λ i. get_or (set r.records r.head v) i zero_record) at_head
        ∙ get_or-set_self r.records r.head v zero_record (omega (arith, ok.slots, ok.head_in_range))

pub length-view : (r : Ring) → length (view r) ≡ r.count
unfolding view
length-view r = length-window _ _ _

drop-append_one :
    (xs : List LogRecord) (x : LogRecord)
    → 0 < length xs
    → drop 1 (xs ++ (x ∷ [])) ≡ drop 1 xs ++ (x ∷ [])
drop-append_one [] x h = absurd (omega arith)
drop-append_one (y ∷ ys) x h = refl

keep_newest-append :
    (r : Ring) (v : LogRecord)
    → IsRing r
    → keep_newest (view r ++ (v ∷ []))
      ≡ (if ltb r.count capacity then view r ++ (v ∷ []) else drop 1 (view r) ++ (v ∷ []))
keep_newest-append r v ok = elim (Bool-cases (ltb r.count capacity)) [
  | inl room ↦ rw room (ap (λ n. drop n (view r ++ (v ∷ []))) (amount_zero (ltb→lt _ _ room)))
  | inr full ↦ rw full (
      ap (λ n. drop n (view r ++ (v ∷ []))) (amount_one (ltb→le _ _ full))
      ∙ drop-append_one (view r) v (omega (arith, length-view r, ltb→le _ _ full)))
]
  where
    amount_zero : r.count < capacity → length (view r ++ (v ∷ [])) - capacity ≡ 0
    amount_zero h = omega (arith, length-append (view r) (v ∷ []), length-view r)

    amount_one : capacity ≤ r.count → length (view r ++ (v ∷ [])) - capacity ≡ 1
    amount_one h = omega (arith, length-append (view r) (v ∷ []), length-view r, ok.count_in_range)

view-push_room :
    (r : Ring) (given : LogRecord)
    → IsRing r
    → r.count < capacity
    → view (push r (some given)).0 ≡ view r ++ (stamp r given ∷ [])
unfolding push view
view-push_room r given ok room = rw (lt→ltb _ _ room) (
    window-mod _ _ (r.head + capacity - r.count) (r.count + 1)
      (omega (arith, room, ok.head_in_range))
    ∙ ap (window (set r.records r.head (stamp r given)) (r.head + capacity - r.count)) more
    ∙ view-push_grow r (stamp r given) ok room)
  where
    more : r.count + 1 ≡ suc r.count
    more = omega arith

view-push_wrap :
    (r : Ring) (given : LogRecord)
    → IsRing r
    → r.count ≡ capacity
    → view (push r (some given)).0 ≡ drop 1 (view r) ++ (stamp r given ∷ [])
unfolding push view
view-push_wrap r given ok full = rw (le→ltb r.count capacity (omega arith)) (
    window-mod _ _ (r.head + 1) r.count (omega (arith, ok.head_in_range))
    ∙ ap (window (set r.records r.head (stamp r given)) (r.head + 1)) full
    ∙ view-push_full r (stamp r given) ok full)

-- A push appends the stamped record to the log and keeps the newest `capacity` entries.
pub view-push :
    (r : Ring) (given : LogRecord)
    → IsRing r
    → view (push r (some given)).0 ≡ keep_newest (view r ++ (stamp r given ∷ []))
view-push r given ok =
    rw (keep_newest-append r (stamp r given) ok) (elim (Bool-cases (ltb r.count capacity)) [
      | inl room ↦ rw room (view-push_room r given ok (ltb→lt _ _ room))
      | inr full ↦
          rw full (view-push_wrap r given ok (omega (arith, ltb→le _ _ full, ok.count_in_range)))
    ])

-- The counters after a push that does not wrap them.
push-room :
    (r : Ring) (given : LogRecord)
    → IsRing r
    → r.next_sequence < uint64_max
    → r.count < capacity
    → ((push r (some given)).0.next_sequence - (push r (some given)).0.count
        ≡ r.next_sequence - r.count)
unfolding push
push-room r given ok small room = rw (lt→ltb _ _ room) (omega arith)

push-wrap :
    (r : Ring) (given : LogRecord)
    → IsRing r
    → r.next_sequence < uint64_max
    → r.count ≡ capacity
    → ((push r (some given)).0.next_sequence - (push r (some given)).0.count
        ≡ r.next_sequence - r.count + 1)
unfolding push
push-wrap r given ok small full =
    rw (le→ltb r.count capacity (omega arith)) (omega (arith, ok.accounted))

Consecutive-push :
    (r : Ring) (given : LogRecord)
    → IsRing r
    → r.next_sequence < uint64_max
    → Consecutive
        ((push r (some given)).0.next_sequence - (push r (some given)).0.count)
        (view (push r (some given)).0)
Consecutive-push r given ok small = elim (Bool-cases (ltb r.count capacity)) [
  | inl room ↦
      rw (push-room r given ok small (ltb→lt _ _ room), view-push_room r given ok (ltb→lt _ _ room))
        (Consecutive-append _ r.next_sequence (view r) (stamp r given) ok.numbered refl
          (omega (arith, length-view r, ok.accounted)))
  | inr full ↦
      let e : r.count ≡ capacity = omega (arith, ltb→le _ _ full, ok.count_in_range) in
      rw (push-wrap r given ok small e, view-push_wrap r given ok e)
        (Consecutive-append _ r.next_sequence (drop 1 (view r)) (stamp r given)
          (Consecutive-drop _ (view r) ok.numbered) refl
          (omega (arith, length-view r, length-drop 1 (view r), ok.accounted)))
]

-- `push` keeps the ring well formed while the sequence counter does not wrap.
pub push-IsRing :
    (r : Ring) (given : Option LogRecord)
    → IsRing r
    → r.next_sequence < uint64_max
    → IsRing (push r given).0
push-IsRing r none ok small = unfold push in ok
push-IsRing r (some given) ok small = record {
  slots = unfold push in (length-set r.records r.head (stamp r given) ∙ ok.slots);
  head_in_range = unfold push in omega arith;
  count_in_range = unfold push in ground (arith, ok.count_in_range);
  numbered = Consecutive-push r given ok small;
  accounted = unfold push in ground (arith, ok.accounted, ok.count_in_range);
  full_before_loss = unfold push in ground (arith, ok.full_before_loss, ok.accounted);
}

pub reset-IsRing : IsRing reset
unfolding reset view
reset-IsRing = omega arith
