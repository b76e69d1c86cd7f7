-- ===== src/Diagnostic/Ring/Batches.antt =====
-- What `diagnostic_ring_batch` hands to a reader that polls with a cursor.
use industrial_edge_monitor.Base.{
  ℕ, zero, suc, ◌+◌, ◌≡◌, refl, ap, ◌∙◌, sym, List, [], ◌∷◌, ◌++◌, arith, true, false, length, take,
  ltb, le→ltb, lt→ltb, ◌==◌, if◌then◌else◌, Bool-cases, inl, inr, append-nil, append_assoc,
  take-nil,
}
use industrial_edge_monitor.Diagnostic.Ring.{
  LogRecord, batch_capacity, Ring, Batch, start_of, collect, batch, open_batch, append_record,
}
use industrial_edge_monitor.Diagnostic.Ring.Window.{slot, window}
use industrial_edge_monitor.Diagnostic.Ring.View.{view}

-- The records that a reader at cursor `after` has not seen.
abbrev pub newer : ℕ → List LogRecord → List LogRecord
newer after [] = []
newer after (x ∷ xs) = if ltb after x.sequence then x ∷ newer after xs else newer after xs

abbrev pub last_sequence : ℕ → List LogRecord → ℕ
last_sequence n [] = n
last_sequence n (x ∷ xs) = last_sequence x.sequence xs

-- The loop appended to `b` the first of the records `news` that fit, and noted if any did not.
pub record IsCollected (b : Batch) (room : ℕ) (news : List LogRecord) (out : Batch) : Type 0 where
  pub records_lem : out.records ≡ b.records ++ take room news
  pub count_lem : out.count ≡ b.count + length (take room news)
  pub cursor_lem : out.cursor ≡ last_sequence b.cursor (take room news)
  pub more_lem : out.has_more ≡ ltb room (length news)
  pub first_lem : out.first_available_sequence ≡ b.first_available_sequence
  pub lost_lem : out.lost_before_cursor ≡ b.lost_before_cursor

IsCollected-none : (b : Batch) (room : ℕ) → b.has_more ≡ false → IsCollected b room [] b
IsCollected-none b room m = record {
  records_lem =
      sym (ap (λ (t : List LogRecord). b.records ++ t) (take-nil room) ∙ append-nil b.records);
  count_lem = sym (ap (λ (t : List LogRecord). b.count + length t) (take-nil room) ∙ omega arith);
  cursor_lem = sym (ap (last_sequence b.cursor) (take-nil room));
  more_lem = m ∙ sym (le→ltb room 0 (omega arith));
  first_lem = refl;
  lost_lem = refl;
}

IsCollected-append :
    (b : Batch) (room : ℕ) (x : LogRecord) (news : List LogRecord) (out : Batch)
    → IsCollected (append_record b x) room news out
    → IsCollected b (suc room) (x ∷ news) out
IsCollected-append b room x news out c = record {
  records_lem = c.records_lem ∙ append_assoc b.records (x ∷ []) (take room news);
  count_lem = omega (arith, c.count_lem);
  cursor_lem = c.cursor_lem;
  more_lem = c.more_lem ∙ ground arith;
  first_lem = c.first_lem;
  lost_lem = c.lost_lem;
}

-- One round at a fresh record: it breaks exactly when there is no room.
IsCollected-cons :
    (room : ℕ) (b : Batch) (x : LogRecord) (news : List LogRecord) (out : Batch)
    → b.count + room ≡ batch_capacity
    → ((left : ℕ)
        → b.count + 1 + left ≡ batch_capacity
        → IsCollected (append_record b x) left news out)
    → IsCollected b room
        (x ∷ news)
        (if b.count == batch_capacity then record b { has_more = true } else out)
IsCollected-cons zero b x news out e rest =
    let full : (b.count == batch_capacity) ≡ true = ground arith in
    rw full (record {
      records_lem = sym (append-nil b.records);
      count_lem = omega arith;
      cursor_lem = refl;
      more_lem = sym (lt→ltb _ _ (omega arith));
      first_lem = refl;
      lost_lem = refl;
    })
IsCollected-cons (suc left) b x news out e rest =
    let open_slot : (b.count == batch_capacity) ≡ false = ground arith in
    rw open_slot (IsCollected-append b left x news out (rest left (omega arith)))

collect-IsCollected :
    (records : List LogRecord) (s after n room : ℕ) (b : Batch)
    → b.count + room ≡ batch_capacity
    → b.has_more ≡ false
    → IsCollected b room (newer after (window records s n)) (collect records s after n b)
unfolding collect
collect-IsCollected records s after zero room b e m = IsCollected-none b room m
collect-IsCollected records s after (suc n) room b e m =
    elim (Bool-cases (ltb after (slot records s).sequence)) [
      | inl fresh ↦ rw fresh (
          IsCollected-cons room b (slot records s) _ _ e
            (λ left e'. collect-IsCollected records (s + 1) after n left _ e' m))
      | inr seen ↦ rw seen (collect-IsCollected records (s + 1) after n room b e m)
    ]

-- A batch is the first `batch_capacity` of the records newer than the cursor, in order; its cursor
-- is the sequence number of the last of them, and `has_more` says whether any are left.
pub batch-IsCollected :
    (r : Ring) (after : ℕ)
    → IsCollected (open_batch r after) batch_capacity (newer after (view r)) (batch r after)
unfolding batch view
batch-IsCollected r after =
    collect-IsCollected r.records (start_of r) after r.count batch_capacity (open_batch r after)
      refl refl
