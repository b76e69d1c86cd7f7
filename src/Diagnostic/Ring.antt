-- ===== src/Diagnostic/Ring.antt =====
-- firmware/components/diagnostic_log/diagnostic_ring.c and the records of diagnostic_log.h.
-- The file's static variables are the record `Ring`; `diagnostic_log.c` calls every function
-- here inside its critical section, so the calls come one after another.
pub mod Window
pub mod View
pub mod Batches
pub mod Gapless
use industrial_edge_monitor.Base.{
  ℕ, zero, suc, ◌+◌, ◌-◌, ◌%◌, ◌^◌, Bool, true, false, ◌&&◌, not, Option, none, some, List, [], ◌∷◌,
  ◌++◌, ltb, ◌==◌, if◌then◌else◌, u64, get_or, set, replicate,
}

abbrev pub capacity : ℕ
capacity = 64

abbrev pub batch_capacity : ℕ
batch_capacity = 8

abbrev pub uint64_max : ℕ
uint64_max = 2 ^ 64 - 1

-- The two `char` arrays are carried as the lists of their bytes.
pub record LogRecord : Type 0 where
  pub sequence : ℕ
  pub relative_ms : ℕ
  pub level : ℕ
  pub component : List ℕ
  pub message : List ℕ

abbrev pub zero_record : LogRecord
zero_record = record { sequence = 0; relative_ms = 0; level = 0; component = []; message = [] }

pub record Ring : Type 0 where
  pub records : List LogRecord
  pub head : ℕ
  pub count : ℕ
  pub next_sequence : ℕ
  pub overwritten : ℕ

unfoldable pub reset : Ring
reset = record {
  records = replicate capacity zero_record;
  head = 0;
  count = 0;
  next_sequence = 1;
  overwritten = 0;
}

-- The ring afterwards, and the caller's record with its sequence number; `none` is NULL.
unfoldable pub push : Ring → Option LogRecord → Ring × Option LogRecord
push r none = (r, none)
push r (some given) =
    let stamped : LogRecord = record given { sequence = r.next_sequence } in
    let full = not (ltb r.count capacity) in
    (
      record {
        records = set r.records r.head stamped;
        head = (r.head + 1) % capacity;
        count = if full then r.count else r.count + 1;
        next_sequence = u64 (r.next_sequence + 1);
        overwritten = if full then u64 (r.overwritten + 1) else r.overwritten;
      },
      some stamped,
    )

-- `records` holds the entries that are filled in: the first `count` of the array.
pub record Batch : Type 0 where
  pub records : List LogRecord
  pub count : ℕ
  pub cursor : ℕ
  pub first_available_sequence : ℕ
  pub next_sequence : ℕ
  pub overwritten : ℕ
  pub lost_before_cursor : ℕ
  pub has_more : Bool

unfoldable pub start_of : Ring → ℕ
start_of r = (r.head + capacity - r.count) % capacity

-- What is set before the loop.
unfoldable pub open_batch : Ring → ℕ → Batch
unfolding start_of
open_batch r after =
    let first =
      if ltb 0 r.count
      then (get_or r.records (start_of r) zero_record).sequence
      else r.next_sequence in
    record {
      records = [];
      count = 0;
      cursor = after;
      first_available_sequence = first;
      next_sequence = r.next_sequence;
      overwritten = r.overwritten;
      lost_before_cursor =
          if ltb 0 r.count && (not (after == uint64_max) && ltb (u64 (after + 1)) first)
          then first - after - 1
          else 0;
      has_more = false;
    }

-- One round of the loop that does not break.
abbrev pub append_record : Batch → LogRecord → Batch
append_record b entry = record b {
  records = b.records ++ (entry ∷ []);
  count = b.count + 1;
  cursor = entry.sequence;
}

-- The loop at slot `start + index`, with the given number of rounds left. It breaks when a record
-- does not fit any more.
unfoldable pub collect : List LogRecord → ℕ → ℕ → ℕ → Batch → Batch
collect records slot after zero b = b
collect records slot after (suc left) b =
    let entry : LogRecord = get_or records (slot % capacity) zero_record in
    let skip = collect records (slot + 1) after left b in
    let taken = collect records (slot + 1) after left (append_record b entry) in
    if ltb after entry.sequence
    then (if b.count == batch_capacity then record b { has_more = true } else taken)
    else skip

unfoldable pub batch : Ring → ℕ → Batch
unfolding open_batch collect
batch r after = collect r.records (start_of r) after r.count (open_batch r after)
