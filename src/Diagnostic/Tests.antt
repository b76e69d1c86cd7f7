-- ===== src/Diagnostic/Tests.antt =====
-- The ring log at concrete inputs.
use industrial_edge_monitor.Base.{
  refl, ◌+◌, ◌-◌, ◌≡◌, ◌++◌, min, ltb, some, [], ◌∷◌, length, codes, take, arith,
}
use industrial_edge_monitor.Diagnostic.Log.{parse_prefix, with_prefix, unknown_level, component_max}
use industrial_edge_monitor.Diagnostic.Log.Prefix.{parse_prefix-log_line}
use industrial_edge_monitor.Diagnostic.Ring.{
  LogRecord, Ring, open_batch, reset, push, batch, batch_capacity,
}
use industrial_edge_monitor.Diagnostic.Ring.Gapless.{batch_gapless}
use industrial_edge_monitor.Diagnostic.Ring.View.{
  view, IsRing, Consecutive, keep_newest, stamp, view-push, push-IsRing, reset-IsRing,
}
use industrial_edge_monitor.Diagnostic.Ring.Batches.{IsCollected, newer, batch-IsCollected}

abbrev boot_record : LogRecord
boot_record = record {
  sequence = 0;
  relative_ms = 12;
  level = 3;
  component = codes "main";
  message = codes "started";
}

abbrev one_record : Ring
one_record = (push reset (some boot_record)).0

one_record-IsRing : IsRing one_record
unfolding reset
one_record-IsRing = push-IsRing reset (some boot_record) reset-IsRing (omega arith)

view-push_example :
    view (push one_record (some boot_record)).0
    ≡ keep_newest (view one_record ++ (stamp one_record boot_record ∷ []))
view-push_example = view-push one_record boot_record one_record-IsRing

batch_gapless_example :
    let b = batch one_record 0 in
    Consecutive (0 + 1 + b.lost_before_cursor) b.records
    × (length b.records ≡ b.count)
    × (b.count ≡ min batch_capacity (one_record.next_sequence - (0 + 1 + b.lost_before_cursor)))
    × (b.cursor ≡ 0 + b.lost_before_cursor + b.count)
    × (b.has_more ≡ ltb (b.cursor + 1) one_record.next_sequence)
unfolding reset push
batch_gapless_example = batch_gapless one_record 0 one_record-IsRing (omega arith) (omega arith)

batch-IsCollected_example :
    IsCollected
      (open_batch one_record 0)
      batch_capacity
      (newer 0 (view one_record))
      (batch one_record 0)
batch-IsCollected_example = batch-IsCollected one_record 0

abbrev wifi_line : LogRecord
wifi_line = record {
  sequence = 0;
  relative_ms = 12;
  level = 0;
  component = [];
  message = codes "I (123) wifi: connected";
}

parse_prefix-log_line_example :
    parse_prefix wifi_line ≡ with_prefix wifi_line unknown_level (take component_max (codes "wifi"))
parse_prefix-log_line_example =
    parse_prefix-log_line wifi_line (codes "I") (codes "123") (codes "wifi") (codes " connected")
      refl refl refl refl refl
