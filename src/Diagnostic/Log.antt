-- ===== src/Diagnostic/Log.antt =====
-- firmware/components/diagnostic_log/diagnostic_log.c: how a log line that ESP-IDF prints becomes a
-- record of the ring. A message is the string that `vsnprintf` leaves in the record.
pub mod Prefix
use industrial_edge_monitor.Base.{
  ℕ, Bool, true, false, ◌||◌, ◌&&◌, ◌==◌, Option, none, some, List, [], ◌∷◌, ◌++◌, if◌then◌else◌,
  take, codes, get_or, is_empty,
}
use industrial_edge_monitor.Diagnostic.Ring.{LogRecord, Ring, Batch, reset, push, batch}

abbrev pub component_max : ℕ
component_max = 23

-- `strstr(text, ") ")`: the text in front of the bracket, and the text behind the space.
unfoldable pub split_bracket : List ℕ → Option (List ℕ × List ℕ)
split_bracket [] = none
split_bracket (x ∷ []) = none
split_bracket (x ∷ y ∷ rest) =
    let later = split_bracket (y ∷ rest) in
    if x == b')' && y == b' '
    then some ([], rest)
    else elim later [ none ↦ none | some (before, after) ↦ some (x ∷ before, after) ]

-- `strchr(text, ':')`: the text in front of the colon.
unfoldable pub before_colon : List ℕ → Option (List ℕ)
before_colon [] = none
before_colon (x ∷ xs) =
    if x == b':'
    then some []
    else elim (before_colon xs) [ none ↦ none | some before ↦ some (x ∷ before) ]

-- What stands behind the last space; `word` has been read since the last one.
unfoldable pub last_word : List ℕ → List ℕ → List ℕ
last_word word [] = word
last_word word (x ∷ xs) = if x == b' ' then last_word [] xs else last_word (word ++ (x ∷ [])) xs

-- The character at which the walk back from the bracket stops: the first behind the last space in
-- front of the bracket, or the bracket itself.
unfoldable pub candidate_of : List ℕ → ℕ
candidate_of before = get_or (last_word [] before ++ codes ")") 0 0

abbrev pub unknown_level : ℕ
unknown_level = b'?'

abbrev pub level_of : ℕ → ℕ
level_of c =
    if c == b'E' || c == b'W' || c == b'I' || c == b'D' || c == b'V' then c else unknown_level

abbrev pub with_prefix : LogRecord → ℕ → List ℕ → LogRecord
with_prefix r level component = record r { level = level; component = component }

unfoldable pub parse_prefix : LogRecord → LogRecord
parse_prefix r =
    let unknown = with_prefix r unknown_level (codes "esp-idf") in
    elim (split_bracket r.message) [
      | none ↦ unknown
      | some (before, after) ↦ elim (before_colon after) [
        | none ↦ unknown
        | some tag ↦
            if is_empty tag
            then unknown
            else with_prefix r (level_of (candidate_of before)) (take component_max tag)
      ]
    ]

-- The static variables: whether the sink is installed, and the ring.
pub record Sink : Type 0 where
  pub installed : Bool
  pub ring : Ring

unfoldable pub log_init : Sink → Sink
log_init s = if s.installed then s else record { installed = true; ring = reset }

-- `diagnostic_vprintf` for a message and the time in milliseconds since the start.
unfoldable pub capture : Sink → List ℕ → ℕ → Sink
unfolding parse_prefix
capture s message relative_ms =
    let given : LogRecord = record {
      sequence = 0;
      relative_ms = relative_ms;
      level = 0;
      component = [];
      message = message;
    } in
    record s { ring = (push s.ring (some (parse_prefix given))).0 }

-- What the pointer refers to afterwards; `none` is NULL.
unfoldable pub get_batch : Sink → Option Batch → ℕ → Option Batch
get_batch s none after_sequence = none
get_batch s (some before) after_sequence = some (batch s.ring after_sequence)
