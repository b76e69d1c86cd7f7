-- ===== src/Diagnostic/Log/Prefix.antt =====
-- What the prefix of an ESP-IDF line becomes.
use industrial_edge_monitor.Base.{
  ℕ, ◌≡◌, ◌∙◌, refl, sym, ap, inl, inr, append-nil, Bool, true, false, not, ◌==◌, some, arith, List,
  [], ◌∷◌, ◌++◌, append_assoc, take, is_empty, all_digits, is_digit, ◌&&◌, Bool-cases,
}
use industrial_edge_monitor.Diagnostic.Ring.{LogRecord}
use industrial_edge_monitor.Diagnostic.Log.{
  component_max, split_bracket, before_colon, last_word, candidate_of, unknown_level, with_prefix,
  parse_prefix,
}

abbrev pub lacks : ℕ → List ℕ → Bool
lacks c [] = true
lacks c (x ∷ xs) = not (x == c) && lacks c xs

all_digits-lacks :
    (c : ℕ) (digits : List ℕ)
    → is_digit c ≡ false
    → all_digits digits ≡ true
    → lacks c digits ≡ true
all_digits-lacks c [] other h = refl
all_digits-lacks c (x ∷ xs) other h =
    let rest = all_digits-lacks c xs other (ground arith) in ground arith

lacks-append :
    (c : ℕ) (xs ys : List ℕ) → lacks c xs ≡ true → lacks c ys ≡ true → lacks c (xs ++ ys) ≡ true
lacks-append c [] ys h k = k
lacks-append c (x ∷ xs) ys h k = let rest = lacks-append c xs ys (ground arith) k in ground arith

-- The bracket is found behind a text that has none.
split_bracket-lacks :
    (before after : List ℕ)
    → lacks b')' before ≡ true
    → split_bracket (before ++ (b')' ∷ b' ' ∷ after)) ≡ some (before, after)
unfolding split_bracket
split_bracket-lacks [] after h = refl
split_bracket-lacks (x ∷ []) after h = let rest = split_bracket-lacks [] after refl in ground arith
split_bracket-lacks (x ∷ y ∷ ys) after h =
    let rest = split_bracket-lacks (y ∷ ys) after (ground arith) in ground arith

before_colon-lacks :
    (tag rest : List ℕ) → lacks b':' tag ≡ true → before_colon (tag ++ (b':' ∷ rest)) ≡ some tag
unfolding before_colon
before_colon-lacks [] rest h = refl
before_colon-lacks (x ∷ xs) rest h =
    let later = before_colon-lacks xs rest (ground arith) in ground (arith, later)

-- Without a space the word goes on to the end.
last_word-lacks : (word xs : List ℕ) → lacks b' ' xs ≡ true → last_word word xs ≡ word ++ xs
unfolding last_word
last_word-lacks word [] h = sym (append-nil word)
last_word-lacks word (x ∷ xs) h =
    let later = last_word-lacks (word ++ (x ∷ [])) xs (ground arith) in
    let other : (x == b' ') ≡ false = ground arith in
    rw other (later ∙ append_assoc word (x ∷ []) xs)

-- What stands in front of a space does not count.
last_word-space : (word lead xs : List ℕ) → last_word word (lead ++ (b' ' ∷ xs)) ≡ last_word [] xs
unfolding last_word
last_word-space word [] xs = refl
last_word-space word (x ∷ lead) xs = elim (Bool-cases (x == b' ')) [
  | inl e ↦ rw e (last_word-space [] lead xs)
  | inr e ↦ rw e (last_word-space (word ++ (x ∷ [])) lead xs)
]

-- `lead (digits) tag:rest`, as ESP-IDF prints a line: the level's letter is the end of `lead`.
abbrev pub log_line : List ℕ → List ℕ → List ℕ → List ℕ → List ℕ
log_line lead digits tag rest =
    (lead ++ (b' ' ∷ b'(' ∷ digits)) ++ (b')' ∷ b' ' ∷ (tag ++ (b':' ∷ rest)))

candidate_of-digits :
    (lead digits : List ℕ)
    → all_digits digits ≡ true
    → candidate_of (lead ++ (b' ' ∷ b'(' ∷ digits)) ≡ b'('
unfolding candidate_of
candidate_of-digits lead digits h =
    let word : last_word [] (lead ++ (b' ' ∷ b'(' ∷ digits)) ≡ b'(' ∷ digits =
      last_word-space [] lead (b'(' ∷ digits)
      ∙ last_word-lacks [] (b'(' ∷ digits) (all_digits-lacks b' ' digits refl h) in
    rw word refl

-- Of a line in the format of ESP-IDF the component is recorded, cut to its maximum, and the level
-- is recorded as unknown whatever its letter is: the walk back from the bracket stops at the
-- bracket in front of the time stamp. The line's lead holds no closing bracket and its tag no
-- colon, and the tag is not empty; nothing else of the record changes.
pub parse_prefix-log_line :
    (r : LogRecord) (lead digits tag rest : List ℕ)
    → lacks b')' lead ≡ true
    → all_digits digits ≡ true
    → lacks b':' tag ≡ true
    → is_empty tag ≡ false
    → r.message ≡ log_line lead digits tag rest
    → parse_prefix r ≡ with_prefix r unknown_level (take component_max tag)
unfolding parse_prefix
parse_prefix-log_line r lead digits tag rest no_bracket time no_colon named line =
    let front : lacks b')' (lead ++ (b' ' ∷ b'(' ∷ digits)) ≡ true =
      lacks-append b')' lead (b' ' ∷ b'(' ∷ digits) no_bracket
        (all_digits-lacks b')' digits refl time) in
    let found : split_bracket r.message
        ≡ some (lead ++ (b' ' ∷ b'(' ∷ digits), tag ++ (b':' ∷ rest)) =
      ap split_bracket line
      ∙ split_bracket-lacks (lead ++ (b' ' ∷ b'(' ∷ digits)) (tag ++ (b':' ∷ rest)) front in
    rw
      (
        parse_prefix,
        found,
        before_colon-lacks tag rest no_colon,
        named,
        candidate_of-digits lead digits time,
      )
      refl
