-- ===== src/Config/Validate/Uri.antt =====
-- Which broker URIs are accepted.
use industrial_edge_monitor.Base.{
  ℕ, zero, suc, ◌≤◌, ◌<◌, ◌≡◌, ◌≢◌, ◌↔◌, inl, inr, ◌∙◌, ap, ap₂, sym, subst, refl, true, false,
  Option, none, some, arith, List, [], ◌∷◌, ◌++◌, ◌==◌, if◌then◌else◌, decimal, all_digits,
  is_empty, take, drop, get_or, c_str, bytes_eq, bytes_eq_iff, Bool-cases, ==_iff,
}
use industrial_edge_monitor.Config.Validate.{
  valid_port, valid_named, valid_bracketed, valid_authority, valid_mqtts_uri, valid_uri_text,
  split_first, split_last, contains, contains_space, scheme,
}
use industrial_edge_monitor.Config.Validate.Port.{valid_port_iff}

-- The answer of a search for the first such character.
abbrev IsFirst : ℕ → List ℕ → Option (List ℕ × List ℕ) → Type 0
IsFirst c text none = contains c text ≡ false
IsFirst c text (some (before, after)) = (text ≡ before ++ (c ∷ after)) × (contains c before ≡ false)

abbrev IsLast : ℕ → List ℕ → Option (List ℕ × List ℕ) → Type 0
IsLast c text none = contains c text ≡ false
IsLast c text (some (before, after)) = (text ≡ before ++ (c ∷ after)) × (contains c after ≡ false)

IsFirst-further :
    (c x : ℕ) (xs : List ℕ) (r : Option (List ℕ × List ℕ))
    → (x == c) ≡ false
    → IsFirst c xs r
    → IsFirst c (x ∷ xs) (elim r [ none ↦ none | some (before, after) ↦ some (x ∷ before, after) ])
IsFirst-further c x xs none e h = ground arith
IsFirst-further c x xs (some (before, after)) e h = (ap (◌∷◌ x) h.0, ground (arith, h.1))

pub split_first-IsFirst : (c : ℕ) (text : List ℕ) → IsFirst c text (split_first c text)
unfolding split_first
split_first-IsFirst c [] = refl
split_first-IsFirst c (x ∷ xs) = elim (Bool-cases (x == c)) [
  | inl here ↦ rw here (ap (λ y. y ∷ xs) ((==_iff x c).0 here), refl)
  | inr there ↦
      rw there (IsFirst-further c x xs (split_first c xs) there (split_first-IsFirst c xs))
]

IsLast-further :
    (c x : ℕ) (xs : List ℕ) (r : Option (List ℕ × List ℕ))
    → IsLast c xs r
    → IsLast c (x ∷ xs) (elim r [
      | none ↦ if x == c then some ([], xs) else none
      | some (before, after) ↦ some (x ∷ before, after)
    ])
IsLast-further c x xs none h = elim (Bool-cases (x == c)) [
  | inl here ↦ rw here (ap (λ y. y ∷ xs) ((==_iff x c).0 here), h)
  | inr there ↦ rw there (ground arith)
]
IsLast-further c x xs (some (before, after)) h = (ap (◌∷◌ x) h.0, h.1)

pub split_last-IsLast : (c : ℕ) (text : List ℕ) → IsLast c text (split_last c text)
unfolding split_last
split_last-IsLast c [] = refl
split_last-IsLast c (x ∷ xs) = IsLast-further c x xs (split_last c xs) (split_last-IsLast c xs)

-- And the other way: the cut at such a character is found.
split_first-found :
    (c : ℕ) (before after : List ℕ)
    → contains c before ≡ false
    → split_first c (before ++ (c ∷ after)) ≡ some (before, after)
unfolding split_first
split_first-found c [] after h = ground arith
split_first-found c (x ∷ xs) after h = ground (arith, split_first-found c xs after)

split_last-none : (c : ℕ) (text : List ℕ) → contains c text ≡ false → split_last c text ≡ none
unfolding split_last
split_last-none c [] h = refl
split_last-none c (x ∷ xs) h = ground (arith, split_last-none c xs)

split_last-found :
    (c : ℕ) (before after : List ℕ)
    → contains c after ≡ false
    → split_last c (before ++ (c ∷ after)) ≡ some (before, after)
unfolding split_last
split_last-found c [] after h = rw (split_last-none c after h) (ground arith)
split_last-found c (x ∷ xs) after h = rw (split_last-found c xs after h) refl

digits-no_colon : (text : List ℕ) → all_digits text ≡ true → contains b':' text ≡ false
digits-no_colon [] h = refl
digits-no_colon (c ∷ cs) h = ground (arith, digits-no_colon cs)

-- A port text for 1 to 65535.
abbrev pub IsPort : List ℕ → Type 0
IsPort port = (all_digits port ≡ true) × (0 < decimal port) × (decimal port ≤ 65535)

-- The authority is a host and a port: the host is not empty and does not begin with a bracket, or
-- it is a text in brackets that is not empty and has no closing bracket itself.
pub data IsAuthority (authority : List ℕ) : Type 0 where
  named :
      (host port : List ℕ)
      → authority ≡ host ++ (b':' ∷ port)
      → host ≢ []
      → ((get_or host 0 0 == b'[') ≡ false)
      → IsPort port
      → IsAuthority authority
  bracketed :
      (host port : List ℕ)
      → authority ≡ b'[' ∷ (host ++ (b']' ∷ (b':' ∷ port)))
      → host ≢ []
      → contains b']' host ≡ false
      → IsPort port
      → IsAuthority authority

head-append : (host rest : List ℕ) → host ≢ [] → get_or (host ++ rest) 0 0 ≡ get_or host 0 0
head-append [] rest h = absurd (h refl)
head-append (x ∷ xs) rest h = refl

valid_authority_complete :
    (authority : List ℕ) → IsAuthority authority → valid_authority authority ≡ true
unfolding valid_authority valid_named valid_bracketed
valid_authority_complete authority (named [] port e some_host head ok) = absurd (some_host refl)
valid_authority_complete authority (named (x ∷ xs) port e some_host head ok) =
    rw (e, head, split_last-found b':' (x ∷ xs) port (digits-no_colon port ok.0))
      ((valid_port_iff port).1 ok)
valid_authority_complete authority (bracketed [] port e some_host inner ok) =
    absurd (some_host refl)
valid_authority_complete authority (bracketed (x ∷ xs) port e some_host inner ok) =
    rw (e, split_first-found b']' (b'[' ∷ (x ∷ xs)) (b':' ∷ port) inner)
      (ground (arith, (valid_port_iff port).1 ok))

bracketed_sound :
    (authority : List ℕ) (r : Option (List ℕ × List ℕ))
    → (get_or authority 0 0 == b'[') ≡ true
    → IsFirst b']' authority r
    → valid_bracketed r ≡ true
    → IsAuthority authority
unfolding valid_bracketed
bracketed_sound authority none head cut h = cc
bracketed_sound authority (some ([], after)) head cut h =
    let bad : false ≡ true = rw cut.0 at head in cc
bracketed_sound authority (some (x ∷ [], after)) head cut h = cc
bracketed_sound authority (some (x ∷ (y ∷ ys), [])) head cut h = absurd (ground arith)
bracketed_sound authority (some (x ∷ (y ∷ ys), colon ∷ port)) head cut h =
    let parts : (colon ≡ b':') × (valid_port port ≡ true) = ground arith in
    let open_bracket : (x == b'[') ≡ true = rw cut.0 at head in
    bracketed (y ∷ ys) port
      (cut.0
        ∙ ap₂ (λ p q. p ∷ ((y ∷ ys) ++ (b']' ∷ (q ∷ port)))) ((==_iff x b'[').0 open_bracket)
            parts.0)
      (λ e. cc) (ground (arith, cut.1)) ((valid_port_iff port).0 parts.1)

named_sound :
    (authority : List ℕ) (r : Option (List ℕ × List ℕ))
    → (get_or authority 0 0 == b'[') ≡ false
    → IsLast b':' authority r
    → valid_named r ≡ true
    → IsAuthority authority
unfolding valid_named
named_sound authority none head cut h = cc
named_sound authority (some ([], after)) head cut h = cc
named_sound authority (some (x ∷ xs, after)) head cut h =
    named (x ∷ xs) after cut.0 (λ e. cc) (rw cut.0 at head) ((valid_port_iff after).0 h)

valid_authority_sound :
    (authority : List ℕ) → valid_authority authority ≡ true → IsAuthority authority
unfolding valid_authority
valid_authority_sound authority h = elim (Bool-cases (get_or authority 0 0 == b'[')) [
  | inl bracket ↦
      bracketed_sound authority _ bracket (split_first-IsFirst b']' authority) (rw bracket at h)
  | inr plain ↦ named_sound authority _ plain (split_last-IsLast b':' authority) (rw plain at h)
]

-- A text that is a broker URI: the scheme, then an authority, with no `@` behind the scheme and no
-- white space anywhere.
abbrev pub IsBrokerUri : List ℕ → Type 0
IsBrokerUri text =
    (authority : List ℕ) × (text ≡ scheme ++ authority)
    × IsAuthority authority
    × (contains b'@' authority ≡ false)
    × (contains_space authority ≡ false)

take-drop : (n : ℕ) (xs : List ℕ) → take n xs ++ drop n xs ≡ xs
take-drop zero xs = refl
take-drop (suc n) [] = refl
take-drop (suc n) (x ∷ xs) = ap (◌∷◌ x) (take-drop n xs)

not-empty_authority : (authority : List ℕ) → IsAuthority authority → is_empty authority ≡ false
not-empty_authority [] (named [] port e some_host head ok) = absurd (some_host refl)
not-empty_authority [] (named (x ∷ xs) port e some_host head ok) = cc
not-empty_authority [] (bracketed host port e some_host inner ok) = cc
not-empty_authority (x ∷ xs) a = refl

uri_complete : (text : List ℕ) → IsBrokerUri text → valid_uri_text text ≡ true
unfolding valid_uri_text
uri_complete text (authority, e, a, at_sign, space) =
    rw (e, not-empty_authority authority a, at_sign, space) (valid_authority_complete authority a)

uri_sound : (text : List ℕ) → valid_uri_text text ≡ true → IsBrokerUri text
unfolding valid_uri_text
uri_sound text h =
    let parts : (bytes_eq (take 8 text) scheme ≡ true)
        × (contains b'@' (drop 8 text) ≡ false)
        × (contains_space text ≡ false)
        × (valid_authority (drop 8 text) ≡ true) =
      ground arith in
    let cut : text ≡ scheme ++ drop 8 text =
      sym (take-drop 8 text)
      ∙ ap (λ (t : List ℕ). t ++ drop 8 text) ((bytes_eq_iff (take 8 text) scheme).0 parts.0) in
    let space : contains_space (scheme ++ drop 8 text) ≡ false =
      subst (λ (t : List ℕ). contains_space t ≡ false) cut parts.2 in
    (drop 8 text, cut, valid_authority_sound (drop 8 text) parts.3, parts.1, space)

-- A broker URI is accepted exactly when the string that its array holds is `mqtts://`, a host and
-- a port from 1 to 65535 in decimal, with no `@` behind the scheme and no white space. The host is
-- a text in brackets, or any text that does not begin with a bracket: it may hold a `/`, so a path
-- in front of the port is not refused.
pub valid_mqtts_uri_iff :
    (value : List ℕ) → (valid_mqtts_uri value ≡ true) ↔ IsBrokerUri (c_str value)
unfolding valid_mqtts_uri
valid_mqtts_uri_iff value = (uri_sound (c_str value), uri_complete (c_str value))
