-- ===== src/Provisioning/Service/Cookie.antt =====
-- What `cookie_token` takes out of a cookie header.
use industrial_edge_monitor.Base.{
  ℕ, zero, suc, ◌≡◌, ◌≢◌, ◌⊎◌, inl, inr, refl, ap, sym, ◌∙◌, arith, Bool, true, false, not, Option,
  none, some, List, [], ◌∷◌, ◌++◌, length, take, drop, All, bytes_eq, bytes_eq_iff, if_split, ◌==◌,
  subst, codes, not-false, ==_iff, Option-cases,
}
use industrial_edge_monitor.Provisioning.Service.{Request}
use industrial_edge_monitor.Provisioning.Service.Requests.{
  text_after, value_length, session_part, token_of, cookie_token,
}
use industrial_edge_monitor.Provisioning.Service.Access.{tokens_of}

-- What ends a value: the end of the header, a `;` or a space.
abbrev pub Ends : List ℕ → Type 0
Ends [] = Unit {0}
Ends (x ∷ xs) = (x ≡ b';') ⊎ (x ≡ b' ')

-- A header that has `IEM_SESSION=` and the whole value behind it, of 32 bytes, is the token.
pub record IsNamed (token header : List ℕ) : Type 0 where
  pub front : List ℕ
  pub rest : List ℕ
  pub split : header ≡ front ++ (codes "IEM_SESSION=" ++ (token ++ rest))
  pub size : length token ≡ 32
  pub plain : All (λ x. (x ≢ b';') × (x ≢ b' ')) token
  pub whole : Ends rest

-- The header that the request has is one of these.
pub data HasCookie (token : List ℕ) : Option (List ℕ) → Type 0 where
  has : {header : List ℕ} → IsNamed token header → HasCookie token (some header)

take-drop : (n : ℕ) (xs : List ℕ) → take n xs ++ drop n xs ≡ xs
take-drop zero xs = refl
take-drop (suc n) [] = refl
take-drop (suc n) (x ∷ xs) = ap (◌∷◌ x) (take-drop n xs)

text_after_split :
    (part text start : List ℕ)
    → text_after part text ≡ some start
    → (front : List ℕ) × (text ≡ front ++ (part ++ start))
text_after_split part [] start =
    if_split (λ o. o ≡ some start → (front : List ℕ) × ([] ≡ front ++ (part ++ start)))
      (bytes_eq [] part)
      (λ e h.
        let same : [] ≡ part = (bytes_eq_iff [] part).0 e in
        let left : [] ≡ start = cc in ([], λ i. same i ++ left i))
      (λ e h. cc)
text_after_split part (x ∷ xs) start =
    if_split (λ o. o ≡ some start → (front : List ℕ) × ((x ∷ xs) ≡ front ++ (part ++ start)))
      (bytes_eq (take (length part) (x ∷ xs)) part)
      (λ e h.
        let same = (bytes_eq_iff (take (length part) (x ∷ xs)) part).0 e in
        let left : drop (length part) (x ∷ xs) ≡ start = cc in
        ([], sym (take-drop (length part) (x ∷ xs)) ∙ (λ i. same i ++ left i)))
      (λ e h.
        let (front, split) = text_after_split part xs start h in (x ∷ front, ap (◌∷◌ x) split))

value_length_lem :
    (start : List ℕ) (n : ℕ)
    → value_length start ≡ n
    → (length (take n start) ≡ n)
      × All (λ x. (x ≢ b';') × (x ≢ b' ')) (take n start)
      × Ends (drop n start)
value_length_lem [] zero e = (refl, tt, tt)
value_length_lem [] (suc n) e = absurd (omega arith)
value_length_lem (x ∷ xs) zero e = (refl, tt, ground arith)
value_length_lem (x ∷ xs) (suc n) e =
    let shorter : value_length xs ≡ n = ground arith in
    let plain : (x ≢ b';') × (x ≢ b' ') = ground arith in
    let (size, all_plain, ends) = value_length_lem xs n shorter in
    (ap suc size, (plain, all_plain), ends)

token_of-IsNamed :
    (header : List ℕ) (start token : List ℕ)
    → text_after session_part header ≡ some start
    → token_of (some start) ≡ some token
    → IsNamed token header
token_of-IsNamed header start token found =
    if_split (λ o. o ≡ some token → IsNamed token header) (not (value_length start == 32))
      (λ e h. cc)
      (λ e h.
        let (front, split) = text_after_split session_part header start found in
        let (size, plain, ends) =
          value_length_lem start 32 ((==_iff (value_length start) 32).0 (not-false _ e)) in
        let same : take 32 start ≡ token = cc in
        subst (λ t. IsNamed t header) same
          (record {
            front = front;
            rest = drop 32 start;
            split = split ∙ ap (λ t. front ++ (session_part ++ t)) (sym (take-drop 32 start));
            size = size;
            plain = plain;
            whole = ends;
          }))

header-HasCookie :
    (cookie : Option (List ℕ)) (token : List ℕ)
    → elim cookie [ none ↦ none | some text ↦ token_of (text_after session_part text) ] ≡ some token
    → HasCookie token cookie
header-HasCookie none token e = cc
header-HasCookie (some header) token e = elim (Option-cases (text_after session_part header)) [
  | inl missing ↦ absurd (cc)
  | inr (start, found) ↦
      has (token_of-IsNamed header start token found (ap token_of (sym found) ∙ e))
]

pub cookie_token-HasCookie :
    (request : Request) (token : List ℕ)
    → cookie_token request ≡ some token
    → HasCookie token (request.header (codes "Cookie") 160)
unfolding cookie_token
cookie_token-HasCookie request token = header-HasCookie (request.header (codes "Cookie") 160) token

pub tokens_of-cookie :
    (modifying : Bool) (cookie csrf : Option (List ℕ)) (token : List ℕ) (given : Option (List ℕ))
    → tokens_of modifying cookie csrf ≡ some (token, given)
    → cookie ≡ some token
tokens_of-cookie modifying none csrf token given e = cc
tokens_of-cookie true (some cookie) none token given e = cc
tokens_of-cookie true (some cookie) (some csrf) token given e = cc
tokens_of-cookie false (some cookie) csrf token given e = cc
