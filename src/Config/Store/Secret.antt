-- ===== src/Config/Store/Secret.antt =====
-- `device_config_get_or_create_setup_secret`: the secret that the setup access point asks for.
use industrial_edge_monitor.Base.{
  ap, ◌∙◌, ==_iff, length-append, take-append, ℕ, zero, suc, ◌+◌, ◌-◌, ◌*◌, ◌/◌, ◌%◌, ◌^◌, ◌<◌, ◌≡◌,
  ◌⊎◌, inl, inr, refl, Bool, true, false, ◌&&◌, ◌||◌, not, ltb, leb, ◌==◌, if◌then◌else◌, if_split,
  Option, none, some, arith, List, [], ◌∷◌, ◌++◌, replicate, get_or, take, length, All, EspErr,
  esp_ok, invalid_arg, invalid_size, is_ok, not-false,
}
use industrial_edge_monitor.Config.Store.{Nvs, read_write, is_not_found}
use industrial_edge_monitor.Config.Store.Operations.{Store, at_world, locked, configuration_lock}

abbrev pub setup_secret_length : ℕ
setup_secret_length = 32

-- `nvs_get_str` with a NULL buffer and with one of 33 bytes, which it gives back; `nvs_set_str`;
-- `esp_fill_random` for 16 bytes, between the calls that switch the entropy source.
pub record Strings (W : Type 0) : Type 0 where
  pub string_size : ℕ → W → EspErr × ℕ × W
  pub get_string : ℕ → W → EspErr × List ℕ × W
  pub set_string : ℕ → List ℕ → W → EspErr × W
  pub random_bytes : W → List ℕ × W

abbrev pub hex_digit : ℕ → ℕ
hex_digit n = if ltb n 10 then b'0' + n else b'a' + (n - 10)

-- `"%02x"` of each byte.
unfoldable pub hex_text : List ℕ → List ℕ
hex_text [] = []
hex_text (x ∷ xs) = hex_digit (x / 16) ∷ hex_digit (x % 16) ∷ hex_text xs

abbrev pub is_hexadecimal : ℕ → Bool
is_hexadecimal c = leb b'0' c && leb c b'9' || leb b'A' c && leb c b'F' || leb b'a' c && leb c b'f'

unfoldable pub all_hexadecimal : List ℕ → Bool
all_hexadecimal [] = true
all_hexadecimal (x ∷ xs) = is_hexadecimal x && all_hexadecimal xs

abbrev pub no_secret : List ℕ
no_secret = replicate (setup_secret_length + 1) 0

-- The result, the secret's array and whether it is new.
abbrev pub Answer : Type 0
Answer = EspErr × List ℕ × Bool

-- The secret that was read, if it is 32 hexadecimal digits and a NUL.
unfoldable pub accept_stored : EspErr → List ℕ → Answer
unfolding all_hexadecimal
accept_stored result stored =
    if not (is_ok result)
    then (result, no_secret, false)
    else if not (all_hexadecimal (take setup_secret_length stored))
    then (invalid_arg, no_secret, false)
    else if get_or stored setup_secret_length 0 == 0
    then (esp_ok, stored, false)
    else (invalid_size, no_secret, false)

-- The secret that was made, if it was stored.
unfoldable pub accept_new : EspErr → List ℕ → Answer
accept_new result text =
    if is_ok result then (result, text ++ (0 ∷ []), true) else (result, no_secret, false)

module _ {W : Type 0} (nvs : Nvs W) (strings : Strings W) where
  unfoldable pub secret_locked : Store W → Answer × Store W
  unfolding hex_text accept_stored accept_new
  secret_locked s =
      let (opened, handle, w1) = nvs.nvs_open read_write s.world in
      let (result, size, w2) = strings.string_size handle w1 in
      let (random, w3) = strings.random_bytes w2 in
      let (set, w4) = strings.set_string handle (hex_text random) w3 in
      let (committed, w5) = nvs.commit handle w4 in
      let (got, stored, w6) = strings.get_string handle w2 in
      if not (is_ok opened)
      then ((opened, no_secret, false), at_world s w1)
      else if is_not_found result
      then if is_ok set
        then (accept_new committed (hex_text random), at_world s (nvs.close handle w5))
        else (accept_new set (hex_text random), at_world s (nvs.close handle w4))
      else if not (is_ok result)
      then ((result, no_secret, false), at_world s (nvs.close handle w2))
      else if not (size == setup_secret_length + 1)
      then ((invalid_size, no_secret, false), at_world s (nvs.close handle w2))
      else (accept_stored got stored, at_world s (nvs.close handle w6))

  -- `none` stands for a call with a NULL pointer.
  unfoldable pub get_or_create_setup_secret :
      Option (List ℕ × Bool) → Store W → (EspErr × Option (List ℕ × Bool)) × Store W
  unfolding secret_locked
  get_or_create_setup_secret none s = ((invalid_arg, none), s)
  get_or_create_setup_secret (some before) s =
      let ((result, secret, generated), s') =
        locked nvs s (λ e. (e, no_secret, false)) secret_locked in
      ((result, some (secret, generated)), s')

-- An array with 32 hexadecimal digits and a NUL behind them.
pub record IsSecret (secret : List ℕ) : Type 0 where
  pub size : length secret ≡ 33
  pub digits : all_hexadecimal (take 32 secret) ≡ true
  pub ended : get_or secret 32 0 ≡ 0

-- Either ESP_OK and such a secret, or an error and nothing but zeros.
abbrev pub IsAnswer : Answer → Type 0
IsAnswer (result, secret, generated) =
    (is_ok result ≡ true) × IsSecret secret
    ⊎ (is_ok result ≡ false) × (secret ≡ no_secret) × (generated ≡ false)

abbrev pub answer_of : Option (List ℕ × Bool) → List ℕ × Bool
answer_of none = (no_secret, false)
answer_of (some (secret, generated)) = (secret, generated)

not-true : (b : Bool) → not b ≡ true → b ≡ false
not-true true h = λ i. not (h i)
not-true false h = refl

hex_digit-is_hexadecimal : (n : ℕ) → n < 16 → is_hexadecimal (hex_digit n) ≡ true
hex_digit-is_hexadecimal n small = ground arith

pub length-hex_text : (xs : List ℕ) → length (hex_text xs) ≡ 2 * length xs
unfolding hex_text
length-hex_text [] = refl
length-hex_text (x ∷ xs) = omega (arith, length-hex_text xs)

all_hexadecimal-hex_text :
    (xs : List ℕ) → All (λ x. x < 2 ^ 8) xs → all_hexadecimal (hex_text xs) ≡ true
unfolding hex_text all_hexadecimal
all_hexadecimal-hex_text [] bytes = refl
all_hexadecimal-hex_text (x ∷ xs) (small, bytes) =
    rw
      (
        hex_digit-is_hexadecimal (x / 16) (omega arith),
        hex_digit-is_hexadecimal (x % 16) (omega arith),
      )
      (all_hexadecimal-hex_text xs bytes)

get_or_last : (xs : List ℕ) (n : ℕ) → n ≡ length xs → get_or (xs ++ (0 ∷ [])) n 0 ≡ 0
get_or_last [] zero e = refl
get_or_last [] (suc n) e = refl
get_or_last (x ∷ xs) zero e = absurd (omega arith)
get_or_last (x ∷ xs) (suc n) e = get_or_last xs n (omega arith)

take_all : (xs ys : List ℕ) (n : ℕ) → n ≡ length xs → take n (xs ++ ys) ≡ xs
take_all xs ys n e = rw e (take-append xs ys)

new-IsSecret :
    (xs : List ℕ) → All (λ x. x < 2 ^ 8) xs → length xs ≡ 16 → IsSecret (hex_text xs ++ (0 ∷ []))
new-IsSecret xs bytes l =
    let long : 32 ≡ length (hex_text xs) = omega (arith, length-hex_text xs) in
    record {
      size = omega (arith, length-append (hex_text xs) (0 ∷ []));
      digits =
          ap all_hexadecimal (take_all (hex_text xs) (0 ∷ []) 32 long)
          ∙ all_hexadecimal-hex_text xs bytes;
      ended = get_or_last (hex_text xs) 32 long;
    }

accept_new-IsAnswer :
    (result : EspErr) (xs : List ℕ)
    → All (λ x. x < 2 ^ 8) xs
    → length xs ≡ 16
    → IsAnswer (accept_new result (hex_text xs))
unfolding accept_new
accept_new-IsAnswer result xs bytes l =
    if_split IsAnswer (is_ok result) (λ e. inl (e, new-IsSecret xs bytes l))
      (λ e. inr (e, refl, refl))

accept_stored-IsAnswer :
    (result : EspErr) (stored : List ℕ)
    → length stored ≡ 33
    → IsAnswer (accept_stored result stored)
unfolding accept_stored
accept_stored-IsAnswer result stored l =
    if_split IsAnswer (not (is_ok result)) (λ e. inr (ground arith, refl, refl))
      (λ e.
        if_split IsAnswer (not (all_hexadecimal (take 32 stored))) (λ e. inr (refl, refl, refl))
          (λ digits.
            if_split IsAnswer (get_or stored 32 0 == 0)
              (λ ended. inl (
                refl,
                record { size = l; digits = not-false _ digits; ended = (==_iff _ _).0 ended },
              ))
              (λ e. inr (refl, refl, refl))))

-- What is relied on: 33 bytes are read into the array of 33, and 16 bytes are random.
pub record IsStrings {W : Type 0} (strings : Strings W) : Type 0 where
  pub got_size : (h : ℕ) (w : W) → length (strings.get_string h w).1 ≡ 33
  pub random_size : (w : W) → length (strings.random_bytes w).0 ≡ 16
  pub random_range : (w : W) → All (λ x. x < 2 ^ 8) (strings.random_bytes w).0

module _ {W : Type 0} (nvs : Nvs W) {strings : Strings W} (ok : IsStrings strings) where
  secret_locked-IsAnswer : (s : Store W) → IsAnswer (secret_locked nvs strings s).0
  unfolding secret_locked
  secret_locked-IsAnswer s =
      let P = λ (t : Answer × Store W). IsAnswer t.0 in
      let handle = (nvs.nvs_open read_write s.world).1 in
      let sized = strings.string_size handle (nvs.nvs_open read_write s.world).2 in
      let random = strings.random_bytes sized.2 in
      let set = strings.set_string handle (hex_text random.0) random.1 in
      let bytes = ok.random_range sized.2 in
      let enough = ok.random_size sized.2 in
      if_split P (not (is_ok (nvs.nvs_open read_write s.world).0))
        (λ e. inr (not-true _ e, refl, refl))
        (λ e.
          if_split P (is_not_found sized.0)
            (λ e.
              if_split P (is_ok set.0)
                (λ e. accept_new-IsAnswer (nvs.commit handle set.1).0 random.0 bytes enough)
                (λ e. accept_new-IsAnswer set.0 random.0 bytes enough))
            (λ e.
              if_split P (not (is_ok sized.0)) (λ e. inr (not-true _ e, refl, refl))
                (λ e.
                  if_split P (not (sized.1 == setup_secret_length + 1))
                    (λ e. inr (refl, refl, refl))
                    (λ e.
                      accept_stored-IsAnswer (strings.get_string handle sized.2).0
                        (strings.get_string handle sized.2).1 (ok.got_size handle sized.2)))))

  -- The setup secret is handed out whole or not at all: a call with pointers that are not NULL
  -- returns ESP_OK and an array of 32 hexadecimal digits and a NUL, or it returns an error, and
  -- then the array is all zeros and the secret is not reported as generated.
  pub get_or_create_setup_secret_lem :
      (before : List ℕ × Bool) (s : Store W)
      → let ((result, after), s') = get_or_create_setup_secret nvs strings (some before) s in
        IsAnswer (result, (answer_of after).0, (answer_of after).1)
  unfolding get_or_create_setup_secret locked configuration_lock
  get_or_create_setup_secret_lem before s =
      if_split (λ (t : Answer × Store W). IsAnswer t.0) (is_ok (configuration_lock nvs s).0)
        (λ e. secret_locked-IsAnswer (configuration_lock nvs s).1) (λ e. inr (e, refl, refl))
