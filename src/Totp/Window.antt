-- ===== src/Totp/Window.antt =====
-- internal/core/totp.go: the shape of a code, and when it is accepted.
use sampmail.Prelude.{
  ℕ, zero, suc, ◌+◌, ◌-◌, ◌*◌, ◌/◌, ◌%◌, ◌^◌, ◌≤◌, ◌≡◌, ◌⊎◌, inl, inr, refl, ap, ◌∙◌, Bool, true,
  false, ◌||◌, Option, none, some, [], ◌∷◌, Text, text_eq, ◌==◌, ==_refl, arith, length,
  length-append, get_elem?_total, All,
}
use sampmail.Prelude.Split.{All-append}
use sampmail.Totp.{
  Bytes, Crypto, uint32_at, truncation, zero_padded, totp_digits, put_uint64, key_of, print_code,
  code_of, generate_totp_code, get_current_totp, accepts, validate_totp,
}

abbrev pub Digit : ℕ → Type 0
Digit c = (b'0' ≤ c) × (c ≤ b'9')

length-zero_padded : (w n : ℕ) → length (zero_padded w n) ≡ w
unfolding zero_padded
length-zero_padded zero n = refl
length-zero_padded (suc w) n = omega (
  arith,
  length-append (zero_padded w (n / 10)) ((b'0' + n % 10) ∷ []),
  length-zero_padded w (n / 10),
)

zero_padded-Digit : (w n : ℕ) → All Digit (zero_padded w n)
unfolding zero_padded
zero_padded-Digit zero n = tt
zero_padded-Digit (suc w) n =
    All-append Digit (zero_padded w (n / 10)) ((b'0' + n % 10) ∷ []) (zero_padded-Digit w (n / 10))
      ((omega arith, omega arith), tt)

uint32_at_total :
    (hash : Bytes) (i : ℕ) → i + 4 ≤ length hash → (n : ℕ) × (uint32_at hash i ≡ some n)
unfolding uint32_at
uint32_at_total hash i h =
    let (a, ea) = get_elem?_total hash i (omega arith) in
    let (b, eb) = get_elem?_total hash (i + 1) (omega arith) in
    let (c, ec) = get_elem?_total hash (i + 2) (omega arith) in
    let (d, ed) = get_elem?_total hash (i + 3) (omega arith) in
    (((a * 256 + b) * 256 + c) * 256 + d, rw (ea, eb, ec, ed) refl)

-- The slice of a hash of 20 bytes is in range, whatever its last byte.
truncation_total : (hash : Bytes) → length hash ≡ 20 → (n : ℕ) × (truncation hash ≡ some n)
unfolding truncation
truncation_total hash h =
    let (last, e) = get_elem?_total hash (length hash - 1) (omega arith) in
    let (word, k) = uint32_at_total hash (last % 16) (omega arith) in
    (word % 2 ^ 31, rw (e, k) refl)

module _ (cr : Crypto) where
  open cr use {hmac, length-hmac}

  abbrev pub IsCode : Text → Type 0
  IsCode code = (length code ≡ 6) × All Digit code

  abbrev pub HasCode : Option Bytes → Option Text → Type 0
  HasCode key none = ⊥
  HasCode none (some code) = code ≡ []
  HasCode (some key) (some code) = IsCode code

  printed : (o : Option ℕ) (n : ℕ) (key : Bytes) → o ≡ some n → HasCode (some key) (print_code cr o)
  printed none n key e = cc e
  printed (some m) n key e =
      (length-zero_padded 6 (m % 10 ^ totp_digits), zero_padded-Digit 6 (m % 10 ^ totp_digits))

  code_of-HasCode : (key : Option Bytes) (counter : ℕ) → HasCode key (code_of cr key counter)
  code_of-HasCode none counter = refl
  code_of-HasCode (some key) counter =
      let hash = hmac key (put_uint64 counter) in
      let (n, e) = truncation_total hash (length-hmac key (put_uint64 counter)) in
      printed (truncation hash) n key e

  -- For every secret and counter the code is computed with no slice out of range: six decimal digits if
  -- the secret decodes, with or without padding, and the empty text if it does not.
  pub generate_totp_code-HasCode :
      (secret : Text) (counter : ℕ)
      → HasCode (key_of cr secret) (generate_totp_code cr secret counter)
  unfolding generate_totp_code
  generate_totp_code-HasCode secret counter = code_of-HasCode (key_of cr secret) counter

  accepts_self : (code : Text) (o : Option Text) → o ≡ some code → accepts cr code o ≡ true
  accepts_self code none e = cc e
  accepts_self code (some other) e = let k : other ≡ code = cc e in rw k (==_refl code)

  or_left : (a b c : Bool) → a ≡ true → a || (b || c) ≡ true
  or_left true b c h = refl
  or_left false b c h = cc h

  or_middle : (a b c : Bool) → b ≡ true → a || (b || c) ≡ true
  or_middle a b c h = ground arith

  or_right : (a b c : Bool) → c ≡ true → a || (b || c) ≡ true
  or_right a b c h = ground arith

  near :
      (s t : ℕ)
      → 30 ≤ t
      → s ≤ t + 30
      → t ≤ s + 30
      → ((t - 30) / 30 ≡ s / 30) ⊎ ((t / 30 ≡ s / 30) ⊎ ((t + 30) / 30 ≡ s / 30))
  near s t h a b = ground arith

  window :
      (g : ℕ → Option Text) (code : Text) (s t : ℕ)
      → g (s / 30) ≡ some code
      → ((t - 30) / 30 ≡ s / 30) ⊎ ((t / 30 ≡ s / 30) ⊎ ((t + 30) / 30 ≡ s / 30))
      → accepts cr code (g ((t - 30) / 30))
          || (accepts cr code (g (t / 30)) || accepts cr code (g ((t + 30) / 30)))
        ≡ true
  window g code s t shown (inl e) =
      or_left (accepts cr code (g ((t - 30) / 30))) (accepts cr code (g (t / 30)))
        (accepts cr code (g ((t + 30) / 30)))
        (accepts_self code (g ((t - 30) / 30)) (ap g e ∙ shown))
  window g code s t shown (inr (inl e)) =
      or_middle (accepts cr code (g ((t - 30) / 30))) (accepts cr code (g (t / 30)))
        (accepts cr code (g ((t + 30) / 30))) (accepts_self code (g (t / 30)) (ap g e ∙ shown))
  window g code s t shown (inr (inr e)) =
      or_right (accepts cr code (g ((t - 30) / 30))) (accepts cr code (g (t / 30)))
        (accepts cr code (g ((t + 30) / 30)))
        (accepts_self code (g ((t + 30) / 30)) (ap g e ∙ shown))

  -- The code that is shown at a time is accepted at every time from 30 seconds before it to 30 seconds
  -- after it.
  pub validate_totp-current :
      (secret code : Text) (s t : ℕ)
      → get_current_totp cr secret s ≡ some code
      → 30 ≤ t
      → s ≤ t + 30
      → t ≤ s + 30
      → validate_totp cr secret code t ≡ true
  unfolding validate_totp get_current_totp
  validate_totp-current secret code s t shown h a b =
      window (generate_totp_code cr secret) code s t shown (near s t h a b)

  undecodable :
      (o : Option Bytes) (code : Text)
      → o ≡ none
      → (n : ℕ) → accepts cr code (code_of cr o n) ≡ ([] == code)
  undecodable none code e n = refl
  undecodable (some key) code e n = cc e

  or_thrice : (b : Bool) → b || (b || b) ≡ b
  or_thrice true = refl
  or_thrice false = refl

  -- For a secret that does not decode, at any time, the empty code is accepted, and no other.
  pub validate_totp-undecodable :
      (secret code : Text) (t : ℕ)
      → key_of cr secret ≡ none
      → validate_totp cr secret code t ≡ ([] == code)
  unfolding validate_totp
  validate_totp-undecodable secret code t h =
      let k = undecodable (key_of cr secret) code h in
      rw (k ((t - 30) / 30), k (t / 30), k ((t + 30) / 30)) (or_thrice ([] == code))
