-- ===== src/Totp.antt =====
-- internal/core/totp.go: one-time passwords by time. Base32 and HMAC-SHA1 are parameters; of the HMAC
-- the code relies on its length of 20 bytes. Times are seconds since 1970, from 30 on. A slice out of
-- range would be a panic (`none`).
pub mod Window
mod Tests
use sampmail.Prelude.{
  ℕ, zero, suc, ◌+◌, ◌-◌, ◌*◌, ◌/◌, ◌%◌, ◌^◌, ◌≡◌, Bool, true, false, ◌&&◌, ◌||◌, Option, none,
  some, List, [], ◌∷◌, ◌++◌, Text, codes, text_eq, nat_eq, ◌==◌, leb, ltb, length, get_elem?,
  if◌then◌else◌,
}
use sampmail.Prelude.Strings.{trim_space}

abbrev pub Bytes : Type 0
Bytes = List ℕ

pub record Crypto : Type 0 where
  pub decode : Text → Option Bytes
  pub decode_padded : Text → Option Bytes
  pub hmac : Bytes → Bytes → Bytes
  pub length-hmac : (key message : Bytes) → length (hmac key message) ≡ 20

abbrev pub upper : ℕ → ℕ
upper c = if leb b'a' c && leb c b'z' then c - 32 else c

unfoldable pub to_upper : Text → Text
to_upper [] = []
to_upper (c ∷ s) = upper c ∷ to_upper s

abbrev pub period : ℕ
period = 30

-- `for len(secret)%8 != 0 { secret += "=" }`: seven rounds are enough, since each adds one character.
unfoldable pub pad : ℕ → Text → Text
pad zero s = s
pad (suc rounds) s =
    let longer = pad rounds (s ++ b'=' ∷ []) in if length s % 8 == 0 then s else longer

-- The eight bytes of a counter, the highest first.
unfoldable pub put_uint64 : ℕ → Bytes
put_uint64 n =
    n / 2 ^ 56 % 256
    ∷ n / 2 ^ 48 % 256
    ∷ n / 2 ^ 40 % 256
    ∷ n / 2 ^ 32 % 256
    ∷ n / 2 ^ 24 % 256
    ∷ n / 2 ^ 16 % 256
    ∷ n / 2 ^ 8 % 256
    ∷ n % 256
    ∷ []

abbrev pub and_then : Option ℕ → (ℕ → Option ℕ) → Option ℕ
and_then none f = none
and_then (some x) f = f x

-- binary.BigEndian.Uint32(hash[offset : offset+4])
unfoldable pub uint32_at : Bytes → ℕ → Option ℕ
uint32_at hash i = and_then (get_elem? hash i) λ a. and_then (get_elem? hash (i + 1)) λ b.
    and_then (get_elem? hash (i + 2))
      λ c. and_then (get_elem? hash (i + 3)) λ d. some (((a * 256 + b) * 256 + c) * 256 + d)

-- The dynamic truncation: `& 0x0f` and `& 0x7fffffff` are remainders.
unfoldable pub truncation : Bytes → Option ℕ
unfolding uint32_at
truncation hash =
    and_then (get_elem? hash (length hash - 1))
      λ last. and_then (uint32_at hash (last % 16)) λ word. some (word % 2 ^ 31)

-- %0*d of a number with at most so many digits.
unfoldable pub zero_padded : ℕ → ℕ → Text
zero_padded zero n = []
zero_padded (suc width) n = zero_padded width (n / 10) ++ (b'0' + n % 10) ∷ []

abbrev pub totp_digits : ℕ
totp_digits = 6

module _ (cr : Crypto) where
  open cr use {decode, decode_padded, hmac}

  abbrev pub or_padded : Option Bytes → Text → Option Bytes
  or_padded (some key) secret = some key
  or_padded none secret = decode_padded (pad 7 secret)

  -- The key of a secret, without padding or with it.
  unfoldable pub key_of : Text → Option Bytes
  unfolding pad to_upper
  key_of secret = let s = to_upper (trim_space secret) in or_padded (decode s) s

  abbrev pub print_code : Option ℕ → Option Text
  print_code none = none
  print_code (some code) = some (zero_padded totp_digits (code % 10 ^ totp_digits))

  abbrev pub code_of : Option Bytes → ℕ → Option Text
  code_of none counter = some []
  code_of (some key) counter = print_code (truncation (hmac key (put_uint64 counter)))

  -- generateTOTPCode
  unfoldable pub generate_totp_code : Text → ℕ → Option Text
  unfolding key_of truncation zero_padded put_uint64
  generate_totp_code secret counter = code_of (key_of secret) counter

  -- GetCurrentTOTP at a time
  unfoldable pub get_current_totp : Text → ℕ → Option Text
  unfolding generate_totp_code
  get_current_totp secret now = generate_totp_code secret (now / period)

  abbrev pub accepts : Text → Option Text → Bool
  accepts code none = false
  accepts code (some expected) = expected == code

  -- ValidateTOTP at a time: the period before, this one, and the next.
  unfoldable pub validate_totp : Text → Text → ℕ → Bool
  unfolding generate_totp_code
  validate_totp secret code now =
      accepts code (generate_totp_code secret ((now - period) / period))
      || (accepts code (generate_totp_code secret (now / period))
          || accepts code (generate_totp_code secret ((now + period) / period)))
