-- ===== src/Totp/Tests.antt =====
-- Runs of internal/core/totp.go with a hash that repeats the last byte of the counter.
use sampmail.Prelude.{
  ℕ, ◌≡◌, refl, true, Option, none, some, [], ◌∷◌, Text, codes, text_eq, nat_eq, ◌==◌,
  if◌then◌else◌,
}
use sampmail.Prelude.Strings.{trim_space}
use sampmail.Totp.{Bytes, Crypto, get_current_totp, validate_totp, key_of, to_upper}
use sampmail.Totp.Window.{validate_totp-undecodable}

abbrev twenty : ℕ → Bytes
twenty b = b ∷ b ∷ b ∷ b ∷ b ∷ b ∷ b ∷ b ∷ b ∷ b ∷ b ∷ b ∷ b ∷ b ∷ b ∷ b ∷ b ∷ b ∷ b ∷ b ∷ []

abbrev last_byte : Bytes → ℕ
last_byte [] = 0
last_byte (b ∷ []) = b
last_byte (b ∷ c ∷ r) = last_byte (c ∷ r)

-- It decodes what begins with `A`.
abbrev begins : Text → Option Bytes
begins [] = none
begins (c ∷ s) = if c == b'A' then some s else none

abbrev toy : Crypto
toy = record {
  decode = begins;
  decode_padded = begins;
  hmac = λ key message. twenty (last_byte message);
  length-hmac = λ key message. refl;
}

shown : get_current_totp toy (codes " ab") 90 ≡ some (codes "529027")
unfolding get_current_totp to_upper trim_space
shown = refl

-- The empty code passes where the secret is spoilt.
validate_totp-undecodable_example : validate_totp toy (codes "1") [] 90 ≡ true
unfolding key_of to_upper trim_space
validate_totp-undecodable_example = validate_totp-undecodable toy (codes "1") [] 90 refl
