-- ===== src/Bounce/Accounts.antt =====
-- internal/core/bounce_processor.go and internal/core/bounce.go: the names of bounce accounts. The
-- files of a maildir are left out.
use sampmail.Prelude.{
  ℕ, ◌≤◌, ◌≡◌, refl, ◌≢◌, Bool, true, false, ◌&&◌, ◌||◌, [], ◌∷◌, Text, nat_eq, ◌==◌, leb, length,
  All, arith,
}

abbrev pub is_lower : ℕ → Bool
is_lower c = leb b'a' c && leb c b'z'

-- [a-z0-9_-]
abbrev pub is_name_char : ℕ → Bool
is_name_char c = is_lower c || (leb b'0' c && leb c b'9') || c == b'_' || c == b'-'

-- [a-zA-Z0-9_.-]
abbrev pub is_account_char : ℕ → Bool
is_account_char c = is_name_char c || (leb b'A' c && leb c b'Z') || c == b'.'

abbrev pub all_chars : (ℕ → Bool) → Text → Bool
all_chars p [] = true
all_chars p (c ∷ s) = p c && all_chars p s

-- validUsernameRe: ^[a-z][a-z0-9_-]{1,30}$
unfoldable pub valid_username : Text → Bool
valid_username [] = false
valid_username (c ∷ s) =
    is_lower c && all_chars is_name_char s && leb 1 (length s) && leb (length s) 30

-- The test of EnsureBounceAccount and RemoveSystemUser: ^[a-zA-Z0-9_.-]+$
unfoldable pub valid_account : Text → Bool
valid_account [] = false
valid_account (c ∷ s) = all_chars is_account_char (c ∷ s)

name_chars :
    (s : Text)
    → all_chars is_name_char s ≡ true
    → (all_chars is_account_char s ≡ true) × All (λ c. (c ≢ b'/') × (c ≢ b'.')) s
name_chars [] h = (refl, tt)
name_chars (c ∷ s) h =
    let ih = name_chars s (ground (arith, h)) in
    (ground (arith, ih.0), ((ground arith, ground arith), ih.1))

-- A maildir is read only for a name that the account's creation accepts as well, that has no slash and
-- no dot, and so stays one part of the path, and that has from 2 to 31 characters.
pub valid_username_lem :
    (name : Text)
    → valid_username name ≡ true
    → (valid_account name ≡ true)
      × All (λ c. (c ≢ b'/') × (c ≢ b'.')) name
      × (2 ≤ length name)
      × (length name ≤ 31)
unfolding valid_username valid_account
valid_username_lem [] h = absurd (cc)
valid_username_lem (c ∷ s) h =
    let rest = name_chars s (ground (arith, h)) in
    (ground (arith, rest.0), ((ground arith, ground arith), rest.1), ground arith, ground arith)
