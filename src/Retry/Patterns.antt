-- ===== src/Retry/Patterns.antt =====
-- internal/core/retry.go: the codes and the phrases that are looked for in the text of an error.
use sampmail.Prelude.{
  ℕ, Bool, true, false, ◌&&◌, ◌||◌, Option, none, some, List, [], ◌∷◌, Text, codes, text_eq, nat_eq,
  ◌==◌, leb, if◌then◌else◌,
}
use sampmail.Prelude.Strings.{to_lower, contains, any_pattern}

-- `net_error`: it implements `net.Error`, and whether that is a timeout.
pub record Error : Type 0 where
  pub text : Text
  pub deadline_exceeded : Bool
  pub net_error : Option Bool

abbrev pub is_digit : ℕ → Bool
is_digit c = leb b'0' c && leb c b'9'

-- `\s` of a regular expression
abbrev pub is_blank : ℕ → Bool
is_blank c = c == 9 || c == 10 || c == 12 || c == 13 || c == 32

-- What `(\d{3})\s` matches at the head of a text, and `(\d\.\d\.\d)`.
unfoldable pub smtp_code_here : Text → Option Text
smtp_code_here (a ∷ b ∷ c ∷ d ∷ s) =
    if is_digit a && is_digit b && is_digit c && is_blank d then some (a ∷ b ∷ c ∷ []) else none
smtp_code_here [] = none
smtp_code_here (_ ∷ []) = none
smtp_code_here (_ ∷ _ ∷ []) = none
smtp_code_here (_ ∷ _ ∷ _ ∷ []) = none

unfoldable pub enhanced_code_here : Text → Option Text
enhanced_code_here (a ∷ p ∷ b ∷ q ∷ c ∷ s) =
    if is_digit a && p == b'.' && is_digit b && q == b'.' && is_digit c
    then some (a ∷ p ∷ b ∷ q ∷ c ∷ [])
    else none
enhanced_code_here [] = none
enhanced_code_here (_ ∷ []) = none
enhanced_code_here (_ ∷ _ ∷ []) = none
enhanced_code_here (_ ∷ _ ∷ _ ∷ []) = none
enhanced_code_here (_ ∷ _ ∷ _ ∷ _ ∷ []) = none

abbrev pub or_later : Option Text → Text → Text
or_later none later = later
or_later (some found) later = found

-- The leftmost match, or the empty text.
unfoldable pub extract_smtp_code : Text → Text
unfolding smtp_code_here
extract_smtp_code [] = []
extract_smtp_code (c ∷ s) = or_later (smtp_code_here (c ∷ s)) (extract_smtp_code s)

unfoldable pub extract_enhanced_code : Text → Text
unfolding enhanced_code_here
extract_enhanced_code [] = []
extract_enhanced_code (c ∷ s) = or_later (enhanced_code_here (c ∷ s)) (extract_enhanced_code s)

abbrev pub rate_limit_patterns : List Text
rate_limit_patterns =
    codes "rate limit"
    ∷ codes "too many"
    ∷ codes "throttl"
    ∷ codes "limit exceeded"
    ∷ codes "try again later"
    ∷ codes "slow down"
    ∷ codes "connection rate"
    ∷ codes "message rate"
    ∷ []

abbrev pub connection_patterns : List Text
connection_patterns =
    codes "connection refused"
    ∷ codes "connection reset"
    ∷ codes "connection closed"
    ∷ codes "broken pipe"
    ∷ codes "no route to host"
    ∷ codes "network is unreachable"
    ∷ codes "i/o timeout"
    ∷ codes "deadline exceeded"
    ∷ []

abbrev pub auth_patterns : List Text
auth_patterns =
    codes "authentication failed"
    ∷ codes "auth failed"
    ∷ codes "invalid credentials"
    ∷ codes "login failed"
    ∷ codes "access denied"
    ∷ codes "535"
    ∷ codes "5.7.8"
    ∷ codes "5.7.0"
    ∷ []

abbrev pub greylist_patterns : List Text
greylist_patterns =
    codes "greylist"
    ∷ codes "graylist"
    ∷ codes "try again later"
    ∷ codes "come back later"
    ∷ codes "temporarily rejected"
    ∷ codes "451 4.7.1"
    ∷ []

abbrev pub dns_patterns : List Text
dns_patterns =
    codes "no such domain"
    ∷ codes "domain not found"
    ∷ codes "dns error"
    ∷ codes "mx lookup"
    ∷ codes "no mx record"
    ∷ codes "host not found"
    ∷ codes "name or service not known"
    ∷ []

unfoldable pub is_rate_limit_error : Text → Bool
is_rate_limit_error s = any_pattern (to_lower s) rate_limit_patterns

abbrev pub is_some : Option Bool → Bool
is_some none = false
is_some (some _) = true

unfoldable pub is_connection_error : Error → Bool
is_connection_error e = any_pattern (to_lower e.text) connection_patterns || is_some e.net_error

unfoldable pub is_auth_error : Text → Bool
is_auth_error s = any_pattern (to_lower s) auth_patterns

unfoldable pub is_greylisting : Text → Bool
is_greylisting s = any_pattern (to_lower s) greylist_patterns

unfoldable pub is_dns_failure : Text → Bool
is_dns_failure s = any_pattern (to_lower s) dns_patterns

abbrev pub timed_out : Option Bool → Bool
timed_out none = false
timed_out (some timeout) = timeout

unfoldable pub is_timeout : Error → Bool
is_timeout e =
    e.deadline_exceeded
    || timed_out e.net_error
    || contains (to_lower e.text) (codes "timeout")
    || contains (to_lower e.text) (codes "deadline")

abbrev pub find_code : Text → Text → List Text → Option Text
find_code smtp enhanced [] = none
find_code smtp enhanced (c ∷ cs) =
    if smtp == c || enhanced == c then some c else find_code smtp enhanced cs
