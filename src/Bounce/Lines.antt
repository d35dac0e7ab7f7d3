-- ===== src/Bounce/Lines.antt =====
-- internal/core/bounce_processor.go: `parseLogLine`. Each regular expression is written as a function
-- that matches at the head of a text; `leftmost` tries it at each place.
use sampmail.Prelude.{
  ℕ, Bool, true, false, ◌&&◌, ◌||◌, Option, none, some, List, [], ◌∷◌, ◌++◌, Text, codes, text_eq,
  nat_eq, ◌==◌, leb, if◌then◌else◌,
}
use sampmail.Prelude.Strings.{to_lower, any_pattern, digits_value}
use sampmail.Bounce.{hard, soft, Info}

abbrev pub is_digit : ℕ → Bool
is_digit c = leb b'0' c && leb c b'9'

-- `\s` of a regular expression
abbrev is_blank : ℕ → Bool
is_blank c = c == 9 || c == 10 || c == 12 || c == 13 || c == 32

-- What is left of a text after a literal that it must begin with.
unfoldable pub after : Text → Text → Option Text
after [] s = some s
after (c ∷ cs) [] = none
after (c ∷ cs) (d ∷ s) = elim (c == d) [ true ↦ after cs s | false ↦ none ]

skip_blanks : Text → Text
skip_blanks [] = []
skip_blanks (c ∷ s) = elim (is_blank c) [ true ↦ skip_blanks s | false ↦ c ∷ s ]

abbrev pub then_read : Option Text → (Text → Option Text) → Option Text
then_read none next = none
then_read (some s) next = next s

-- "key"\s*:\s*
after_key : Text → Text → Option Text
unfolding after skip_blanks
after_key key s =
    then_read (after (b'"' ∷ (key ++ b'"' ∷ [])) s)
      λ r. then_read (after (b':' ∷ []) (skip_blanks r)) λ t. some (skip_blanks t)

-- [^"]*"
until_quote : Text → Option Text
until_quote [] = none
until_quote (c ∷ s) = elim (c == b'"') [
  | true ↦ some []
  | false ↦ elim (until_quote s) [ none ↦ none | some t ↦ some (c ∷ t) ]
]

abbrev non_empty : Text → Option Text
non_empty [] = none
non_empty (c ∷ s) = some (c ∷ s)

-- "([^"]+)"
quoted : Text → Option Text
unfolding after until_quote
quoted s = then_read (after (b'"' ∷ []) s) λ r. then_read (until_quote r) non_empty

three_then_quote : Text → Option Text
unfolding until_quote
three_then_quote (a ∷ b ∷ c ∷ r) =
    if is_digit a && is_digit b && is_digit c
    then elim (until_quote r) [ none ↦ none | some t ↦ some (a ∷ b ∷ c ∷ []) ]
    else none
three_then_quote [] = none
three_then_quote (_ ∷ []) = none
three_then_quote (_ ∷ _ ∷ []) = none

-- "(\d{3})[^"]*"
quoted_code : Text → Option Text
unfolding after three_then_quote
quoted_code s = then_read (after (b'"' ∷ []) s) three_then_quote

digits : Text → Text
digits [] = []
digits (c ∷ s) = elim (is_digit c) [ true ↦ c ∷ digits s | false ↦ [] ]

abbrev without_quote : Text → Text
without_quote [] = []
without_quote (c ∷ s) = if c == b'"' then s else c ∷ s

-- "?(\d+)"?
number : Text → Option Text
unfolding digits
number s = non_empty (digits (without_quote s))

abbrev or_else : Option Text → Option Text → Option Text
or_else none later = later
or_else (some t) later = some t

unfoldable pub leftmost : (Text → Option Text) → Text → Option Text
leftmost match [] = match []
leftmost match (c ∷ s) = or_else (match (c ∷ s)) (leftmost match s)

unfoldable pub find_recipient : Text → Option Text
unfolding leftmost after_key quoted
find_recipient = leftmost (λ s. then_read (after_key (codes "recipient") s) quoted)

unfoldable pub find_response_code : Text → Option Text
unfolding leftmost after_key quoted_code
find_response_code = leftmost (λ s. then_read (after_key (codes "response") s) quoted_code)

unfoldable pub find_campaign : Text → Option Text
unfolding leftmost after_key number
find_campaign = leftmost (λ s. then_read (after_key (codes "campaign") s) number)

unfoldable pub find_bounce_class : Text → Option Text
unfolding leftmost after_key quoted
find_bounce_class = leftmost (λ s.
    or_else (then_read (after_key (codes "bounce_class") s) quoted)
      (then_read (after_key (codes "bounce_classification") s) quoted))

abbrev pub hard_bounce_codes : List Text
hard_bounce_codes =
    codes "550"
    ∷ codes "551"
    ∷ codes "552"
    ∷ codes "553"
    ∷ codes "554"
    ∷ codes "511"
    ∷ codes "512"
    ∷ codes "513"
    ∷ codes "5.1.0"
    ∷ codes "5.1.1"
    ∷ codes "5.1.2"
    ∷ codes "5.1.3"
    ∷ codes "5.2.1"
    ∷ codes "5.2.2"
    ∷ codes "5.4.1"
    ∷ []

abbrev pub is_one_of : Text → List Text → Bool
is_one_of s [] = false
is_one_of s (t ∷ ts) = s == t || is_one_of s ts

-- The words of a classification that make a bounce hard.
abbrev pub hard_words : List Text
hard_words = codes "invalid" ∷ codes "unknown" ∷ codes "bad_mailbox" ∷ codes "no_such_user" ∷ []

abbrev or_empty : Option Text → Text
or_empty none = []
or_empty (some t) = t

abbrev value_of : Option Text → ℕ
value_of none = 0
value_of (some t) = elim (digits_value 0 t) [ none ↦ 0 | some n ↦ n ]

abbrev says_hard : Option Text → Option Text → Bool
says_hard code class =
    is_one_of (or_empty code) hard_bounce_codes
    || any_pattern (to_lower (or_empty class)) hard_words

-- The result, of what the four expressions found.
unfoldable pub info_of : Option Text → Option Text → Option Text → Option Text → Info
info_of recipient code campaign class = record {
  recipient = or_empty recipient;
  bounce_type = if says_hard code class then hard else soft;
  code = or_empty code;
  diagnostic = or_empty class;
  campaign = value_of campaign;
}

unfoldable pub parse_log_line : Text → Info
unfolding info_of
parse_log_line line =
    info_of (find_recipient line) (find_response_code line) (find_campaign line)
      (find_bounce_class line)

-- The lines that are looked at.
unfoldable pub is_bounce_line : Text → Bool
is_bounce_line line =
    any_pattern line (codes "Bounce" ∷ codes "bounce" ∷ codes "reject" ∷ codes "Reject" ∷ [])
