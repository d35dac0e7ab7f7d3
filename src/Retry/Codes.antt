-- ===== src/Retry/Codes.antt =====
-- internal/core/retry.go: the codes that `extractSMTPCode` and `extractEnhancedCode` read off a reply.
use sampmail.Prelude.{
  ℕ, ◌≡◌, ◌≢◌, ◌⊎◌, inl, inr, refl, true, ◌&&◌, Option, none, some, [], ◌∷◌, Text, codes, arith,
  length, nat_eq, ◌==◌, Bool-cases,
}
use sampmail.Retry.Patterns.{
  enhanced_code_here, extract_smtp_code, extract_enhanced_code, is_digit, is_blank, or_later,
}

-- A reply that begins with three digits and a blank has those digits as its code.
pub extract_smtp_code-reply :
    (a b c d : ℕ) (rest : Text)
    → is_digit a ≡ true
    → is_digit b ≡ true
    → is_digit c ≡ true
    → is_blank d ≡ true
    → extract_smtp_code (a ∷ b ∷ c ∷ d ∷ rest) ≡ a ∷ b ∷ c ∷ []
unfolding extract_smtp_code
extract_smtp_code-reply a b c d rest p q r s = rw (p, q, r, s)

here_length : (s t : Text) → enhanced_code_here s ≡ some t → length t ≡ 5
unfolding enhanced_code_here
here_length [] t h = cc
here_length (_ ∷ []) t h = cc
here_length (_ ∷ _ ∷ []) t h = cc
here_length (_ ∷ _ ∷ _ ∷ []) t h = cc
here_length (_ ∷ _ ∷ _ ∷ _ ∷ []) t h = cc
here_length (a ∷ p ∷ b ∷ q ∷ c ∷ s) t h =
    elim (Bool-cases (is_digit a && p == b'.' && is_digit b && q == b'.' && is_digit c)) [
      | inl found ↦ let e : t ≡ a ∷ p ∷ b ∷ q ∷ c ∷ [] = ground (arith, found) in rw e refl
      | inr other ↦ ground (arith, other)
    ]

found_length :
    (o : Option Text) (s later : Text)
    → enhanced_code_here s ≡ o
    → (later ≡ []) ⊎ (length later ≡ 5)
    → (or_later o later ≡ []) ⊎ (length (or_later o later) ≡ 5)
found_length none s later e h = h
found_length (some t) s later e h = inr (here_length s t e)

-- An enhanced code has one digit in each place: it is empty or five characters long.
pub extract_enhanced_code-length :
    (s : Text) → (extract_enhanced_code s ≡ []) ⊎ (length (extract_enhanced_code s) ≡ 5)
unfolding extract_enhanced_code
extract_enhanced_code-length [] = inl refl
extract_enhanced_code-length (c ∷ s) =
    found_length (enhanced_code_here (c ∷ s)) (c ∷ s) (extract_enhanced_code s) refl
      (extract_enhanced_code-length s)

other_length : (s : Text) → (s ≡ []) ⊎ (length s ≡ 5) → s ≢ codes "5.7.26"
other_length s (inl e) k = cc (e, k)
other_length s (inr e) k = let l : length s ≡ 6 = rw k refl in absurd (omega (arith, l))

-- The code 5.7.26 of the default policy's list is never read off an error: the last digit is cut off.
pub extract_enhanced_code-ne : (s : Text) → extract_enhanced_code s ≢ codes "5.7.26"
extract_enhanced_code-ne s = other_length (extract_enhanced_code s) (extract_enhanced_code-length s)
