-- ===== src/Suppression/Normal.antt =====
-- internal/store/db.go: the normal form of an address is its own normal form.
use sampmail.Prelude.{
  ℕ, ◌≡◌, refl, sym, ap, ◌∙◌, true, false, [], ◌∷◌, ◌++◌, Text, nat_eq, arith, Bool-cases, inl, inr,
}
use mathlib.Core.List.{reverse, reverse-append, reverse-reverse}
use mathlib.Core.Path.{subst}
use sampmail.Prelude.Strings.{lower, to_lower, is_space, trim_left, trim_space}
use sampmail.Prelude.Split.{to_lower-append}
use sampmail.Suppression.{normalize}

lower_lem : (c : ℕ) → lower (lower c) ≡ lower c
lower_lem c = ground arith

to_lower_lem : (s : Text) → to_lower (to_lower s) ≡ to_lower s
unfolding to_lower
to_lower_lem [] = refl
to_lower_lem (c ∷ s) = rw (lower_lem c) (ap (λ t. lower c ∷ t) (to_lower_lem s))

is_space-lower : (c : ℕ) → is_space (lower c) ≡ is_space c
is_space-lower c = ground arith

trim_left-to_lower : (s : Text) → trim_left (to_lower s) ≡ to_lower (trim_left s)
unfolding trim_left to_lower
trim_left-to_lower [] = refl
trim_left-to_lower (c ∷ s) = elim (Bool-cases (is_space c)) [
  | inl e ↦
      let k : is_space (lower c) ≡ true = is_space-lower c ∙ e in
      rw (k, trim_left) (rw (e, trim_left) (trim_left-to_lower s))
  | inr e ↦
      let k : is_space (lower c) ≡ false = is_space-lower c ∙ e in
      rw (k, trim_left) (rw (e, trim_left) refl)
]

reverse-cons : (c : ℕ) (s : Text) → reverse (c ∷ s) ≡ reverse s ++ c ∷ []
reverse-cons c s = reverse-append (c ∷ []) s

reverse-to_lower : (s : Text) → reverse (to_lower s) ≡ to_lower (reverse s)
unfolding to_lower
reverse-to_lower [] = refl
reverse-to_lower (c ∷ s) =
    reverse-cons (lower c) (to_lower s)
    ∙ ap (λ u. u ++ lower c ∷ []) (reverse-to_lower s)
    ∙ sym (to_lower-append (reverse s) (c ∷ []))
    ∙ ap to_lower (sym (reverse-cons c s))

trim_space-to_lower : (s : Text) → trim_space (to_lower s) ≡ to_lower (trim_space s)
unfolding trim_space
trim_space-to_lower s =
    ap (λ u. reverse (trim_left (reverse u))) (trim_left-to_lower s)
    ∙ ap (λ u. reverse (trim_left u)) (reverse-to_lower (trim_left s))
    ∙ ap reverse (trim_left-to_lower (reverse (trim_left s)))
    ∙ reverse-to_lower (trim_left (reverse (trim_left s)))

-- A text without white space at its head.
abbrev Starts : Text → Type 0
Starts [] = Unit {0}
Starts (c ∷ s) = is_space c ≡ false

trim_left-Starts : (s : Text) → Starts (trim_left s)
unfolding trim_left
trim_left-Starts [] = tt
trim_left-Starts (c ∷ s) = elim (Bool-cases (is_space c)) [
  | inl e ↦ rw (e, trim_left) (trim_left-Starts s)
  | inr e ↦ rw (e, trim_left) e
]

trim_left-same : (s : Text) → Starts s → trim_left s ≡ s
unfolding trim_left
trim_left-same [] h = refl
trim_left-same (c ∷ s) h = rw (h, trim_left) refl

trim_left-append_last :
    (s : Text) (c : ℕ) → is_space c ≡ false → trim_left (s ++ c ∷ []) ≡ trim_left s ++ c ∷ []
unfolding trim_left
trim_left-append_last [] c h = rw (h, trim_left) refl
trim_left-append_last (d ∷ s) c h = elim (Bool-cases (is_space d)) [
  | inl e ↦ rw (e, trim_left) (trim_left-append_last s c h)
  | inr e ↦ rw (e, trim_left) refl
]

-- Cutting white space off the end leaves the head as it is.
cut-Starts : (s : Text) → Starts s → Starts (reverse (trim_left (reverse s)))
unfolding trim_left
cut-Starts [] h = tt
cut-Starts (c ∷ s) h =
    let e : reverse (trim_left (reverse (c ∷ s))) ≡ c ∷ reverse (trim_left (reverse s)) =
      ap (λ u. reverse (trim_left u)) (reverse-cons c s)
      ∙ ap reverse (trim_left-append_last (reverse s) c h)
      ∙ reverse-append (trim_left (reverse s)) (c ∷ []) in
    subst Starts (sym e) h

pub trim_space_lem : (s : Text) → trim_space (trim_space s) ≡ trim_space s
unfolding trim_space
trim_space_lem s =
    let y = trim_left (reverse (trim_left s)) in
    let head : trim_left (reverse y) ≡ reverse y =
      trim_left-same (reverse y) (cut-Starts (trim_left s) (trim_left-Starts s)) in
    let back : trim_left (reverse (reverse y)) ≡ y =
      ap trim_left (reverse-reverse y)
      ∙ trim_left-same y (trim_left-Starts (reverse (trim_left s))) in
    ap (λ u. reverse (trim_left (reverse u))) head ∙ ap reverse back

pub normalize_lem : (s : Text) → normalize (normalize s) ≡ normalize s
unfolding normalize
normalize_lem s =
    ap to_lower (trim_space-to_lower (trim_space s))
    ∙ to_lower_lem (trim_space (trim_space s))
    ∙ ap to_lower (trim_space_lem s)
