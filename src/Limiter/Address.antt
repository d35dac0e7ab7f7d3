-- ===== src/Limiter/Address.antt =====
-- internal/core/domain_limiter.go: `ExtractDomain` on an address, and the domains that share a limit
-- with their parent.
use sampmail.Prelude.{
  ℕ, ◌≡◌, refl, ◌∙◌, false, List, [], ◌∷◌, ◌++◌, arith, Text, text_eq, nat_eq, ◌==◌, Bool-cases,
  inl, inr,
}
use sampmail.Prelude.Strings.{lower, to_lower, split}
use sampmail.Prelude.Split.{
  Lacks, NoSpace, All-append, split-Lacks, split-append, to_lower-append, trim_space_id,
}
use sampmail.Limiter.{extract_domain}

lower-at : (c : ℕ) → (c == b'@') ≡ false → (lower c == b'@') ≡ false
lower-at c h = ground arith

to_lower-Lacks : (s : Text) → Lacks b'@' s → Lacks b'@' (to_lower s)
unfolding to_lower
to_lower-Lacks [] h = tt
to_lower-Lacks (c ∷ s) h = (lower-at c h.0, to_lower-Lacks s h.1)

to_lower-address :
    (local domain : Text)
    → to_lower (local ++ b'@' ∷ domain) ≡ to_lower local ++ b'@' ∷ to_lower domain
to_lower-address local domain = to_lower-append local (b'@' ∷ domain) ∙ (unfold to_lower in refl)

-- Of an address without white space and with one `@` the domain is what follows it, in lower case.
pub extract_domain-address :
    (local domain : Text)
    → NoSpace local
    → NoSpace domain
    → Lacks b'@' local
    → Lacks b'@' domain
    → extract_domain (local ++ b'@' ∷ domain) ≡ to_lower domain
unfolding extract_domain
extract_domain-address local domain sl sd al ad =
    rw (trim_space_id (local ++ b'@' ∷ domain) (All-append _ local (b'@' ∷ domain) sl (refl, sd))) (
      rw (to_lower-address local domain) (
        rw (split-append b'@' (to_lower local) (to_lower domain) (to_lower-Lacks local al))
          (rw (split-Lacks b'@' (to_lower domain) (to_lower-Lacks domain ad)) refl)))

split_nonempty : (sep : ℕ) (s : Text) → (p : Text) × (ps : List Text) × (split sep s ≡ p ∷ ps)
unfolding split
split_nonempty sep [] = ([], [], refl)
split_nonempty sep (c ∷ s) =
    let (p, ps, e) = split_nonempty sep s in
    elim (Bool-cases (c == sep)) [
      | inl same ↦ ([], p ∷ ps, rw (same, e) refl)
      | inr other ↦ (c ∷ p, ps, rw (other, e) refl)
    ]

-- With two or more `@` there is no domain.
pub extract_domain-ambiguous :
    (local middle rest : Text)
    → NoSpace local
    → NoSpace middle
    → NoSpace rest
    → Lacks b'@' local
    → Lacks b'@' middle
    → extract_domain (local ++ b'@' ∷ (middle ++ b'@' ∷ rest)) ≡ []
unfolding extract_domain
extract_domain-ambiguous local middle rest sl sm sr al am =
    let tail : Text = middle ++ b'@' ∷ rest in
    let (p, ps, e) = split_nonempty b'@' (to_lower rest) in
    rw
      (trim_space_id (local ++ b'@' ∷ tail) (
        All-append _ local (b'@' ∷ tail) sl
          (refl, All-append _ middle (b'@' ∷ rest) sm (refl, sr))))
      (rw (to_lower-address local tail) (
        rw (split-append b'@' (to_lower local) (to_lower tail) (to_lower-Lacks local al)) (
          rw (to_lower-address middle rest) (
            rw (split-append b'@' (to_lower middle) (to_lower rest) (to_lower-Lacks middle am))
              (rw e refl)))))
