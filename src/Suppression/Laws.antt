-- ===== src/Suppression/Laws.antt =====
-- internal/store/db.go: adding, removing and asking for a suppressed address, and the bulk query.
use sampmail.Prelude.{
  ℕ, ◌≡◌, refl, ◌∙◌, Bool, true, false, ◌&&◌, ◌||◌, List, [], ◌∷◌, ◌++◌, Text, text_eq, nat_eq,
  ◌==◌, ==_iff, if◌then◌else◌, arith, Bool-cases, inl, inr,
}
use sampmail.Prelude.Map
use sampmail.Prelude.Map.{lookup-insert}
use sampmail.Suppression.{
  Row, normalize, has_row, add_suppression, in_scope, matches, is_suppressed, without,
  remove_suppression, member, normalize_all, collect, bulk_check_suppressed, flagged,
}

no_member : (e : Text) → member e [] ≡ true → ⊥
unfolding member
no_member e h = cc

matches_of_has_row :
    (org : ℕ) (email : Text) (rows : List Row)
    → has_row org email rows ≡ true
    → matches org email rows ≡ true
unfolding has_row matches
matches_of_has_row org email [] h = h
matches_of_has_row org email (r ∷ rows) h = ground (arith, matches_of_has_row org email rows)

pub matches-append :
    (org : ℕ) (email : Text) (rows : List Row) (r : Row)
    → matches org email (rows ++ r ∷ [])
      ≡ (matches org email rows || (r.email == email && in_scope org r))
unfolding matches
matches-append org email [] r = ground arith
matches-append org email (q ∷ rows) r = ground (arith, matches-append org email rows r)

has_row-matches_after :
    (org : ℕ) (email : Text) (rows : List Row) (r : Row)
    → r.organization_id ≡ org
    → r.email ≡ email
    → (matches org email (if has_row org email rows then rows else rows ++ r ∷ [])) ≡ true
has_row-matches_after org email rows r o e = elim (Bool-cases (has_row org email rows)) [
  | inl old ↦ rw old (matches_of_has_row org email rows old)
  | inr new ↦
      rw new
        (rw matches-append (ground (arith, ==_iff r.email email, ==_iff r.organization_id org)))
]

-- An address that was added is suppressed for its organization, however it is spelled, as far as
-- case and white space around it go.
pub is_suppressed-add :
    (org : ℕ) (email again reason source : Text) (rows : List Row)
    → normalize again ≡ normalize email
    → is_suppressed org again (add_suppression org email reason source rows) ≡ true
unfolding is_suppressed add_suppression
is_suppressed-add org email again reason source rows e = rw e (
    has_row-matches_after org (normalize email) rows
      (record { organization_id = org; email = normalize email; reason = reason; source = source })
      refl refl)

without_lem :
    (org : ℕ) (email key : Text) (rows : List Row)
    → matches org key (without org email rows)
      ≡ (if email == key then false else matches org key rows)
unfolding matches without
without_lem org email key [] = ground arith
without_lem org email key (r ∷ rows) = ground (
  arith,
  without_lem org email key rows,
  ==_iff r.email email,
  ==_iff r.email key,
  ==_iff email key,
)

-- Removing an address un-suppresses it for the organization, and no other address.
pub is_suppressed-remove :
    (org : ℕ) (email other : Text) (rows : List Row)
    → is_suppressed org other (remove_suppression org email rows)
      ≡ (if normalize email == normalize other then false else is_suppressed org other rows)
unfolding is_suppressed remove_suppression
is_suppressed-remove org email other rows = without_lem org (normalize email) (normalize other) rows

flagged-insert :
    (j key : Text) (m : List (Text × Bool))
    → flagged key (Map.insert j true m) ≡ (j == key || flagged key m)
flagged-insert j key m = ground (arith, lookup-insert j key true m)

flagged_nil : (key : Text) → flagged key [] ≡ false
unfolding Map.lookup
flagged_nil key = refl

and_false : (b : Bool) → (b && false) ≡ false
and_false b = ground arith

collect-lookup :
    (org : ℕ) (emails : List Text) (key : Text) (rows : List Row)
    → flagged key (collect org emails rows) ≡ (member key emails && matches org key rows)
unfolding collect matches
collect-lookup org emails key [] = ground (arith, flagged_nil key)
collect-lookup org emails key (r ∷ rows) = elim (Bool-cases (r.email == key)) [
  | inl same ↦
      let e : r.email ≡ key = (==_iff r.email key).0 same in
      ground (
        arith,
        collect-lookup org emails key rows,
        flagged-insert r.email key (collect org emails rows),
      )
  | inr other ↦ ground (
    arith,
    collect-lookup org emails key rows,
    flagged-insert r.email key (collect org emails rows),
  )
]

member-normalize_all :
    (e : Text) (emails : List Text)
    → member e emails ≡ true
    → member (normalize e) (normalize_all emails) ≡ true
unfolding member normalize_all
member-normalize_all e [] h = h
member-normalize_all e (x ∷ xs) h =
    ground (arith, member-normalize_all e xs, ==_iff x e, ==_iff (normalize x) (normalize e))

-- The bulk query agrees with the query for one address: for each address that was asked for, its
-- normalized form is flagged in the result exactly when the address is suppressed.
pub bulk_check_suppressed-agrees :
    (org : ℕ) (emails : List Text) (e : Text) (rows : List Row)
    → member e emails ≡ true
    → flagged (normalize e) (bulk_check_suppressed org emails rows) ≡ is_suppressed org e rows
unfolding bulk_check_suppressed is_suppressed
bulk_check_suppressed-agrees org [] e rows h = absurd (no_member e h)
bulk_check_suppressed-agrees org (x ∷ xs) e rows h =
    collect-lookup org (normalize_all (x ∷ xs)) (normalize e) rows
    ∙ rw (member-normalize_all e (x ∷ xs) h) refl
