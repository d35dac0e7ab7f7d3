-- ===== src/Suppression.antt =====
-- internal/store/db.go: the suppression list. The table is a list of rows; the queries that the code
-- builds are functions on it. `none` is a database error, which `up` says does not happen. `ON CONFLICT
-- DO NOTHING` stands on the unique index of organization and email (internal/models/models.go).
pub mod Laws
pub mod Normal
mod Tests
use sampmail.Prelude.{
  ℕ, Bool, true, false, ◌&&◌, ◌||◌, Option, none, some, List, [], ◌∷◌, ◌++◌, Text, text_eq, nat_eq,
  ◌==◌, ltb, if◌then◌else◌,
}
use sampmail.Prelude.Map
use sampmail.Prelude.Strings.{to_lower, trim_space}

pub record Row : Type 0 where
  pub organization_id : ℕ
  pub email : Text
  pub reason : Text
  pub source : Text

-- strings.ToLower(strings.TrimSpace(email))
unfoldable pub normalize : Text → Text
normalize email = to_lower (trim_space email)

unfoldable pub has_row : ℕ → Text → List Row → Bool
has_row org email [] = false
has_row org email (r ∷ rows) =
    (r.organization_id == org && r.email == email) || has_row org email rows

-- AddSuppression
unfoldable pub add_suppression : ℕ → Text → Text → Text → List Row → List Row
unfolding normalize has_row
add_suppression org email reason source rows =
    if has_row org (normalize email) rows
    then rows
    else rows
      ++ record { organization_id = org; email = normalize email; reason = reason; source = source }
        ∷ []

-- The scope of a query: an organization above 0, or all of them.
abbrev pub in_scope : ℕ → Row → Bool
in_scope org r = if ltb 0 org then r.organization_id == org else true

unfoldable pub matches : ℕ → Text → List Row → Bool
matches org email [] = false
matches org email (r ∷ rows) = (r.email == email && in_scope org r) || matches org email rows

-- IsSuppressed
unfoldable pub is_suppressed : ℕ → Text → List Row → Bool
unfolding normalize matches
is_suppressed org email rows = matches org (normalize email) rows

-- RemoveSuppression
without : ℕ → Text → List Row → List Row
without org email [] = []
without org email (r ∷ rows) =
    let rest = without org email rows in
    if r.email == email && in_scope org r then rest else r ∷ rest

unfoldable pub remove_suppression : ℕ → Text → List Row → List Row
unfolding normalize without
remove_suppression org email rows = without org (normalize email) rows

unfoldable pub member : Text → List Text → Bool
member e [] = false
member e (x ∷ xs) = x == e || member e xs

unfoldable pub normalize_all : List Text → List Text
unfolding normalize
normalize_all [] = []
normalize_all (e ∷ es) = normalize e ∷ normalize_all es

-- The rows of `email IN ?` within the scope, each entered in the result.
unfoldable pub collect : ℕ → List Text → List Row → List (Text × Bool)
collect org emails [] = []
collect org emails (r ∷ rows) =
    let rest = collect org emails rows in
    if member r.email emails && in_scope org r then Map.insert r.email true rest else rest

-- BulkCheckSuppressed without a database error
unfoldable pub bulk_check_suppressed : ℕ → List Text → List Row → List (Text × Bool)
unfolding collect normalize_all member
bulk_check_suppressed org [] rows = []
bulk_check_suppressed org (e ∷ es) rows = collect org (normalize_all (e ∷ es)) rows

-- A read of `map[string]bool`: false for a key that is not there.
abbrev pub or_false : Option Bool → Bool
or_false none = false
or_false (some b) = b

abbrev pub flagged : Text → List (Text × Bool) → Bool
flagged key m = or_false (Map.lookup key m)
