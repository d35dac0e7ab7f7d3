-- ===== src/Campaign/Import/Tests.antt =====
-- The claims on the import of recipients at concrete files.
use sampmail.Prelude.{
  ℕ, zero, suc, ◌≡◌, refl, ap, true, none, some, List, [], ◌∷◌, Text, codes, length, arith,
}
use sampmail.Prelude.Strings.{to_lower, trim_space, contains, split}
use sampmail.Suppression.{is_suppressed}
use sampmail.Campaign.Import.{Record, Db, is_valid_email_format, import_recipients_from_csv}
use sampmail.Campaign.Import.Batches.{
  inserted_by, unsuppressed, importable, import_recipients_from_csv-batches,
}
use sampmail.Campaign.Import.Limit.{import_recipients_from_csv-refused}

-- An organization that suppresses bob, and a database without errors.
abbrev db : Db
db = record {
  rows =
      record {
        organization_id = 1;
        email = codes "bob@x.io";
        reason = codes "bounce";
        source = codes "system";
      }
      ∷ [];
  checks = λ es. true;
  inserts = λ es. true;
  commits = true;
}

abbrev line : Text → Record
line field = some (field ∷ codes "Name" ∷ [])

-- A spelling with white space and capitals, a suppressed address, a line that is not CSV, an empty
-- line, no domain, and an address once more.
abbrev file : List Record
file =
    line (codes " Ann@X.io ")
    ∷ line (codes "Bob@x.io")
    ∷ none
    ∷ some []
    ∷ line (codes "eve@")
    ∷ line (codes "cy@x.io")
    ∷ line (codes "ann@x.io")
    ∷ []

import_recipients_from_csv-batches_example :
    inserted_by (import_recipients_from_csv 1 db 2 file)
    ≡ some (unsuppressed 1 db.rows (importable file))
import_recipients_from_csv-batches_example =
    import_recipients_from_csv-batches 1 db 2 file (λ es. refl, λ es. refl, refl) (omega arith)

file_inserted :
    unsuppressed 1 db.rows (importable file)
    ≡ codes "ann@x.io" ∷ codes "cy@x.io" ∷ codes "ann@x.io" ∷ []
unfolding unsuppressed importable trim_space to_lower contains is_valid_email_format split
    is_suppressed
file_inserted = refl

-- A file of lines that are not CSV.
blanks : ℕ → List Record
blanks zero = []
blanks (suc n) = none ∷ blanks n

length-blanks : (n : ℕ) → length (blanks n) ≡ n
unfolding blanks
length-blanks zero = refl
length-blanks (suc n) = ap suc (length-blanks n)

import_recipients_from_csv-refused_example :
    inserted_by (import_recipients_from_csv 1 db 500 (blanks 500001)) ≡ none
import_recipients_from_csv-refused_example =
    import_recipients_from_csv-refused 1 db 500 (blanks 500001)
      (omega (arith, length-blanks 500001))
