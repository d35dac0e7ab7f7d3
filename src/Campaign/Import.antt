-- ===== src/Campaign/Import.antt =====
-- internal/core/campaign.go: `ImportRecipientsFromCSV`, over the records that the CSV reader gives;
-- `none` is a record that it cannot read. The rows of a transaction are in the table once it is
-- committed. Lengths are taken in characters, which are bytes where a text is ASCII.
pub mod Batches
pub mod Limit
mod Tests
use sampmail.Prelude.{
  ℕ, suc, ◌+◌, ◌-◌, ◌<◌, Bool, true, false, not, ◌&&◌, ◌||◌, Option, none, some, List, [], ◌∷◌,
  ◌++◌, Text, codes, text_eq, nat_eq, ◌==◌, ltb, leb, length, if◌then◌else◌,
}
use mathlib.Core.List.{reverse}
use sampmail.Prelude.Strings.{to_lower, trim_space, has_prefix, contains, split}
use sampmail.Suppression
use sampmail.Suppression.{bulk_check_suppressed, flagged}

-- The two parts of a split at the @.
abbrev pub good_parts : List Text → Bool
good_parts (local ∷ domain ∷ []) =
    not (length local == 0)
    && leb (length local) 64
    && leb 3 (length domain)
    && contains domain (codes ".")
good_parts [] = false
good_parts (_ ∷ []) = false
good_parts (_ ∷ _ ∷ _ ∷ _) = false

-- isValidEmailFormat
unfoldable pub is_valid_email_format : Text → Bool
is_valid_email_format email =
    good_parts (split b'@' email)
    && not (has_prefix email (codes "."))
    && not (has_prefix (reverse email) (codes "."))
    && not (contains email (codes ".."))

-- A record of the CSV file.
abbrev pub Record : Type 0
Record = Option (List Text)

abbrev pub max_recipients_per_import : ℕ
max_recipients_per_import = 500000

-- The database: the suppression list, and whether a check of it, an insert of rows and the commit
-- succeed.
pub record Db : Type 0 where
  pub rows : List Suppression.Row
  pub checks : List Text → Bool
  pub inserts : List Text → Bool
  pub commits : Bool

-- The variables of the loop, and the addresses that the transaction has inserted.
pub record Import : Type 0 where
  pub lines : ℕ
  pub batch : List Text
  pub inserted : List Text
  pub imported : ℕ
  pub skipped_suppressed : ℕ
  pub skipped_invalid : ℕ

pub data Outcome : Type 0 where
  imported : Import → Outcome
  too_many insert_failed commit_failed : Outcome

abbrev pub start : Import
start = record {
  lines = 0;
  batch = [];
  inserted = [];
  imported = 0;
  skipped_suppressed = 0;
  skipped_invalid = 0;
}

abbrev pub email_of : Text → Text
email_of field = trim_space (to_lower field)

abbrev pub is_importable : Text → Bool
is_importable email = not (email == []) && contains email (codes "@") && is_valid_email_format email

-- The addresses of a batch that the map does not flag.
unfoldable pub unflagged : List (Text × Bool) → List Text → List Text
unflagged m [] = []
unflagged m (e ∷ es) =
    let rest = unflagged m es in if flagged (to_lower e) m then rest else e ∷ rest

abbrev pub counted : Import → Import
counted st = record st { lines = st.lines + 1 }

module _ (org : ℕ) (db : Db) where
  abbrev pub suppressed_map : List Text → List (Text × Bool)
  suppressed_map emails = if db.checks emails then bulk_check_suppressed org emails db.rows else []

  -- A batch goes to the table; `none` is an insert that failed.
  unfoldable pub flush : Import → Option Import
  unfolding unflagged
  flush st =
      let valid = unflagged (suppressed_map st.batch) st.batch in
      let st' = record st {
        batch = [];
        inserted = st.inserted ++ valid;
        imported = st.imported + length valid;
        skipped_suppressed = st.skipped_suppressed + (length st.batch - length valid);
      } in
      if length valid == 0 then some st' else if db.inserts valid then some st' else none

  -- One record that is under the limit.
  unfoldable pub take_record : ℕ → Record → Import → Option Import
  unfolding flush is_valid_email_format
  take_record batch_size none st = some (record st { skipped_invalid = st.skipped_invalid + 1 })
  take_record batch_size (some []) st = some st
  take_record batch_size (some (field ∷ fields)) st =
      let email = email_of field in
      let st' = record st { batch = st.batch ++ email ∷ [] } in
      if is_importable email
      then if leb batch_size (length st'.batch) then flush st' else some st'
      else some (record st { skipped_invalid = st.skipped_invalid + 1 })

  -- After the last record.
  unfoldable pub finish : Import → Outcome
  unfolding flush
  finish st = elim (if length st.batch == 0 then some st else flush st) [
    | none ↦ insert_failed
    | some st' ↦ if db.commits then imported st' else commit_failed
  ]

  unfoldable pub read_records : ℕ → List Record → Import → Outcome
  unfolding take_record finish
  read_records batch_size [] st = finish st
  read_records batch_size (r ∷ rs) st = elim (ltb max_recipients_per_import (counted st).lines) [
    | true ↦ too_many
    | false ↦ elim (take_record batch_size r (counted st)) [
      | none ↦ insert_failed
      | some st' ↦ read_records batch_size rs st'
    ]
  ]

  -- ImportRecipientsFromCSV
  unfoldable pub import_recipients_from_csv : ℕ → List Record → Outcome
  unfolding read_records
  import_recipients_from_csv batch_size rs = read_records batch_size rs start
