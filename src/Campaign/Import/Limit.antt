-- ===== src/Campaign/Import/Limit.antt =====
-- internal/core/campaign.go: `ImportRecipientsFromCSV` on a file with too many records.
use sampmail.Prelude.{
  ℕ, ◌+◌, ◌≤◌, ◌<◌, ◌≡◌, refl, Option, none, some, List, [], ◌∷◌, ◌++◌, nat_eq, ◌==◌, ltb, leb,
  length, arith, Bool-cases, inl, inr,
}
use sampmail.Campaign.Import.{
  Record, Db, Import, Outcome, insert_failed, is_importable, email_of, unflagged, flush,
  take_record, counted, read_records, import_recipients_from_csv, max_recipients_per_import, start,
  suppressed_map,
}
use sampmail.Campaign.Import.Batches.{inserted_by}

-- The count of records that an insert leaves, where it succeeds.
abbrev KeepsLines : ℕ → Option Import → Type 0
KeepsLines n none = Unit {0}
KeepsLines n (some st) = st.lines ≡ n

module _ (org : ℕ) (db : Db) where
  flush-KeepsLines : (st : Import) → KeepsLines st.lines (flush org db st)
  unfolding flush
  flush-KeepsLines st =
      let valid = unflagged (suppressed_map org db st.batch) st.batch in
      elim (Bool-cases (length valid == 0)) [
        | inl z ↦ rw (KeepsLines, flush, z) refl
        | inr z ↦ elim (Bool-cases (db.inserts valid)) [
          | inl ok ↦ rw (KeepsLines, flush, z, ok) refl
          | inr ko ↦ rw (KeepsLines, flush, z, ko) tt
        ]
      ]

  take_record-KeepsLines :
      (batch_size : ℕ) (r : Record) (st : Import)
      → KeepsLines st.lines (take_record org db batch_size r st)
  unfolding take_record
  take_record-KeepsLines bs none st = refl
  take_record-KeepsLines bs (some []) st = refl
  take_record-KeepsLines bs (some (field ∷ fields)) st =
      let st' = record st { batch = st.batch ++ email_of field ∷ [] } in
      elim (Bool-cases (is_importable (email_of field))) [
        | inr bad ↦ rw (KeepsLines, take_record, bad) refl
        | inl good ↦ elim (Bool-cases (leb bs (length st'.batch))) [
          | inl full ↦ rw (KeepsLines, take_record, good, full) (flush-KeepsLines st')
          | inr small ↦ rw (KeepsLines, take_record, good, small) refl
        ]
      ]

  abbrev next : ℕ → List Record → Option Import → Outcome
  next bs rs none = insert_failed
  next bs rs (some st) = read_records org db bs rs st

  after :
      (bs : ℕ) (rs : List Record) {n : ℕ} (o : Option Import)
      → KeepsLines n o
      → ((st : Import) → st.lines ≡ n → inserted_by (read_records org db bs rs st) ≡ none)
      → inserted_by (next bs rs o) ≡ none
  after bs rs none h k = refl
  after bs rs (some st) h k = k st h

  read_records-refused :
      (batch_size : ℕ) (rs : List Record) (st : Import)
      → st.lines ≤ max_recipients_per_import
      → max_recipients_per_import < st.lines + length rs
      → inserted_by (read_records org db batch_size rs st) ≡ none
  unfolding read_records
  read_records-refused bs [] st h k = absurd (omega arith)
  read_records-refused bs (r ∷ rs) st h k =
      elim (Bool-cases (ltb max_recipients_per_import (st.lines + 1))) [
        | inl over ↦ rw (inserted_by, read_records, over) refl
        | inr under ↦
            rw (inserted_by, read_records, under)
              (after bs rs (take_record org db bs r (counted st))
                (take_record-KeepsLines bs r (counted st))
                (λ st' e. read_records-refused bs rs st' (ground arith) (omega arith)))
      ]

-- A file with more than 500000 records adds no recipient: the import ends with an error.
pub import_recipients_from_csv-refused :
    (org : ℕ) (db : Db) (batch_size : ℕ) (rs : List Record)
    → max_recipients_per_import < length rs
    → inserted_by (import_recipients_from_csv org db batch_size rs) ≡ none
unfolding import_recipients_from_csv
import_recipients_from_csv-refused org db bs rs h =
    read_records-refused org db bs rs start (omega arith) (omega arith)
