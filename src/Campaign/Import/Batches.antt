-- ===== src/Campaign/Import/Batches.antt =====
-- internal/core/campaign.go: `ImportRecipientsFromCSV` in batches is an import in one go.
use sampmail.Prelude.{
  ℕ, suc, ◌+◌, ◌-◌, ◌≤◌, ◌≡◌, refl, sym, ap, ◌∙◌, true, false, Option, none, some, List, [], ◌∷◌,
  ◌++◌, Text, nat_eq, text_eq, ◌==◌, ==_iff, ltb, leb, length, if◌then◌else◌, arith, Bool-cases,
  inl, inr,
}
use sampmail.Prelude.Strings.{to_lower, trim_space}
use mathlib.Core.List.{append_assoc, append-nil}
use sampmail.Suppression
use sampmail.Suppression.{normalize, is_suppressed, member, bulk_check_suppressed, flagged}
use sampmail.Suppression.Laws.{bulk_check_suppressed-agrees}
use sampmail.Suppression.Normal.{trim_space_lem}
use sampmail.Campaign.Import.{
  Record, Db, Import, Outcome, imported, too_many, insert_failed, commit_failed, is_importable,
  email_of, unflagged, flush, take_record, counted, finish, read_records,
  import_recipients_from_csv, max_recipients_per_import, start, suppressed_map,
}

-- The addresses that the records carry, in order.
unfoldable pub importable : List Record → List Text
importable [] = []
importable (none ∷ rs) = importable rs
importable (some [] ∷ rs) = importable rs
importable (some (field ∷ fields) ∷ rs) =
    let rest = importable rs in
    if is_importable (email_of field) then email_of field ∷ rest else rest

-- Those that are not suppressed.
unfoldable pub unsuppressed : ℕ → List Suppression.Row → List Text → List Text
unsuppressed org rows [] = []
unsuppressed org rows (e ∷ es) =
    let rest = unsuppressed org rows es in if is_suppressed org e rows then rest else e ∷ rest

-- The addresses that an import has put into the table.
abbrev pub inserted_by : Outcome → Option (List Text)
inserted_by (imported st) = some st.inserted
inserted_by too_many = none
inserted_by insert_failed = none
inserted_by commit_failed = none

-- No white space around an address.
abbrev Trimmed : List Text → Type 0
Trimmed [] = Unit {0}
Trimmed (e ∷ es) = (trim_space e ≡ e) × Trimmed es

Trimmed-append :
    (es : List Text) (e : Text) → Trimmed es → trim_space e ≡ e → Trimmed (es ++ e ∷ [])
Trimmed-append [] e h k = (k, tt)
Trimmed-append (x ∷ es) e h k = (h.0, Trimmed-append es e h.1 k)

unsuppressed-append :
    (org : ℕ) (rows : List Suppression.Row) (xs ys : List Text)
    → unsuppressed org rows (xs ++ ys) ≡ unsuppressed org rows xs ++ unsuppressed org rows ys
unfolding unsuppressed
unsuppressed-append org rows [] ys = refl
unsuppressed-append org rows (x ∷ xs) ys = elim (Bool-cases (is_suppressed org x rows)) [
  | inl e ↦ rw e (unsuppressed-append org rows xs ys)
  | inr e ↦ rw e (ap (λ u. x ∷ u) (unsuppressed-append org rows xs ys))
]

flagged-is_suppressed :
    (org : ℕ) (rows : List Suppression.Row) (whole : List Text) (e : Text)
    → trim_space e ≡ e
    → member e whole ≡ true
    → flagged (to_lower e) (bulk_check_suppressed org whole rows) ≡ is_suppressed org e rows
unfolding normalize
flagged-is_suppressed org rows whole e t h =
    ap (λ u. flagged (to_lower u) (bulk_check_suppressed org whole rows)) (sym t)
    ∙ bulk_check_suppressed-agrees org whole e rows h

unflagged_lem :
    (org : ℕ) (rows : List Suppression.Row) (whole es : List Text)
    → Trimmed es
    → ((e : Text) → member e es ≡ true → member e whole ≡ true)
    → unflagged (bulk_check_suppressed org whole rows) es ≡ unsuppressed org rows es
unfolding unflagged unsuppressed member
unflagged_lem org rows whole [] h sub = refl
unflagged_lem org rows whole (e ∷ es) h sub =
    let here : member e whole ≡ true = sub e (ground (arith, ==_iff e e)) in
    let rest = unflagged_lem org rows whole es h.1 (λ x m. sub x (ground arith)) in
    let same = flagged-is_suppressed org rows whole e h.0 here in
    elim (Bool-cases (is_suppressed org e rows)) [
      | inl s ↦ rw (same, s) rest
      | inr s ↦ rw (same, s) (ap (λ u. e ∷ u) rest)
    ]

-- A database whose checks, inserts and commit succeed.
abbrev pub Works : Db → Type 0
Works db =
    ((es : List Text) → db.checks es ≡ true)
    × ((es : List Text) → db.inserts es ≡ true)
    × (db.commits ≡ true)

-- The batch is in the table.
abbrev flushed : ℕ → List Suppression.Row → Import → Import
flushed org rows st =
    let valid = unsuppressed org rows st.batch in
    record st {
      batch = [];
      inserted = st.inserted ++ valid;
      imported = st.imported + length valid;
      skipped_suppressed = st.skipped_suppressed + (length st.batch - length valid);
    }

under_limit :
    (st : Import) (rs : List Record)
    → st.lines + suc (length rs) ≤ max_recipients_per_import
    → ltb max_recipients_per_import (st.lines + 1) ≡ false
under_limit st rs h = ground arith

module _ (org : ℕ) (db : Db) (w : Works db) where
  batch_valid :
      (st : Import)
      → Trimmed st.batch
      → unflagged (suppressed_map org db st.batch) st.batch ≡ unsuppressed org db.rows st.batch
  batch_valid st t =
      ap (λ b. unflagged (if b then bulk_check_suppressed org st.batch db.rows else []) st.batch)
        (w.0 st.batch)
      ∙ unflagged_lem org db.rows st.batch st.batch t (λ e h. h)

  flush_lem : (st : Import) → Trimmed st.batch → flush org db st ≡ some (flushed org db.rows st)
  unfolding flush
  flush_lem st t =
      let e = batch_valid st t in
      elim (Bool-cases (length (unsuppressed org db.rows st.batch) == 0)) [
        | inl z ↦ rw (e, z) refl
        | inr z ↦ rw (e, z, w.1 (unsuppressed org db.rows st.batch)) refl
      ]

  -- What is in the table and what the batch will add to it.
  abbrev covered : Import → List Text → List Text
  covered st es = st.inserted ++ unsuppressed org db.rows (st.batch ++ es)

  flushed-covered :
      (st : Import) (es : List Text) → covered (flushed org db.rows st) es ≡ covered st es
  flushed-covered st es =
      append_assoc st.inserted (unsuppressed org db.rows st.batch) (unsuppressed org db.rows es)
      ∙ ap (λ u. st.inserted ++ u) (sym (unsuppressed-append org db.rows st.batch es))

  covered_none :
      (ins es : List Text)
      → (length es == 0) ≡ true
      → ins ≡ ins ++ unsuppressed org db.rows (es ++ [])
  unfolding unsuppressed
  covered_none ins [] z = sym (append-nil ins)
  covered_none ins (e ∷ es) z = absurd (ground arith)

  finish_lem :
      (st : Import) → Trimmed st.batch → inserted_by (finish org db st) ≡ some (covered st [])
  unfolding finish
  finish_lem st t = elim (Bool-cases (length st.batch == 0)) [
    | inl z ↦ rw (z, inserted_by, finish, w.2) (ap some (covered_none st.inserted st.batch z))
    | inr z ↦
        rw (z, inserted_by, finish, flush_lem st t, w.2)
          (ap (λ u. some (st.inserted ++ unsuppressed org db.rows u)) (sym (append-nil st.batch)))
  ]

  -- A record that goes to the batch.
  abbrev batched : Import → Text → Import
  batched st e = record (counted st) { batch = st.batch ++ e ∷ [] }

  batched-covered :
      (st : Import) (e : Text) (es : List Text) → covered (batched st e) es ≡ covered st (e ∷ es)
  batched-covered st e es =
      ap (λ u. st.inserted ++ unsuppressed org db.rows u) (append_assoc st.batch (e ∷ []) es)

  Trimmed-batched :
      (st : Import) (field : Text) → Trimmed st.batch → Trimmed (batched st (email_of field)).batch
  Trimmed-batched st field t =
      Trimmed-append st.batch (email_of field) t (trim_space_lem (to_lower field))

  read_records_lem :
      (batch_size : ℕ) (rs : List Record) (st : Import)
      → Trimmed st.batch
      → st.lines + length rs ≤ max_recipients_per_import
      → inserted_by (read_records org db batch_size rs st) ≡ some (covered st (importable rs))
  unfolding read_records take_record importable
  read_records_lem bs [] st t h = finish_lem st t
  read_records_lem bs (none ∷ rs) st t h =
      rw (inserted_by, read_records, under_limit st rs h)
        (read_records_lem bs rs (record (counted st) { skipped_invalid = st.skipped_invalid + 1 }) t
          (omega arith))
  read_records_lem bs (some [] ∷ rs) st t h =
      rw (inserted_by, read_records, under_limit st rs h)
        (read_records_lem bs rs (counted st) t (omega arith))
  read_records_lem bs (some (field ∷ fields) ∷ rs) st t h =
      elim (Bool-cases (is_importable (email_of field))) [
        | inr bad ↦
            rw (inserted_by, read_records, under_limit st rs h, bad)
              (read_records_lem bs rs
                (record (counted st) { skipped_invalid = st.skipped_invalid + 1 }) t (omega arith))
        | inl good ↦
            let st' = batched st (email_of field) in
            let t' = Trimmed-batched st field t in
            elim (Bool-cases (leb bs (length st'.batch))) [
              | inr small ↦
                  rw (inserted_by, read_records, under_limit st rs h, good, small)
                    (read_records_lem bs rs st' t' (omega arith)
                      ∙ ap some (batched-covered st (email_of field) (importable rs)))
              | inl full ↦
                  rw (inserted_by, read_records, under_limit st rs h, good, full, flush_lem st' t')
                    (read_records_lem bs rs (flushed org db.rows st') tt (omega arith)
                      ∙ ap some (
                          flushed-covered st' (importable rs)
                          ∙ batched-covered st (email_of field) (importable rs)))
            ]
      ]

-- Where the database works and the file has at most 500000 records, the import puts into the table
-- exactly the addresses of the importable records that are not suppressed, in the order of the file,
-- whatever the batch size.
pub import_recipients_from_csv-batches :
    (org : ℕ) (db : Db) (batch_size : ℕ) (rs : List Record)
    → Works db
    → length rs ≤ max_recipients_per_import
    → inserted_by (import_recipients_from_csv org db batch_size rs)
      ≡ some (unsuppressed org db.rows (importable rs))
unfolding import_recipients_from_csv
import_recipients_from_csv-batches org db bs rs w h =
    read_records_lem org db w bs rs start tt (omega arith)
