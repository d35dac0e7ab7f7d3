-- ===== src/Bounce/Scope.antt =====
-- internal/core/bounce_processor.go with internal/store/db.go: whom a recorded bounce keeps from
-- being mailed. The rows are stored for organization 0.
use sampmail.Prelude.{
  ℕ, ◌≡◌, refl, ◌⊎◌, Bool, true, false, not, ◌&&◌, ◌||◌, List, [], ◌∷◌, ◌++◌, Text, codes, text_eq,
  nat_eq, ◌==◌, ==_iff, ltb, All, arith, if◌then◌else◌, Bool-cases, inl, inr,
}
use sampmail.Prelude.Strings.{contains}
use sampmail.Suppression.{
  Row, normalize, has_row, add_suppression, matches, is_suppressed, normalize_all, collect,
  bulk_check_suppressed,
}
use sampmail.Suppression.Laws.{matches-append}
use sampmail.Bounce.{
  BounceType, Action, suppress, retry, suppress_threshold, handle_complaint, Info, Class,
  ContactRow, Tables, Calls,
}
use sampmail.Bounce.Classes.{classify_bounce}
use sampmail.Bounce.Record.{
  set_status, suppressed, marked, update_campaign_bounce_stats, decrement_sender_reputation, act,
  with_event, after_event, store_event, record_bounce,
}

-- Nothing was added, or one row of organization 0.
abbrev pub Added : List Row → List Row → Type 0
Added rows rows' = (rows' ≡ rows) ⊎ ((r : Row) × (r.organization_id ≡ 0) × (rows' ≡ rows ++ r ∷ []))

add_suppression-Added :
    (email reason source : Text) (rows : List Row)
    → Added rows (add_suppression 0 email reason source rows)
unfolding add_suppression
add_suppression-Added email reason source rows =
    elim (Bool-cases (has_row 0 (normalize email) rows)) [
      | inl old ↦ rw old (inl refl)
      | inr new ↦ rw new (inr (_, refl, refl))
    ]

suppressed-Added :
    (calls : Calls) (email reason source : Text) (db : Tables)
    → Added db.suppressions (suppressed calls email reason source db).suppressions
suppressed-Added calls email reason source db = elim (Bool-cases calls.adds) [
  | inl e ↦ rw e (add_suppression-Added email reason source db.suppressions)
  | inr e ↦ rw e (inl refl)
]

marked-suppressions :
    (calls : Calls) (email status : Text) (db : Tables)
    → (marked calls email status db).suppressions ≡ db.suppressions
marked-suppressions calls email status db = ground arith

decrement-suppressions :
    (id points : ℕ) (db : Tables)
    → (decrement_sender_reputation id points db).suppressions ≡ db.suppressions
unfolding decrement_sender_reputation
decrement-suppressions id points db = ground arith

update-suppressions :
    (id : ℕ) (t : BounceType) (db : Tables)
    → (update_campaign_bounce_stats id t db).suppressions ≡ db.suppressions
unfolding update_campaign_bounce_stats
update-suppressions id t db = ground arith

act-Added :
    (calls : Calls) (a : Action) (email reason : Text) (campaign : ℕ) (db : Tables)
    → Added db.suppressions (act calls a email reason campaign db).suppressions
unfolding act
act-Added calls suppress email reason campaign db =
    rw (marked-suppressions calls email _ _) (suppressed-Added calls email reason _ db)
act-Added calls retry email reason campaign db = inl refl
act-Added calls suppress_threshold email reason campaign db = suppressed-Added calls email _ _ db
act-Added calls handle_complaint email reason campaign db =
    let db' =
      marked calls email (codes "complained")
        (suppressed calls email (codes "complaint") (codes "fbl") db) in
    let added : Added db.suppressions db'.suppressions =
      rw
        (marked-suppressions calls email (codes "complained")
          (suppressed calls email (codes "complaint") (codes "fbl") db))
        (suppressed-Added calls email (codes "complaint") (codes "fbl") db) in
    elim (Bool-cases (ltb 0 campaign && calls.updates)) [
      | inl e ↦ rw (e, act) (rw (decrement-suppressions campaign 15 db') added)
      | inr e ↦ rw (e, act) added
    ]

after_event-Added :
    (calls : Calls) (class : Class) (email : Text) (info : Info) (db : Tables)
    → Added db.suppressions (after_event calls class email info db).suppressions
unfolding after_event
after_event-Added calls class email info db =
    let db' = with_event email class.bounce_type info db in
    let acted = act-Added calls class.action email class.reason info.campaign db' in
    elim (Bool-cases (ltb 0 info.campaign && calls.updates)) [
      | inl e ↦
          rw (e, after_event)
            (rw
              (update-suppressions info.campaign class.bounce_type
                (act calls class.action email class.reason info.campaign db'))
              acted)
      | inr e ↦ rw (e, after_event) acted
    ]

store_event-Added :
    (created : Bool) (calls : Calls) (class : Class) (email : Text) (info : Info) (db : Tables)
    → Added db.suppressions (store_event created calls class email info db).0.suppressions
unfolding store_event
store_event-Added true calls class email info db = after_event-Added calls class email info db
store_event-Added false calls class email info db = inl refl

record_bounce-Added :
    (calls : Calls) (info : Info) (db : Tables)
    → Added db.suppressions (record_bounce calls info db).0.suppressions
unfolding record_bounce
record_bounce-Added calls info db =
    elim (Bool-cases
      (normalize info.recipient == [] || not (contains (normalize info.recipient) (codes "@")))) [
        | inl e ↦ rw (e, record_bounce) (inl refl)
        | inr e ↦
            rw (e, record_bounce)
              (store_event-Added calls.creates calls (classify_bounce calls info db)
                (normalize info.recipient) info db)
      ]

matches-other :
    (org : ℕ) (email : Text) (rows : List Row) (r : Row)
    → ltb 0 org ≡ true
    → r.organization_id ≡ 0
    → matches org email (rows ++ r ∷ []) ≡ matches org email rows
matches-other org email rows r above zero = rw matches-append (ground (arith, above, zero))

collect-other :
    (org : ℕ) (emails : List Text) (rows : List Row) (r : Row)
    → ltb 0 org ≡ true
    → r.organization_id ≡ 0
    → collect org emails (rows ++ r ∷ []) ≡ collect org emails rows
unfolding collect
collect-other org emails [] r above zero = ground (arith, above, zero)
collect-other org emails (q ∷ rows) r above zero =
    rw (collect-other org emails rows r above zero) refl

bulk-other :
    (org : ℕ) (emails : List Text) (rows : List Row) (r : Row)
    → ltb 0 org ≡ true
    → r.organization_id ≡ 0
    → bulk_check_suppressed org emails (rows ++ r ∷ []) ≡ bulk_check_suppressed org emails rows
unfolding bulk_check_suppressed
bulk-other org [] rows r above zero = refl
bulk-other org (e ∷ es) rows r above zero =
    collect-other org (normalize_all (e ∷ es)) rows r above zero

-- What recordBounce does to the tables, whatever the bounce is and whichever calls succeed, changes
-- no answer of IsSuppressed and none of BulkCheckSuppressed for any organization above 0: a campaign
-- of such an organization does not see the suppressions that its bounces have made.
pub bounces_unseen :
    (calls : Calls) (info : Info) (db : Tables) (org : ℕ)
    → ltb 0 org ≡ true
    → ((email : Text)
        → is_suppressed org email (record_bounce calls info db).0.suppressions
          ≡ is_suppressed org email db.suppressions)
      × ((emails : List Text)
          → bulk_check_suppressed org emails (record_bounce calls info db).0.suppressions
            ≡ bulk_check_suppressed org emails db.suppressions)
unfolding is_suppressed
bounces_unseen calls info db org above = elim (record_bounce-Added calls info db) [
  | inl same ↦ (λ email. rw same refl, λ emails. rw same refl)
  | inr (r, zero, grown) ↦ (
    λ email. rw grown (matches-other org (normalize email) db.suppressions r above zero),
    λ emails. rw grown (bulk-other org emails db.suppressions r above zero),
  )
]

-- Each contact with the address has the status.
abbrev pub AllMarked : Text → Text → List ContactRow → Type 0
AllMarked email status cs = All (λ (c : ContactRow). c.email ≡ email → c.status ≡ status) cs

set_status_one :
    (email status : Text) (c : ContactRow)
    → (if c.email == email then record c { status = status } else c).email ≡ email
    → (if c.email == email then record c { status = status } else c).status ≡ status
set_status_one email status c e = elim (Bool-cases (c.email == email)) [
  | inl same ↦ ground (arith, same)
  | inr other ↦
      let k : c.email ≡ email = ground (arith, other) in
      absurd (let b = (==_iff c.email email).1 k in cc)
]

pub set_status-AllMarked :
    (email status : Text) (cs : List ContactRow)
    → AllMarked email status (set_status email status cs)
unfolding set_status
set_status-AllMarked email status [] = tt
set_status-AllMarked email status (c ∷ cs) =
    (set_status_one email status c, set_status-AllMarked email status cs)
