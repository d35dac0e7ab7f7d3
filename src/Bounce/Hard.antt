-- ===== src/Bounce/Hard.antt =====
-- internal/core/bounce_processor.go: what a bounce that is classified for suppression leaves behind.
use sampmail.Prelude.{
  ℕ, ◌≡◌, refl, sym, true, false, not, ◌&&◌, ◌||◌, List, [], ◌∷◌, Text, codes, text_eq, ◌==◌, ltb,
  Bool-cases, Option-cases, inl, inr, nat_eq,
}
use sampmail.Prelude.Map
use sampmail.Prelude.Strings.{contains}
use sampmail.Suppression.{normalize, is_suppressed}
use sampmail.Suppression.Laws.{is_suppressed-add}
use sampmail.Suppression.Normal.{normalize_lem}
use sampmail.Bounce.{BounceType, suppress, Info, Class, Event, Tables, Calls}
use sampmail.Bounce.Classes.{classify_bounce}
use sampmail.Bounce.Record.{
  event_of, update_campaign_bounce_stats, act, with_event, after_event, store_event, record_bounce,
  source_of,
}
use sampmail.Bounce.Scope.{AllMarked, set_status-AllMarked}

abbrev pub all_fine : Calls
all_fine = record { reads = true; creates = true; adds = true; updates = true }

-- What is claimed of the tables after the bounce.
pub record IsRecorded (email : Text) (recipient : Text) (event : Event) (events : List Event)
    (db : Tables) : Type 0 where
  pub stored : db.events ≡ event ∷ events
  pub kept_off : is_suppressed 0 recipient db.suppressions ≡ true
  pub marked : AllMarked email (codes "bounced") db.contacts

-- The counters of the campaign do not matter to it.
update-IsRecorded :
    (id : ℕ) (t : BounceType) (email recipient : Text) (event : Event) (events : List Event)
    (db : Tables)
    → IsRecorded email recipient event events db
    → IsRecorded email recipient event events (update_campaign_bounce_stats id t db)
unfolding update_campaign_bounce_stats
update-IsRecorded id t email recipient event events db r =
    elim (Option-cases (Map.lookup id db.campaigns)) [
      | inl e ↦ rw (e, update_campaign_bounce_stats) r
      | inr (c, e) ↦
          rw (e, update_campaign_bounce_stats)
            (record { stored = r.stored; kept_off = r.kept_off; marked = r.marked })
    ]

act-IsRecorded :
    (recipient : Text) (reason : Text) (campaign : ℕ) (event : Event) (events : List Event)
    (db : Tables)
    → db.events ≡ event ∷ events
    → IsRecorded
        (normalize recipient)
        recipient
        event
        events
        (act all_fine suppress (normalize recipient) reason campaign db)
unfolding act
act-IsRecorded recipient reason campaign event events db e = record {
  stored = e;
  kept_off =
      is_suppressed-add 0 (normalize recipient) recipient reason (source_of campaign reason)
        db.suppressions (sym (normalize_lem recipient));
  marked = set_status-AllMarked (normalize recipient) (codes "bounced") db.contacts;
}

after_event-IsRecorded :
    (class : Class) (info : Info) (db : Tables)
    → class.action ≡ suppress
    → IsRecorded
        (normalize info.recipient)
        info.recipient
        (event_of (normalize info.recipient) class.bounce_type info)
        db.events
        (after_event all_fine class (normalize info.recipient) info db)
unfolding after_event
after_event-IsRecorded class info db e =
    let email = normalize info.recipient in
    let event = event_of email class.bounce_type info in
    let acted : IsRecorded email info.recipient event db.events (
        act all_fine class.action email class.reason info.campaign
          (with_event email class.bounce_type info db)) =
      rw e (
        act-IsRecorded info.recipient class.reason info.campaign event db.events
          (with_event email class.bounce_type info db) refl) in
    elim (Bool-cases (ltb 0 info.campaign && true)) [
      | inl b ↦
          rw (b, after_event)
            (update-IsRecorded info.campaign class.bounce_type email info.recipient event db.events
              _ acted)
      | inr b ↦ rw (b, after_event) acted
    ]

-- A bounce of an address with an @ that is classified for suppression, with every call of the
-- database succeeding: recordBounce answers no error, its event is the latest one, the address as the
-- bounce spells it is on the suppression list for a query over all organizations, and each contact
-- with the address is marked as bounced.
pub suppress_bounce_lem :
    (info : Info) (db : Tables)
    → (normalize info.recipient == [] || not (contains (normalize info.recipient) (codes "@")))
      ≡ false
    → (classify_bounce all_fine info db).action ≡ suppress
    → ((record_bounce all_fine info db).1 ≡ true)
      × IsRecorded
          (normalize info.recipient)
          info.recipient
          (event_of (normalize info.recipient) (classify_bounce all_fine info db).bounce_type info)
          db.events
          (record_bounce all_fine info db).0
unfolding record_bounce store_event
suppress_bounce_lem info db valid e = (
  rw (valid, record_bounce) refl,
  rw (valid, record_bounce) (after_event-IsRecorded (classify_bounce all_fine info db) info db e),
)
