-- ===== src/Suppression/Tests.antt =====
-- Runs of the suppression list of internal/store/db.go.
use sampmail.Prelude.{◌≡◌, refl, List, [], ◌∷◌, codes, text_eq, nat_eq}
use sampmail.Suppression.{
  Row, normalize, add_suppression, is_suppressed, bulk_check_suppressed, flagged, member,
}
use sampmail.Suppression.Laws.{bulk_check_suppressed-agrees}

abbrev blocked : List Row
blocked = add_suppression 3 (codes " Ann@X.org") (codes "manual") (codes "manual") []

bulk_check_suppressed-agrees_example :
    flagged
      (normalize (codes "Ann@x.org"))
      (bulk_check_suppressed 3 (codes "bob@x.org" ∷ codes "Ann@x.org" ∷ []) blocked)
    ≡ is_suppressed 3 (codes "Ann@x.org") blocked
bulk_check_suppressed-agrees_example =
    bulk_check_suppressed-agrees 3 (codes "bob@x.org" ∷ codes "Ann@x.org" ∷ []) (codes "Ann@x.org")
      blocked (unfold member in refl)
