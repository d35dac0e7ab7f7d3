-- ===== src/Webhook/Tests.antt =====
-- The claims on the URLs of webhooks at concrete names and addresses.
use sampmail.Prelude.{
  Bool-cases, inl, inr, ◌≡◌, ◌⊎◌, refl, Option, none, some, List, [], ◌∷◌, Text, codes, text_eq,
  ◌==◌, if◌then◌else◌, arith,
}
use sampmail.Prelude.Strings.{to_lower}
use sampmail.Webhook.{Ip, v4, quad, Url, is_internal_ip, validate_webhook_url}
use sampmail.Webhook.Ranges.{is_internal_quad, is_internal_ip-quad}
use sampmail.Webhook.Checked.{IsSafe, AreIps, validate_webhook_url-IsSafe}

abbrev parse : Text → Option Url
parse url = some (record { scheme = codes "https"; hostname = url })

-- One name has a public address, one an internal one, and no other name is known.
abbrev lookup_ip : Text → Option (List Ip)
lookup_ip host =
    if host == codes "ok.io"
    then some (v4 (quad 8 8 8 8) ∷ [])
    else if host == codes "db.io"
    then some (v4 (quad 10 0 0 7) ∷ [])
    else none

is_internal_ip-quad_example : is_internal_ip (v4 (quad 172 31 0 1)) ≡ is_internal_quad 172 31 0 1
is_internal_ip-quad_example =
    is_internal_ip-quad 172 31 0 1 (omega arith) (omega arith) (omega arith) (omega arith)

lookup_ip-AreIps : (host : Text) → AreIps (lookup_ip host)
lookup_ip-AreIps host = elim (Bool-cases (host == codes "ok.io")) [
  | inl public ↦ rw public (omega arith, tt)
  | inr other ↦ elim (Bool-cases (host == codes "db.io")) [
    | inl internal ↦ rw (other, internal) (omega arith, tt)
    | inr unknown ↦ rw (other, unknown) tt
  ]
]

validate_webhook_url-IsSafe_example :
    (codes "ok.io" ≡ []) ⊎ IsSafe lookup_ip (parse (codes "ok.io"))
unfolding validate_webhook_url is_internal_ip to_lower
validate_webhook_url-IsSafe_example =
    validate_webhook_url-IsSafe parse lookup_ip (codes "ok.io") lookup_ip-AreIps refl
