-- ===== src/Webhook/Checked.antt =====
-- internal/core/webhook.go: what `ValidateWebhookURL` lets through.
use sampmail.Prelude.{
  ◌/◌, ◌%◌, ◌^◌, ◌<◌, sym, ap, ◌∙◌, nat_eq, ◌≡◌, ◌⊎◌, refl, true, false, ◌||◌, Option, none, some,
  List, [], ◌∷◌, Text, codes, text_eq, ◌==◌, All, arith, inl, inr,
}
use sampmail.Prelude.Strings.{to_lower}
use sampmail.Webhook.Ranges.{
  is_internal_quad, is_internal_v6, is_internal_ip-quad, is_internal_ip-v6, quad_bytes,
}
use sampmail.Webhook.{
  v4, v6, Ip, Url, is_internal_ip, is_known_webhook_service, some_internal, check_addresses,
  is_local_name, check_url, validate_webhook_url,
}

-- An address outside the reserved ranges, as `is_internal_quad` and `is_internal_v6` list them.
abbrev pub IsPublic : Ip → Type 0
IsPublic (v4 n) =
    is_internal_quad (n / 16777216) (n / 65536 % 256) (n / 256 % 256) (n % 256) ≡ false
IsPublic (v6 n) = is_internal_v6 n ≡ false

-- An IPv4 address has 32 bits.
abbrev pub IsIp : Ip → Type 0
IsIp (v4 n) = n < 2 ^ 32
IsIp (v6 n) = n < 2 ^ 128

abbrev pub AreIps : Option (List Ip) → Type 0
AreIps none = Unit {0}
AreIps (some ips) = All IsIp ips

-- Where the name is found, at public addresses only; where it is not, a known service.
abbrev pub IsReachable : Text → Option (List Ip) → Type 0
IsReachable hostname none = is_known_webhook_service hostname ≡ true
IsReachable hostname (some ips) = All IsPublic ips

abbrev pub IsSafe : (Text → Option (List Ip)) → Option Url → Type 0
IsSafe lookup_ip none = ⊥
IsSafe lookup_ip (some u) =
    ((u.scheme == codes "https" || u.scheme == codes "http") ≡ true)
    × ((is_local_name (to_lower u.hostname)) ≡ false)
    × IsReachable u.hostname (lookup_ip u.hostname)

internal-IsPublic : (ip : Ip) → IsIp ip → is_internal_ip ip ≡ false → IsPublic ip
internal-IsPublic (v4 n) w h =
    let a : n / 16777216 < 256 = omega arith in
    sym (
      is_internal_ip-quad (n / 16777216) (n / 65536 % 256) (n / 256 % 256) (n % 256) a (omega arith)
        (omega arith) (omega arith))
    ∙ ap (λ k. is_internal_ip (v4 k)) (quad_bytes n)
    ∙ h
internal-IsPublic (v6 n) w h = sym (is_internal_ip-v6 n) ∙ h

some_internal-IsPublic :
    (ips : List Ip) → All IsIp ips → some_internal ips ≡ false → All IsPublic ips
some_internal-IsPublic [] w h = tt
some_internal-IsPublic (ip ∷ ips) w h =
    (internal-IsPublic ip w.0 (ground arith), some_internal-IsPublic ips w.1 (ground arith))

check_addresses-IsReachable :
    (hostname : Text) (found : Option (List Ip))
    → AreIps found
    → check_addresses hostname found ≡ none
    → IsReachable hostname found
check_addresses-IsReachable hostname none w h = ground arith
check_addresses-IsReachable hostname (some ips) w h = some_internal-IsPublic ips w (ground arith)

check_url-IsSafe :
    (lookup_ip : Text → Option (List Ip)) (u : Option Url)
    → ((host : Text) → AreIps (lookup_ip host))
    → check_url lookup_ip u ≡ none
    → IsSafe lookup_ip u
check_url-IsSafe lookup_ip none w h = absurd (ground arith)
check_url-IsSafe lookup_ip (some u) w h = (
  ground arith,
  ground arith,
  check_addresses-IsReachable u.hostname (lookup_ip u.hostname) (w u.hostname) (ground arith),
)

-- A URL that is not empty and passes has the scheme http or https and a name that is not the local
-- machine's; if the name resolves, then only to addresses outside the reserved ranges, given byte by
-- byte for IPv4 and by their blocks for IPv6, and if not, it belongs to a known service. A lookup gives
-- addresses of 32 or 128 bits.
pub validate_webhook_url-IsSafe :
    (parse : Text → Option Url) (lookup_ip : Text → Option (List Ip)) (url : Text)
    → ((host : Text) → AreIps (lookup_ip host))
    → validate_webhook_url parse lookup_ip url ≡ none
    → (url ≡ []) ⊎ IsSafe lookup_ip (parse url)
unfolding validate_webhook_url
validate_webhook_url-IsSafe parse lookup_ip [] w h = inl refl
validate_webhook_url-IsSafe parse lookup_ip (c ∷ cs) w h =
    inr (check_url-IsSafe lookup_ip (parse (c ∷ cs)) w h)
