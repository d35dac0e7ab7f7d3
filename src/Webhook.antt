-- ===== src/Webhook.antt =====
-- internal/core/webhook.go: which URLs a webhook may have. The parsing of a URL and the lookup of a name
-- are other packages'; an address is the number that its bytes make, and an IPv4 address in the form of
-- IPv6 is an IPv4 address, as net.IP takes it. No address that a lookup finds is nil.
pub mod Ranges
pub mod Checked
mod Tests
use sampmail.Prelude.{
  ℕ, ◌+◌, ◌*◌, ◌-◌, ◌/◌, ◌%◌, ◌^◌, Bool, true, false, not, ◌&&◌, ◌||◌, Option, none, some, List, [],
  ◌∷◌, ◌++◌, Text, codes, text_eq, nat_eq, ◌==◌, if◌then◌else◌,
}
use mathlib.Core.List.{reverse}
use sampmail.Prelude.Strings.{to_lower, has_prefix}

pub data Ip : Type 0 where
  v4 v6 : ℕ → Ip

-- a.b.c.d
abbrev pub quad : ℕ → ℕ → ℕ → ℕ → ℕ
quad a b c d = ((a * 256 + b) * 256 + c) * 256 + d

-- net.IP: IsLoopback, IsPrivate, IsLinkLocalUnicast, IsLinkLocalMulticast, IsUnspecified
abbrev pub is_loopback : Ip → Bool
is_loopback (v4 n) = n / 16777216 == 127
is_loopback (v6 n) = n == 1

abbrev pub is_private : Ip → Bool
is_private (v4 n) = n / 16777216 == 10 || (n / 1048576 == 2753 || n / 65536 == 49320)
is_private (v6 n) = n / 2 ^ 121 == 126

abbrev pub is_link_local_unicast : Ip → Bool
is_link_local_unicast (v4 n) = n / 65536 == 43518
is_link_local_unicast (v6 n) = n / 2 ^ 118 == 1018

abbrev pub is_link_local_multicast : Ip → Bool
is_link_local_multicast (v4 n) = n / 256 == 14680064
is_link_local_multicast (v6 n) = n / 2 ^ 120 == 255 && n / 2 ^ 112 % 16 == 2

abbrev pub is_unspecified : Ip → Bool
is_unspecified (v4 n) = n == 0
is_unspecified (v6 n) = n == 0

-- A network: its first address, and how many addresses it has.
pub record Network : Type 0 where
  pub base : Ip
  pub size : ℕ

abbrev pub same_block : ℕ → Ip → Ip → Bool
same_block size (v4 b) (v4 n) = n / size == b / size
same_block size (v6 b) (v6 n) = n / size == b / size
same_block size (v4 b) (v6 n) = false
same_block size (v6 b) (v4 n) = false

abbrev pub network_contains : Network → Ip → Bool
network_contains net ip = same_block net.size net.base ip

-- internalRanges
abbrev pub internal_ranges : List Network
internal_ranges =
    record { base = v4 (quad 169 254 0 0); size = 65536 }
    ∷ record { base = v4 (quad 100 64 0 0); size = 4194304 }
    ∷ record { base = v4 (quad 192 0 0 0); size = 256 }
    ∷ record { base = v4 (quad 192 0 2 0); size = 256 }
    ∷ record { base = v4 (quad 198 18 0 0); size = 131072 }
    ∷ record { base = v4 (quad 198 51 100 0); size = 256 }
    ∷ record { base = v4 (quad 203 0 113 0); size = 256 }
    ∷ record { base = v4 (quad 224 0 0 0); size = 268435456 }
    ∷ record { base = v4 (quad 240 0 0 0); size = 268435456 }
    ∷ record { base = v6 (252 * 2 ^ 120); size = 2 ^ 121 }
    ∷ record { base = v6 (1018 * 2 ^ 118); size = 2 ^ 118 }
    ∷ []

abbrev pub in_some_range : List Network → Ip → Bool
in_some_range [] ip = false
in_some_range (net ∷ nets) ip = network_contains net ip || in_some_range nets ip

-- isInternalIP
unfoldable pub is_internal_ip : Ip → Bool
is_internal_ip ip =
    is_loopback ip
    || (is_private ip
        || (is_link_local_unicast ip
            || (is_link_local_multicast ip
                || (is_unspecified ip || in_some_range internal_ranges ip))))

abbrev pub trusted_domains : List Text
trusted_domains =
    codes "discord.com"
    ∷ codes "discordapp.com"
    ∷ codes "slack.com"
    ∷ codes "hooks.slack.com"
    ∷ codes "api.telegram.org"
    ∷ codes "webhook.site"
    ∷ codes "zapier.com"
    ∷ codes "hooks.zapier.com"
    ∷ codes "ifttt.com"
    ∷ codes "maker.ifttt.com"
    ∷ []

abbrev pub below_some : Text → List Text → Bool
below_some host [] = false
below_some host (domain ∷ domains) =
    (host == domain || has_prefix (reverse host) (reverse (codes "." ++ domain)))
    || below_some host domains

-- isKnownWebhookService
unfoldable pub is_known_webhook_service : Text → Bool
is_known_webhook_service hostname = below_some (to_lower hostname) trusted_domains

-- What url.Parse finds.
pub record Url : Type 0 where
  pub scheme : Text
  pub hostname : Text

pub data UrlError : Type 0 where
  invalid_format wrong_scheme no_hostname is_localhost unresolved resolves_to_internal : UrlError

abbrev pub some_internal : List Ip → Bool
some_internal [] = false
some_internal (ip ∷ ips) = is_internal_ip ip || some_internal ips

abbrev pub check_addresses : Text → Option (List Ip) → Option UrlError
check_addresses hostname none = if is_known_webhook_service hostname then none else some unresolved
check_addresses hostname (some ips) = if some_internal ips then some resolves_to_internal else none

abbrev pub is_local_name : Text → Bool
is_local_name host = host == codes "localhost" || (host == codes "127.0.0.1" || host == codes "::1")

abbrev pub check_url : (Text → Option (List Ip)) → Option Url → Option UrlError
check_url lookup_ip none = some invalid_format
check_url lookup_ip (some u) =
    if not (u.scheme == codes "https") && not (u.scheme == codes "http")
    then some wrong_scheme
    else if u.hostname == []
    then some no_hostname
    else if is_local_name (to_lower u.hostname)
    then some is_localhost
    else check_addresses u.hostname (lookup_ip u.hostname)

-- ValidateWebhookURL; `none` is no error.
unfoldable pub validate_webhook_url :
    (Text → Option Url) → (Text → Option (List Ip)) → Text → Option UrlError
validate_webhook_url parse lookup_ip url =
    if url == [] then none else check_url lookup_ip (parse url)
