-- ===== src/RateLimit/Address.antt =====
-- internal/middleware/custom/ratelimit.go and internal/config/config.go: whose requests a limiter
-- counts. What the package `net` finds in a text is a parameter.
use sampmail.Prelude.{
  ℕ, ◌≡◌, refl, ◌⊎◌, Bool, true, false, not, ◌&&◌, ◌||◌, Option, none, some, List, [], ◌∷◌, ◌++◌,
  Text, text_eq, nat_eq, ◌==◌, arith, if◌then◌else◌, Bool-cases, Option-cases, inl, inr,
}
use mathlib.Core.Path.{subst}
use sampmail.Prelude.Strings.{trim_space, split}
use sampmail.Prelude.Split.{Lacks, split-append}

-- SplitHostPort, ParseIP, ParseCIDR with Contains, and whether an address is neither private nor a
-- loopback.
pub record Net : Type 0 where
  pub host_of : Text → Option Text
  pub parses : Text → Bool
  pub is_public : Text → Bool
  pub contains : Text → Text → Option Bool

-- The fields of the configuration that are read.
pub record Config : Type 0 where
  pub trust_proxy : Bool
  pub trusted_proxy_cidr : List Text

-- The address of the connection and the two headers.
pub record Request : Type 0 where
  pub remote_addr : Text
  pub forwarded_for : Text
  pub real_ip : Text

abbrev pub is_true : Option Bool → Bool
is_true none = false
is_true (some b) = b

in_some : Net → List Text → Text → Bool
in_some net [] ip = false
in_some net (c ∷ cs) ip = elim (is_true (net.contains c ip)) [
  | true ↦ true
  | false ↦ in_some net cs ip
]

-- IsTrustedProxy
unfoldable pub is_trusted_proxy : Net → Config → Text → Bool
unfolding in_some
is_trusted_proxy net cfg ip =
    cfg.trust_proxy && net.parses ip && in_some net cfg.trusted_proxy_cidr ip

abbrev pub usable : Net → Text → Bool
usable net ip = net.parses ip && net.is_public ip

-- The first part of X-Forwarded-For that is a public address.
unfoldable pub first_public : Net → List Text → Option Text
first_public net [] = none
first_public net (p ∷ ps) =
    let later = first_public net ps in
    if usable net (trim_space p) then some (trim_space p) else later

abbrev pub remote_ip : Net → Request → Text
remote_ip net r = elim (net.host_of r.remote_addr) [ none ↦ r.remote_addr | some host ↦ host ]

abbrev pub from_real_ip : Net → Request → Text
from_real_ip net r =
    if not (r.real_ip == []) && usable net (trim_space r.real_ip)
    then trim_space r.real_ip
    else remote_ip net r

abbrev pub forwarded : Net → Request → Option Text
forwarded net r =
    if r.forwarded_for == [] then none else first_public net (split b',' r.forwarded_for)

-- GetRealIP
unfoldable pub get_real_ip : Net → Config → Request → Text
unfolding is_trusted_proxy first_public
get_real_ip net cfg r =
    if not cfg.trust_proxy || not (is_trusted_proxy net cfg (remote_ip net r))
    then remote_ip net r
    else elim (forwarded net r) [ some ip ↦ ip | none ↦ from_real_ip net r ]

-- An answer is a public address.
abbrev AllUsable : Net → Option Text → Type 0
AllUsable net none = Unit {0}
AllUsable net (some ip) = usable net ip ≡ true

first_public-AllUsable : (net : Net) (ps : List Text) → AllUsable net (first_public net ps)
unfolding first_public
first_public-AllUsable net [] = tt
first_public-AllUsable net (p ∷ ps) = elim (Bool-cases (usable net (trim_space p))) [
  | inl e ↦ rw (e, first_public) e
  | inr e ↦ rw (e, first_public) (first_public-AllUsable net ps)
]

forwarded-AllUsable : (net : Net) (r : Request) → AllUsable net (forwarded net r)
forwarded-AllUsable net r = elim (Bool-cases (r.forwarded_for == [])) [
  | inl e ↦ rw e tt
  | inr e ↦ rw e (first_public-AllUsable net (split b',' r.forwarded_for))
]

-- What is claimed of an address.
abbrev pub IsAnswer : Net → Config → Request → Text → Type 0
IsAnswer net cfg r ip =
    (ip ≡ remote_ip net r)
    ⊎ ((is_trusted_proxy net cfg (remote_ip net r) ≡ true) × (usable net ip ≡ true))

from_real_ip-IsAnswer :
    (net : Net) (cfg : Config) (r : Request)
    → is_trusted_proxy net cfg (remote_ip net r) ≡ true
    → IsAnswer net cfg r (from_real_ip net r)
from_real_ip-IsAnswer net cfg r trusted =
    elim (Bool-cases (not (r.real_ip == []) && usable net (trim_space r.real_ip))) [
      | inl e ↦ rw e (inr (trusted, ground (arith, e)))
      | inr e ↦ rw e (inl refl)
    ]

-- GetRealIP answers the address of the connection, or, only where that is a trusted proxy by the
-- configuration, an address that parses and is neither private nor a loopback: a header of anyone
-- else's request is not looked at.
pub get_real_ip-IsAnswer :
    (net : Net) (cfg : Config) (r : Request) → IsAnswer net cfg r (get_real_ip net cfg r)
unfolding get_real_ip
get_real_ip-IsAnswer net cfg r =
    elim (Bool-cases (not cfg.trust_proxy || not (is_trusted_proxy net cfg (remote_ip net r)))) [
      | inl e ↦ rw (e, get_real_ip) (inl refl)
      | inr e ↦
          let trusted : is_trusted_proxy net cfg (remote_ip net r) ≡ true = ground (arith, e) in
          elim (Option-cases (forwarded net r)) [
            | inl f ↦
                rw (e, get_real_ip) (rw (f, get_real_ip) (from_real_ip-IsAnswer net cfg r trusted))
            | inr (ip, f) ↦
                rw (e, get_real_ip)
                  (rw (f, get_real_ip)
                    (inr (trusted, subst (AllUsable net) f (forwarded-AllUsable net r))))
          ]
    ]

not_empty : (s : Text) (c : ℕ) (t : Text) → ((s ++ c ∷ t) == []) ≡ false
not_empty [] c t = refl
not_empty (d ∷ s) c t = refl

-- A proxy that is trusted appends the address it saw to X-Forwarded-For. Whatever it appends, GetRealIP
-- answers the part that the client has put before it, if that is a public address.
pub forwarded_spoofed :
    (net : Net) (cfg : Config) (r : Request) (claimed appended : Text)
    → cfg.trust_proxy ≡ true
    → is_trusted_proxy net cfg (remote_ip net r) ≡ true
    → Lacks b',' claimed
    → usable net (trim_space claimed) ≡ true
    → r.forwarded_for ≡ claimed ++ b',' ∷ appended
    → get_real_ip net cfg r ≡ trim_space claimed
unfolding get_real_ip first_public
forwarded_spoofed net cfg r claimed appended trust trusted lacks good header =
    let guard : (not cfg.trust_proxy || not (is_trusted_proxy net cfg (remote_ip net r))) ≡ false =
      ground (arith, trust, trusted) in
    let parts : first_public net (split b',' r.forwarded_for) ≡ some (trim_space claimed) =
      rw header (rw (split-append b',' claimed appended lacks) (rw (good, first_public) refl)) in
    let some_header : (r.forwarded_for == []) ≡ false =
      rw header (not_empty claimed b',' appended) in
    let found : forwarded net r ≡ some (trim_space claimed) = rw some_header parts in
    rw (guard, get_real_ip) (rw (found, get_real_ip) refl)
