-- ===== src/Firewall/Guard.antt =====
-- internal/firewall/blocker.go: `BlockIP` and the protected addresses.
use sampmail.Prelude.{
  ◌≡◌, refl, ap, Bool, true, false, ◌||◌, Option, none, some, List, [], ◌∷◌, Text, text_eq, ◌==◌,
  ==_iff, arith, Bool-cases, inl, inr,
}
use sampmail.Prelude.Map
use sampmail.Prelude.Map.{lookup-insert}
use sampmail.Firewall.{
  Net, Blocked, read, block, is_blocked, block_parsed, validate_parsed, block_ip, block_valid,
  Reply, fine, invalid, loopback, private, unspecified,
}

module _ (net : Net) where
  open net use {Ip, parse_ip, show, is_loopback, is_private, is_unspecified, show_injective}

  abbrev pub block_all : List Text → Blocked → Blocked
  block_all [] m = m
  block_all (ip ∷ ips) m = block_all ips (block_ip net ip m).0

  abbrev pub protected : Ip → Bool
  protected ip = is_loopback ip || is_private ip || is_unspecified ip

  -- No protected address is blocked.
  abbrev pub Spares : Blocked → Type 0
  Spares m = (ip : Ip) → protected ip ≡ true → read (Map.lookup (show ip) m) ≡ false

  valid_spared : (ip : Ip) → validate_parsed net (some ip) ≡ fine → protected ip ≡ false
  valid_spared ip h = ground arith

  parsed-Spares :
      (o : Option Ip) (m : Blocked)
      → validate_parsed net o ≡ fine
      → Spares m
      → Spares (block_parsed net o m).0
  parsed-Spares none m h s = s
  parsed-Spares (some ip) m h s = λ other p. elim (Bool-cases (show ip == show other)) [
    | inl same ↦
        let e : ip ≡ other = show_injective ip other ((==_iff (show ip) (show other)).0 same) in
        absurd (ground (arith, ap protected e, valid_spared ip h, p))
    | inr differs ↦ ground (arith, differs, lookup-insert (show ip) (show other) true m, s other)
  ]

  valid-Spares :
      (r : Reply) (ip : Text) (m : Blocked)
      → validate_parsed net (parse_ip ip) ≡ r
      → Spares m
      → Spares (block_valid net r ip m).0
  unfolding block
  valid-Spares fine ip m h s = parsed-Spares (parse_ip ip) m h s
  valid-Spares invalid ip m h s = s
  valid-Spares loopback ip m h s = s
  valid-Spares private ip m h s = s
  valid-Spares unspecified ip m h s = s

  block_all-Spares : (ips : List Text) (m : Blocked) → Spares m → Spares (block_all ips m)
  unfolding block_ip
  block_all-Spares [] m s = s
  block_all-Spares (ip ∷ ips) m s =
      block_all-Spares ips (block_ip net ip m).0
        (valid-Spares (validate_parsed net (parse_ip ip)) ip m refl s)

  -- However often BlockIP is called, and with whatever texts, no address of the loopback, of a private
  -- range, or the unspecified one, is blocked.
  pub block_all-spared :
      (ips : List Text) (text : Text) (ip : Ip)
      → parse_ip text ≡ some ip
      → protected ip ≡ true
      → is_blocked net text (block_all ips []) ≡ false
  unfolding is_blocked Map.lookup
  block_all-spared ips text ip parsed p = rw parsed (block_all-Spares ips [] (λ other q. refl) ip p)
