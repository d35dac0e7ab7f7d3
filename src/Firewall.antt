-- ===== src/Firewall.antt =====
-- internal/firewall/blocker.go: the blocker in memory, the one that does nothing, and the guard of
-- `BlockIP`. Addresses are Go's `net.IP`, a parameter: parsing, printing and the classes of addresses.
-- Left out: the two blockers that run a command of the system, and the choice at the start.
pub mod Words
pub mod Guard
mod Tests
use sampmail.Prelude.{
  ℕ, ◌≡◌, Bool, true, false, Option, none, some, List, [], ◌∷◌, Text, text_eq, ◌==◌, if◌then◌else◌,
}
use sampmail.Prelude.Map

pub record Net : Type 1 where
  pub Ip : Type 0
  pub parse_ip : Text → Option Ip
  pub show : Ip → Text
  pub is_loopback : Ip → Bool
  pub is_private : Ip → Bool
  pub is_unspecified : Ip → Bool
  -- Two addresses that print alike are the same.
  pub show_injective : (a b : Ip) → show a ≡ show b → a ≡ b

pub data Reply : Type 0 where
  fine invalid loopback private unspecified : Reply

-- `map[string]bool`, with the printed address as the key.
abbrev pub Blocked : Type 0
Blocked = List (Text × Bool)

abbrev pub read : Option Bool → Bool
read none = false
read (some b) = b

module _ (net : Net) where
  open net use {Ip, parse_ip, show, is_loopback, is_private, is_unspecified}

  abbrev pub block_parsed : Option Ip → Blocked → Blocked × Reply
  block_parsed none m = (m, invalid)
  block_parsed (some ip) m = (Map.insert (show ip) true m, fine)

  -- MemoryBlocker.Block
  unfoldable pub block : Text → Blocked → Blocked × Reply
  block ip m = block_parsed (parse_ip ip) m

  abbrev pub unblock_parsed : Option Ip → Blocked → Blocked × Reply
  unblock_parsed none m = (m, invalid)
  unblock_parsed (some ip) m = (Map.remove (show ip) m, fine)

  -- MemoryBlocker.Unblock
  unfoldable pub unblock : Text → Blocked → Blocked × Reply
  unblock ip m = unblock_parsed (parse_ip ip) m

  abbrev pub is_blocked_parsed : Option Ip → Blocked → Bool
  is_blocked_parsed none m = false
  is_blocked_parsed (some ip) m = read (Map.lookup (show ip) m)

  -- MemoryBlocker.IsBlocked
  unfoldable pub is_blocked : Text → Blocked → Bool
  is_blocked ip m = is_blocked_parsed (parse_ip ip) m

  -- MemoryBlocker.ListBlocked, in the order of the map.
  unfoldable pub list_blocked : Blocked → List Text
  list_blocked [] = []
  list_blocked ((ip, _) ∷ m) = ip ∷ list_blocked m

  abbrev pub validate_parsed : Option Ip → Reply
  validate_parsed none = invalid
  validate_parsed (some ip) =
      if is_loopback ip
      then loopback
      else if is_private ip
      then private
      else if is_unspecified ip
      then unspecified
      else fine

  unfoldable pub validate_ip : Text → Reply
  validate_ip ip = validate_parsed (parse_ip ip)

  abbrev pub block_valid : Reply → Text → Blocked → Blocked × Reply
  block_valid fine ip m = block ip m
  block_valid invalid ip m = (m, invalid)
  block_valid loopback ip m = (m, loopback)
  block_valid private ip m = (m, private)
  block_valid unspecified ip m = (m, unspecified)

  -- BlockIP, with the blocker in memory.
  unfoldable pub block_ip : Text → Blocked → Blocked × Reply
  unfolding block validate_ip
  block_ip ip m = block_valid (validate_ip ip) ip m
