-- ===== src/Firewall/Words.antt =====
-- internal/firewall/blocker.go: what the blocker in memory answers after a sequence of calls.
use sampmail.Prelude.{
  ◌≡◌, refl, ap, ◌∙◌, Bool, true, false, Option, none, some, List, [], ◌∷◌, Text, text_eq, ◌==◌,
  arith, if◌then◌else◌,
}
use sampmail.Prelude.Map
use sampmail.Prelude.Map.{lookup-insert, lookup-remove}
use sampmail.Firewall.{
  Net, Blocked, read, block, unblock, is_blocked, block_parsed, unblock_parsed, is_blocked_parsed,
}

pub data Command : Type 0 where
  blocks unblocks : Text → Command

module _ (net : Net) where
  open net use {Ip, parse_ip, show}

  unfoldable pub perform : Command → Blocked → Blocked
  unfolding block unblock
  perform (blocks ip) m = (block net ip m).0
  perform (unblocks ip) m = (unblock net ip m).0

  abbrev pub run : List Command → Blocked → Blocked
  run [] m = m
  run (c ∷ cs) m = run cs (perform c m)

  -- Whether a text is the address with this printed form, in any notation.
  abbrev pub names : Text → Option Ip → Bool
  names key none = false
  names key (some ip) = show ip == key

  -- The last command about an address decides.
  abbrev pub word : Text → Command → Bool → Bool
  word key (blocks ip) b = if names key (parse_ip ip) then true else b
  word key (unblocks ip) b = if names key (parse_ip ip) then false else b

  abbrev pub last_word : Text → List Command → Bool → Bool
  last_word key [] b = b
  last_word key (c ∷ cs) b = last_word key cs (word key c b)

  block-word :
      (o : Option Ip) (key : Text) (m : Blocked)
      → read (Map.lookup key (block_parsed net o m).0)
        ≡ (if names key o then true else read (Map.lookup key m))
  block-word none key m = refl
  block-word (some ip) key m = ground (arith, lookup-insert (show ip) key true m)

  unblock-word :
      (o : Option Ip) (key : Text) (m : Blocked)
      → read (Map.lookup key (unblock_parsed net o m).0)
        ≡ (if names key o then false else read (Map.lookup key m))
  unblock-word none key m = refl
  unblock-word (some ip) key m = ground (arith, lookup-remove (show ip) key m)

  perform-word :
      (c : Command) (key : Text) (m : Blocked)
      → read (Map.lookup key (perform c m)) ≡ word key c (read (Map.lookup key m))
  unfolding perform
  perform-word (blocks ip) key m = block-word (parse_ip ip) key m
  perform-word (unblocks ip) key m = unblock-word (parse_ip ip) key m

  run-word :
      (cs : List Command) (key : Text) (m : Blocked)
      → read (Map.lookup key (run cs m)) ≡ last_word key cs (read (Map.lookup key m))
  run-word [] key m = refl
  run-word (c ∷ cs) key m =
      run-word cs key (perform c m) ∙ ap (last_word key cs) (perform-word c key m)

  -- What an answer should be: for a text that is an address, by the last command about that address.
  abbrev pub answer : Option Ip → List Command → Bool
  answer none cs = false
  answer (some ip) cs = last_word (show ip) cs false

  is_blocked_parsed-run :
      (o : Option Ip) (cs : List Command) → is_blocked_parsed net o (run cs []) ≡ answer o cs
  unfolding Map.lookup
  is_blocked_parsed-run none cs = refl
  is_blocked_parsed-run (some ip) cs = run-word cs (show ip) []

  -- After any sequence of blocks and unblocks from the empty blocker, a text is blocked exactly if it
  -- is an address and the last command about that address, in whatever notation, was a block; a text
  -- that is no address neither changes anything nor is blocked.
  pub is_blocked-run :
      (cs : List Command) (ip : Text) → is_blocked net ip (run cs []) ≡ answer (parse_ip ip) cs
  unfolding is_blocked
  is_blocked-run cs ip = is_blocked_parsed-run (parse_ip ip) cs
