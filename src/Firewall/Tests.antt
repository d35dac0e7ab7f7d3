-- ===== src/Firewall/Tests.antt =====
-- Runs of internal/firewall/blocker.go, with addresses that are read without regard to case.
use sampmail.Prelude.{false, Option, none, some, List, [], ◌∷◌, Text, codes, text_eq, ◌==◌}
use sampmail.Prelude.Strings.{to_lower}
use sampmail.Firewall.{Net}
use sampmail.Firewall.Words.{Command, blocks, unblocks}

abbrev lower_cased : Text → Option Text
lower_cased [] = none
lower_cased (c ∷ s) = some (to_lower (c ∷ s))

abbrev hex : Net
hex = record {
  Ip = Text;
  parse_ip = lower_cased;
  show = λ ip. ip;
  is_loopback = λ ip. ip == codes "::1";
  is_private = λ ip. false;
  is_unspecified = λ ip. ip == codes "::";
  show_injective = λ a b e. e;
}

abbrev words : List Command
words = blocks (codes "2001:DB8::5") ∷ unblocks (codes "::7") ∷ blocks [] ∷ []
