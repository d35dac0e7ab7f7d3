-- ===== src/RateLimit/Tests.antt =====
-- The claims on the limits of the API at concrete requests.
use sampmail.Prelude.{
  ℕ, ◌≤◌, ◌≡◌, refl, true, false, some, List, [], ◌∷◌, ◌++◌, Text, codes, text_eq, nat_eq, ◌==◌,
  length, arith, if◌then◌else◌,
}
use sampmail.RateLimit.{Limiter, serve, allow, sliding_window, prune, add_entry}
use sampmail.RateLimit.Window.{in_window, window_bounds}
use sampmail.RateLimit.Burst.{replicate, burst_passes}
use sampmail.RateLimit.Address.{Net, Config, Request, get_real_ip, IsAnswer, get_real_ip-IsAnswer}

-- Two requests in a second.
abbrev limiter : Limiter
limiter = record { enabled = true; rate = 2; window = 1000 }

abbrev requests : List (ℕ × ℕ)
requests = (10, 7) ∷ (20, 7) ∷ (30, 7) ∷ (1015, 7) ∷ []

-- The third request is refused, and the last one passes, as the first has left the window.
served : (serve limiter requests ([], [])).1 ≡ 1015 ∷ 20 ∷ 10 ∷ []
unfolding serve allow sliding_window prune add_entry
served = refl

window_bounds_example : in_window 1000 1015 (serve limiter requests ([], [])).1 ≤ 2
window_bounds_example = window_bounds limiter requests 1015 refl (omega arith)

burst_passes_example : length (serve limiter (replicate 50 (10, 7)) ([], [])).1 ≡ 50
burst_passes_example = burst_passes limiter 10 7 50 refl (omega arith) (omega arith)

abbrev proxy : Text
proxy = codes "10.0.0.1"

-- Of these addresses only the proxy's is private.
abbrev net : Net
net = record {
  host_of = λ s. some s;
  parses = λ s. true;
  is_public = λ s. if s == proxy then false else true;
  contains = λ cidr s. some (s == proxy);
}

abbrev config : Config
config = record { trust_proxy = true; trusted_proxy_cidr = codes "10.0.0.0/8" ∷ [] }

abbrev request : Request
request = record {
  remote_addr = proxy;
  forwarded_for = codes "8.8.8.8" ++ b',' ∷ codes " 203.0.113.9";
  real_ip = [];
}

get_real_ip-IsAnswer_example : IsAnswer net config request (get_real_ip net config request)
get_real_ip-IsAnswer_example = get_real_ip-IsAnswer net config request
