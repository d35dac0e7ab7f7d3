-- ===== src/SmtpPool.antt =====
-- internal/core/smtp_pool.go: the pool of connections to the mail server. A connection is a number, in
-- place of a pointer; the answers of the network are arguments. A step is what happens under one hold
-- of the lock, or at one receive or send on the channel `available`; any order of steps is a run of
-- the pool's goroutines. Left out: sending a mail over a connection, and the waits of five seconds.
pub mod Slices
pub mod Bounds
pub mod Checks
mod Tests
use sampmail.Prelude.{
  ℕ, zero, suc, ◌+◌, ◌-◌, Bool, true, false, not, ◌&&◌, ◌||◌, Option, none, some, List, [], ◌∷◌,
  ◌++◌, nat_eq, ◌==◌, ltb, leb, length, if◌then◌else◌,
}
use sampmail.Prelude.Map
use sampmail.SmtpPool.Slices.{Slice, whole, sweep}

-- SMTPConnection, without its socket
pub record Conn : Type 0 where
  pub last_used : ℕ
  pub in_use : Bool

-- SMTPPool with the fields of its configuration that are read; `available` is the channel, the next to
-- be received first.
pub record Pool : Type 0 where
  pub max_connections : ℕ
  pub min_connections : ℕ
  pub max_idle_time : ℕ
  pub conns : List (ℕ × Conn)
  pub connections : List ℕ
  pub available : List ℕ
  pub next : ℕ
  pub closed : Bool

unfoldable pub remove_first : ℕ → List ℕ → List ℕ
remove_first id [] = []
remove_first id (c ∷ cs) = let rest = remove_first id cs in if c == id then cs else c ∷ rest

-- closeConnection and closeConnectionLocked
unfoldable pub close_connection : ℕ → Pool → Pool
unfolding remove_first
close_connection id p = record p { connections = remove_first id p.connections }

abbrev pub used_recently : ℕ → ℕ → Option Conn → Bool
used_recently now max none = false
used_recently now max (some c) = leb (now - c.last_used) max

-- isHealthy; `noop` is the server's answer.
unfoldable pub is_healthy : ℕ → Bool → ℕ → Pool → Bool
is_healthy now noop id p = used_recently now p.max_idle_time (Map.lookup id p.conns) && noop

unfoldable pub set_conn : ℕ → ℕ → Bool → Pool → Pool
set_conn id now in_use p = record p {
  conns = Map.insert id (record { last_used = now; in_use = in_use }) p.conns;
}

pub data Reply : Type 0 where
  got : ℕ → Reply
  fine none_available bad_connection pool_full pool_closed : Reply

-- A receive from `available`, as in Get and in the two waits of createAndReturn.
unfoldable pub receive : List ℕ → ℕ → Bool → Pool → Pool × Reply
unfolding is_healthy set_conn close_connection
receive [] now noop p = (p, none_available)
receive (id ∷ ids) now noop p =
    let p' = record p { available = ids } in
    if is_healthy now noop id p'
    then (set_conn id now true p', got id)
    else (close_connection id p', bad_connection)

-- The start of Get, up to its `select`.
unfoldable pub get : ℕ → Bool → Pool → Pool × Reply
unfolding receive
get now noop p = if p.closed then (p, pool_closed) else receive p.available now noop p

-- createAndReturn, once the connection is dialed: the second look at the capacity.
unfoldable pub add_connection : ℕ → Pool → Pool × Reply
unfolding set_conn
add_connection now p =
    if leb p.max_connections (length p.connections)
    then (record p { next = suc p.next }, pool_full)
    else (
      record (set_conn p.next now true p) {
        connections = p.connections ++ p.next ∷ [];
        next = suc p.next;
      },
      got p.next,
    )

-- Put
unfoldable pub put : ℕ → ℕ → Pool → Pool × Reply
unfolding set_conn close_connection
put id now p =
    let p' = set_conn id now false p in
    if p.closed
    then (close_connection id p, fine)
    else if ltb (length p'.available) p'.max_connections
    then (record p' { available = p'.available ++ id ∷ [] }, fine)
    else (close_connection id p', fine)

-- One connection that checkConnections dials, to reach the minimum.
unfoldable pub dial_idle : ℕ → Pool → Pool
unfolding set_conn
dial_idle now p =
    let p' = set_conn p.next now false p in
    record p' {
      connections = p.connections ++ p.next ∷ [];
      available =
          if ltb (length p.available) p.max_connections
          then p.available ++ p.next ∷ []
          else p.available;
      next = suc p.next;
    }

-- The loop to the minimum; `dials` is the number of dials that succeed.
unfoldable pub top_up : ℕ → ℕ → Pool → Pool
unfolding dial_idle
top_up zero now p = p
top_up (suc dials) now p =
    let rest = top_up dials now (dial_idle now p) in
    if ltb (length p.connections) p.min_connections then rest else p

abbrev pub in_use : Option Conn → Bool
in_use none = false
in_use (some c) = c.in_use

-- Whether checkConnections keeps a connection.
unfoldable pub keeps : ℕ → (ℕ → Bool) → Pool → ℕ → Bool
unfolding is_healthy
keeps now noop p id = in_use (Map.lookup id p.conns) || is_healthy now (noop id) id p

-- checkConnections
unfoldable pub check_connections : ℕ → (ℕ → Bool) → ℕ → Pool → Pool
unfolding keeps top_up
check_connections now noop dials p = top_up dials now (record p {
  connections = sweep (keeps now noop p) (length p.connections) 0 (whole p.connections) [];
})

-- Close
unfoldable pub close : Pool → Pool
close p = if p.closed then p else record p { closed = true; connections = []; available = [] }

-- NewSMTPPool; `dials` of the first dials succeed.
unfoldable pub new_pool : ℕ → ℕ → ℕ → ℕ → ℕ → Pool
unfolding top_up
new_pool max min idle dials now = top_up dials now (record {
  max_connections = max;
  min_connections = min;
  max_idle_time = idle;
  conns = [];
  connections = [];
  available = [];
  next = 0;
  closed = false;
})

-- The steps of the goroutines.
pub data Step : Type 0 where
  getting : ℕ → Bool → Step
  adding : ℕ → Step
  putting : ℕ → ℕ → Step
  marking_bad : ℕ → Step
  checking : ℕ → (ℕ → Bool) → ℕ → Step
  closing : Step

unfoldable pub step : Step → Pool → Pool
unfolding get add_connection put close_connection check_connections close
step (getting now noop) p = (get now noop p).0
step (adding now) p = (add_connection now p).0
step (putting id now) p = (put id now p).0
step (marking_bad id) p = close_connection id p
step (checking now noop dials) p = check_connections now noop dials p
step closing p = close p

unfoldable pub run : List Step → Pool → Pool
run [] p = p
run (s ∷ ss) p = run ss (step s p)
