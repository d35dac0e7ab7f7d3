-- ===== src/Bounce/Logs.antt =====
-- internal/core/bounce_processor.go: `processLogFileIncremental` and `ProcessKumoMTALogs`. A file is
-- its characters, one to a byte; nothing is written between the look at its size and the reading.
use sampmail.Prelude.{
  ℕ, ◌+◌, Bool, not, ◌&&◌, Option, none, some, true, false, List, [], ◌∷◌, Text, text_eq, nat_eq,
  ◌==◌, ltb, leb, length, drop, if◌then◌else◌,
}
use sampmail.Prelude.Map
use sampmail.Prelude.Strings.{cons_head}
use sampmail.Bounce.{Tables, Calls}
use sampmail.Bounce.Record.{record_bounce}
use sampmail.Bounce.Lines.{parse_log_line, is_bounce_line}

-- ProcessedLogFile
pub record Offset : Type 0 where
  pub last_offset : ℕ
  pub last_size : ℕ

-- The lines of a text; what stands after the last newline is a line of its own if it is not empty.
unfoldable pub scan : Text → List Text
scan [] = []
scan (c ∷ s) = let rest = scan s in if c == 10 then [] ∷ rest else cons_head c rest

-- bufio.ScanLines drops a carriage return at the end of a line.
unfoldable pub drop_return : Text → Text
drop_return [] = []
drop_return (c ∷ []) = if c == 13 then [] else c ∷ []
drop_return (c ∷ d ∷ s) = c ∷ drop_return (d ∷ s)

-- The body of the loop on one line, with the number of bounces recorded.
unfoldable pub process_line : Calls → Text → Tables × ℕ → Tables × ℕ
process_line calls line (db, count) =
    let info = parse_log_line line in
    let (db', done) = record_bounce calls info db in
    if is_bounce_line line && not (info.recipient == [])
    then (db', if done then count + 1 else count)
    else (db, count)

unfoldable pub process_lines : Calls → List Text → Tables × ℕ → Tables × ℕ
unfolding drop_return
process_lines calls [] r = r
process_lines calls (l ∷ ls) r = process_lines calls ls (process_line calls (drop_return l) r)

abbrev pub unread : Offset
unread = record { last_offset = 0; last_size = 0 }

-- Where the reading starts; a file that has become smaller was rotated.
unfoldable pub start_of : Offset → Text → ℕ
start_of state file = if ltb (length file) state.last_size then 0 else state.last_offset

-- The longest token of the scanner; a line that fills the buffer ends the scan.
abbrev pub max_token : ℕ
max_token = 1048576

abbrev pub after_line : ℕ → Option ℕ → Option ℕ
after_line n none = none
after_line n (some k) = some (n + 1 + k)

-- The lines that the scanner gives, and, if a line is too long, how far the file was read by then: to the
-- line's start and a full buffer more.
unfoldable pub scan_lines : List Text → List Text × Option ℕ
scan_lines [] = ([], none)
scan_lines (l ∷ ls) =
    let rest = scan_lines ls in
    if leb max_token (length l)
    then ([], some max_token)
    else (l ∷ rest.0, after_line (length l) rest.1)

-- The answers of the calls of one pass: the load and the save of the state, whose errors are dropped,
-- and the opening of the file with the seek.
pub record Pass : Type 0 where
  pub loads : Bool
  pub opens : Bool
  pub saves : Bool

abbrev pub end_of : Text → ℕ → Option ℕ → ℕ
end_of file from none = length file
end_of file from (some k) = from + k

-- processLogFileIncremental, with the stored state and the number so far as arguments. A state that
-- is not loaded is the zero value, and one that is not saved stays as it was stored.
unfoldable pub process_log_file : Calls → Pass → Text → Offset → Tables × ℕ → Offset × (Tables × ℕ)
unfolding start_of scan_lines
process_log_file calls pass file stored r =
    let state = if pass.loads then stored else unread in
    let from = start_of state file in
    let found = scan_lines (scan (drop from file)) in
    let state' : Offset = record {
      last_offset = end_of file from found.1;
      last_size = length file;
    } in
    if leb (length file) from
    then (stored, r)
    else if pass.opens
    then (if pass.saves then state' else stored, process_lines calls found.0 r)
    else (stored, r)

abbrev pub is_none : Option ℕ → Bool
is_none none = true
is_none (some k) = false

-- The scanner ends without an error.
unfoldable pub scans_well : Pass → Text → Offset → Bool
unfolding start_of scan_lines
scans_well pass file stored =
    let from = start_of (if pass.loads then stored else unread) file in
    is_none (scan_lines (scan (drop from file))).1

-- ProcessKumoMTALogs, with the state of each file by its path. The bounces of a file whose scan
-- ends with an error are not counted.
unfoldable pub process_kumo_mta_logs :
    Calls
    → List (Text × Text × Pass)
    → List (Text × Offset)
    → Tables × ℕ
    → List (Text × Offset) × (Tables × ℕ)
unfolding process_log_file scans_well
process_kumo_mta_logs calls [] states r = (states, r)
process_kumo_mta_logs calls ((path, file, pass) ∷ files) states r =
    let state : Offset = elim (Map.lookup path states) [ none ↦ unread | some state ↦ state ] in
    let (state', (db, count)) = process_log_file calls pass file state r in
    process_kumo_mta_logs calls files (Map.insert path state' states)
      (db, if scans_well pass file state then count else r.1)
