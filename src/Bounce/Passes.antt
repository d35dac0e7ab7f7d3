-- ===== src/Bounce/Passes.antt =====
-- internal/core/bounce_processor.go: reading a log that grows. A pass is one call of
-- `processLogFileIncremental`.
use sampmail.Prelude.{
  ℕ, ◌<◌, ◌≡◌, refl, sym, ap, ◌∙◌, true, false, none, List, [], ◌∷◌, ◌++◌, Text, nat_eq, ◌==◌,
  ==_iff, ltb, leb, length, length-append, drop, All, arith, Bool-cases, inl, inr,
}
use mathlib.Core.List.{append_assoc, append-nil}
use sampmail.Prelude.Strings.{cons_head}
use sampmail.Bounce.{Tables, Calls}
use sampmail.Bounce.Logs.{
  Offset, scan, process_line, process_lines, drop_return, unread, start_of, scan_lines, max_token,
  Pass, process_log_file,
}

-- A text that is empty or ends in a newline.
abbrev pub IsWhole : Text → Type 0
IsWhole [] = Unit {0}
IsWhole (c ∷ []) = c ≡ 10
IsWhole (c ∷ d ∷ s) = IsWhole (d ∷ s)

abbrev NonEmpty : List Text → Type 0
NonEmpty [] = ⊥
NonEmpty (l ∷ ls) = Unit {0}

cons_head-NonEmpty : (c : ℕ) (ls : List Text) → NonEmpty (cons_head c ls)
cons_head-NonEmpty c [] = tt
cons_head-NonEmpty c (l ∷ ls) = tt

scan-NonEmpty : (c : ℕ) (s : Text) → NonEmpty (scan (c ∷ s))
unfolding scan
scan-NonEmpty c s = elim (Bool-cases (c == 10)) [
  | inl e ↦ rw (e, scan) tt
  | inr e ↦ rw (e, scan) (cons_head-NonEmpty c (scan s))
]

cons_head-append :
    (c : ℕ) (ls ms : List Text) → NonEmpty ls → cons_head c (ls ++ ms) ≡ cons_head c ls ++ ms
cons_head-append c [] ms h = absurd h
cons_head-append c (l ∷ ls) ms h = refl

-- A text that is whole does not share a line with what follows it.
scan-append : (s t : Text) → IsWhole s → scan (s ++ t) ≡ scan s ++ scan t
unfolding scan
scan-append [] t h = refl
scan-append (c ∷ []) t h = let e : (c == 10) ≡ true = (==_iff c 10).1 h in rw (e, scan) refl
scan-append (c ∷ d ∷ s) t h =
    let ih = scan-append (d ∷ s) t h in
    elim (Bool-cases (c == 10)) [
      | inl e ↦ rw (e, scan) (ap (λ ls. [] ∷ ls) ih)
      | inr e ↦
          rw (e, scan)
            (ap (cons_head c) ih ∙ cons_head-append c (scan (d ∷ s)) (scan t) (scan-NonEmpty d s))
    ]

process_lines-append :
    (calls : Calls) (ls ms : List Text) (r : Tables × ℕ)
    → process_lines calls (ls ++ ms) r ≡ process_lines calls ms (process_lines calls ls r)
unfolding process_lines
process_lines-append calls [] ms r = refl
process_lines-append calls (l ∷ ls) ms r =
    process_lines-append calls ls ms (process_line calls (drop_return l) r)

drop-append : (s t : Text) → drop (length s) (s ++ t) ≡ t
drop-append [] t = refl
drop-append (c ∷ s) t = drop-append s t

-- The state after all of a file has been read.
abbrev pub at_end : Text → Offset
at_end file = record { last_offset = length file; last_size = length file }

-- A line that the scanner's buffer holds.
abbrev pub IsShort : Text → Type 0
IsShort l = leb max_token (length l) ≡ false

abbrev pub HasShortLines : Text → Type 0
HasShortLines s = All IsShort (scan s)

-- No call of the database or the file system fails.
abbrev pub works : Pass
works = record { loads = true; opens = true; saves = true }

-- One such pass after each piece that is appended to the file.
pub follow : Calls → List Text → Text → Offset → Tables × ℕ → Offset × (Tables × ℕ)
follow calls [] file state r = (state, r)
follow calls (piece ∷ pieces) file state r =
    let pass = process_log_file calls works (file ++ piece) state r in
    follow calls pieces (file ++ piece) pass.0 pass.1

abbrev pub concat : List Text → Text
concat [] = []
concat (s ∷ ss) = s ++ concat ss

scan_lines_lem : (ls : List Text) → All IsShort ls → scan_lines ls ≡ (ls, none)
unfolding scan_lines
scan_lines_lem [] h = refl
scan_lines_lem (l ∷ ls) h = rw (h.0, scan_lines_lem ls h.1) refl

All_append-IsShort : (ls ms : List Text) → All IsShort ls → All IsShort ms → All IsShort (ls ++ ms)
All_append-IsShort [] ms h k = k
All_append-IsShort (l ∷ ls) ms h k = (h.0, All_append-IsShort ls ms h.1 k)

concat-HasShortLines :
    (pieces : List Text)
    → All IsWhole pieces
    → All HasShortLines pieces
    → HasShortLines (concat pieces)
unfolding scan
concat-HasShortLines [] w h = tt
concat-HasShortLines (piece ∷ pieces) w h = rw (scan-append piece (concat pieces) w.0) (
    All_append-IsShort (scan piece) (scan (concat pieces)) h.0
      (concat-HasShortLines pieces w.1 h.1))

pass_lem :
    (calls : Calls) (file piece : Text) (r : Tables × ℕ)
    → HasShortLines piece
    → process_log_file calls works (file ++ piece) (at_end file) r
      ≡ (at_end (file ++ piece), process_lines calls (scan piece) r)
unfolding process_log_file start_of scan process_lines
pass_lem calls file [] r short =
    let e : file ++ [] ≡ file = append-nil file in
    let from : ltb (length file) (length file) ≡ false = ground arith in
    let none_new : leb (length file) (length file) ≡ true = ground arith in
    rw e (rw (from, process_log_file) (rw (none_new, process_log_file) refl))
pass_lem calls file (c ∷ s) r short =
    let longer : length file < length (file ++ c ∷ s) = omega (arith, length-append file (c ∷ s)) in
    let from : ltb (length (file ++ c ∷ s)) (length file) ≡ false = ground arith in
    let new : leb (length (file ++ c ∷ s)) (length file) ≡ false = ground arith in
    rw (from, process_log_file)
      (rw (new, process_log_file)
        (rw (drop-append file (c ∷ s)) (rw (scan_lines_lem (scan (c ∷ s)) short) refl)))

follow_lem :
    (calls : Calls) (pieces : List Text) (file : Text) (r : Tables × ℕ)
    → All IsWhole pieces
    → All HasShortLines pieces
    → follow calls pieces file (at_end file) r
      ≡ (at_end (file ++ concat pieces), process_lines calls (scan (concat pieces)) r)
unfolding follow scan process_lines
follow_lem calls [] file r h k = rw (append-nil file) refl
follow_lem calls (piece ∷ pieces) file r h k =
    let ih = follow_lem calls pieces (file ++ piece) (process_lines calls (scan piece) r) h.1 k.1 in
    rw (pass_lem calls file piece r k.0) (
      ih
      ∙ rw (append_assoc file piece (concat pieces)) (
          rw (scan-append piece (concat pieces) h.0)
            (rw (process_lines-append calls (scan piece) (scan (concat pieces)) r) refl)))

-- A log that grows by pieces, each of whole lines shorter than the scanner's buffer, and is read after
-- each of them, with no call of the database or the file system failing, is read as if it had been read
-- once at the end: the same offset is stored, and the tables and the number of bounces are the same, so
-- every line is taken once.
pub follow-once :
    (calls : Calls) (pieces : List Text) (r : Tables × ℕ)
    → All IsWhole pieces
    → All HasShortLines pieces
    → follow calls pieces [] unread r ≡ process_log_file calls works (concat pieces) unread r
follow-once calls pieces r h k =
    follow_lem calls pieces [] r h k
    ∙ sym (pass_lem calls [] (concat pieces) r (concat-HasShortLines pieces h k))
