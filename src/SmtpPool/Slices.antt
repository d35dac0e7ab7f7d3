-- ===== src/SmtpPool/Slices.antt =====
-- internal/core/smtp_pool.go: the loop of `checkConnections` over the slice that it shortens. A slice
-- is a view of an array: removing an element moves the later ones in the array itself, while the
-- `range` of the loop goes on over the array and the length with which it began.
use sampmail.Prelude.{
  ℕ, zero, suc, ◌-◌, Bool, Option, none, some, List, [], ◌∷◌, ◌++◌, nat_eq, ◌==◌, length, get_elem?,
  take, drop, if◌then◌else◌,
}

-- The connections are the first `len` elements of the array.
pub record Slice : Type 0 where
  pub array : List ℕ
  pub len : ℕ

abbrev pub whole : List ℕ → Slice
whole cs = record { array = cs; len = length cs }

-- The place of a connection among the first `len` of an array.
unfoldable pub index_of : ℕ → ℕ → List ℕ → Option ℕ
index_of zero id cs = none
index_of (suc len) id [] = none
index_of (suc len) id (c ∷ cs) =
    let later = index_of len id cs in
    if c == id then some 0 else elim later [ none ↦ none | some i ↦ some (suc i) ]

-- append(s[:i], s[i+1:]...), in place
unfoldable pub remove_at : ℕ → Slice → Slice
remove_at i s = record {
  array =
      take i s.array ++ (take (s.len - suc i) (drop (suc i) s.array) ++ drop (s.len - 1) s.array);
  len = s.len - 1;
}

-- The loop of closeConnectionLocked.
unfoldable pub remove_conn : ℕ → Slice → Slice
unfolding index_of remove_at
remove_conn id s = elim (index_of s.len id s.array) [ none ↦ s | some i ↦ remove_at i s ]

-- The loop of checkConnections, with the rounds left, the index, and the list `healthy`.
unfoldable pub sweep : (ℕ → Bool) → ℕ → ℕ → Slice → List ℕ → List ℕ
unfolding remove_conn
sweep keep zero i s healthy = healthy
sweep keep (suc rounds) i s healthy = elim (get_elem? s.array i) [
  | none ↦ healthy
  | some c ↦
      sweep keep rounds (suc i) (if keep c then s else remove_conn c s)
        (if keep c then healthy ++ c ∷ [] else healthy)
]
