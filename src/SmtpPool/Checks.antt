-- ===== src/SmtpPool/Checks.antt =====
-- internal/core/smtp_pool.go: what `checkConnections` does to the list that it goes over.
use sampmail.Prelude.{
  ℕ, zero, suc, ◌-◌, ◌≡◌, refl, sym, ap, ◌∙◌, Bool, true, false, some, List, [], ◌∷◌, ◌++◌, nat_eq,
  ==_refl, length, get_elem?, take, drop, All, arith,
}
use mathlib.Core.Path.{subst}
use mathlib.Core.List.{append_assoc, append-nil}
use sampmail.SmtpPool.Slices.{Slice, whole, index_of, remove_at, remove_conn, sweep}

abbrev pub last : ℕ → List ℕ → ℕ
last b [] = b
last b (c ∷ cs) = last c cs

get_elem?-drop :
    (xs : List ℕ) (i c : ℕ) (cs : List ℕ)
    → drop i xs ≡ c ∷ cs
    → (get_elem? xs i ≡ some c) × (drop (suc i) xs ≡ cs)
get_elem?-drop [] zero c cs e = absurd (cc)
get_elem?-drop [] (suc i) c cs e = absurd (cc)
get_elem?-drop (x ∷ xs) zero c cs e = (cc, cc)
get_elem?-drop (x ∷ xs) (suc i) c cs e = get_elem?-drop xs i c cs e

-- A round that removes its connection.
sweep_gone :
    (keep : ℕ → Bool) (rounds i : ℕ) (s : Slice) (healthy : List ℕ) (c : ℕ)
    → get_elem? s.array i ≡ some c
    → keep c ≡ false
    → sweep keep (suc rounds) i s healthy ≡ sweep keep rounds (suc i) (remove_conn c s) healthy
unfolding sweep
sweep_gone keep rounds i s healthy c e k = rw (e, sweep) (rw (k, sweep) refl)

-- A loop that keeps everything.
sweep_all :
    (keep : ℕ → Bool) (rest : List ℕ) (i : ℕ) (s : Slice) (healthy : List ℕ)
    → drop i s.array ≡ rest
    → All (λ c. keep c ≡ true) rest
    → sweep keep (length rest) i s healthy ≡ healthy ++ rest
unfolding sweep
sweep_all keep [] i s healthy e h = sym (append-nil healthy)
sweep_all keep (c ∷ cs) i s healthy e h =
    let at = get_elem?-drop s.array i c cs e in
    rw (at.0, sweep)
      (rw (h.0, sweep)
        (sweep_all keep cs (suc i) s (healthy ++ c ∷ []) at.1 h.1
          ∙ append_assoc healthy (c ∷ []) cs))

take-length : (cs : List ℕ) → take (length cs) cs ≡ cs
take-length [] = refl
take-length (c ∷ cs) = ap (λ ds. c ∷ ds) (take-length cs)

drop-last : (b : ℕ) (cs : List ℕ) → drop (length cs) (b ∷ cs) ≡ last b cs ∷ []
drop-last b [] = refl
drop-last b (c ∷ cs) = drop-last c cs

-- The array after the first of its elements is removed.
shifted :
    (bad b : ℕ) (tail : List ℕ)
    → remove_conn bad (whole (bad ∷ b ∷ tail))
      ≡ record { array = (b ∷ tail) ++ last b tail ∷ []; len = suc (length tail) }
unfolding remove_conn index_of remove_at
shifted bad b tail =
    let n : suc (suc (length tail)) - 1 ≡ suc (length tail) = omega arith in
    let found : index_of (suc (suc (length tail))) bad (bad ∷ b ∷ tail) ≡ some 0 =
      rw (==_refl bad, index_of) refl in
    rw (found, remove_conn) (rw n (rw (take-length tail) (rw (drop-last b tail) refl)))

all_last :
    (keep : ℕ → Bool) (b : ℕ) (tail : List ℕ)
    → keep b ≡ true
    → All (λ c. keep c ≡ true) tail
    → All (λ c. keep c ≡ true) (tail ++ last b tail ∷ [])
all_last keep b [] k h = (k, tt)
all_last keep b (c ∷ cs) k h = (h.0, all_last keep c cs h.0 h.1)

length_last : (tail : List ℕ) (l : ℕ) → length (tail ++ l ∷ []) ≡ suc (length tail)
length_last [] l = refl
length_last (c ∷ cs) l = ap suc (length_last cs l)

sweep_rest :
    (keep : ℕ → Bool) (bad b : ℕ) (tail : List ℕ)
    → keep bad ≡ false
    → keep b ≡ true
    → All (λ c. keep c ≡ true) tail
    → sweep keep (length (bad ∷ b ∷ tail)) 0 (whole (bad ∷ b ∷ tail)) [] ≡ tail ++ last b tail ∷ []
sweep_rest keep bad b tail gone kept h =
    let rest = tail ++ last b tail ∷ [] in
    let after : Slice = record { array = b ∷ rest; len = suc (length tail) } in
    let looped : sweep keep (suc (length tail)) 1 after [] ≡ rest =
      subst (λ (n : ℕ). sweep keep n 1 after [] ≡ rest) (length_last tail (last b tail))
        (sweep_all keep rest 1 after [] refl (all_last keep b tail kept h)) in
    sweep_gone keep (suc (length tail)) 0 (whole (bad ∷ b ∷ tail)) [] bad refl gone
    ∙ ap (λ (s : Slice). sweep keep (suc (length tail)) 1 s []) (shifted bad b tail)
    ∙ looped

-- Where the first of three or more connections is removed and every later one is to be kept, the list
-- that the loop of checkConnections leaves is that of the third to the last connection with the last
-- one once more; the second one, which is to be kept as well, is not put into it.
pub sweep_skips :
    (keep : ℕ → Bool) (bad b c : ℕ) (tail : List ℕ)
    → keep bad ≡ false
    → keep b ≡ true
    → All (λ d. keep d ≡ true) (c ∷ tail)
    → sweep keep (length (bad ∷ b ∷ c ∷ tail)) 0 (whole (bad ∷ b ∷ c ∷ tail)) []
      ≡ c ∷ tail ++ last c tail ∷ []
sweep_skips keep bad b c tail gone kept h = sweep_rest keep bad b (c ∷ tail) gone kept h
