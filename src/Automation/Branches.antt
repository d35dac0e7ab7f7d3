-- ===== src/Automation/Branches.antt =====
-- internal/core/automation_engine.go: the edges that `findNextNodes` follows, the branches of a
-- condition, and the shares of an A/B split.
use sampmail.Prelude.{
  ℕ, ◌+◌, ◌*◌, ◌%◌, ◌≤◌, ◌<◌, ◌≡◌, codes, ◌==◌, text_eq, nat_eq, arith, if◌then◌else◌, Bool-cases,
  inl, inr,
}
use sampmail.Prelude.Counting.{count_below, within, count_below-within, count_below-same}
use sampmail.Prelude.Int.{pos}
use sampmail.Automation.Nodes.{split_branch}

split_branch-within :
    (k s x : ℕ)
    → x < 100
    → (split_branch (k * 100 + x) (pos s) == codes "A") ≡ within 0 (if s == 0 then 50 else s) x
unfolding split_branch
split_branch-within k s x small =
    let e : (k * 100 + x) % 100 ≡ x = omega arith in
    rw e (elim (Bool-cases (s == 0)) [ inl z ↦ ground arith | inr nz ↦ ground arith ])

-- Of any hundred runs with consecutive numbers, from a multiple of 100 on, an A/B split with share
-- `s`, at most 100, sends exactly `s` to branch A, and the half where `s` is 0.
pub split_branch_share :
    (k s : ℕ)
    → s ≤ 100
    → count_below 100 (λ x. split_branch (k * 100 + x) (pos s) == codes "A")
      ≡ (if s == 0 then 50 else s)
split_branch_share k s h =
    let a : ℕ = if s == 0 then 50 else s in
    let same =
      count_below-same 100 (λ x. split_branch (k * 100 + x) (pos s) == codes "A") (within 0 a)
        (split_branch-within k s) in
    rw same (ground (arith, count_below-within 100 0 a))
