-- ===== src/Cateng/Builder/Compile/Need.antt =====
-- How deep the calls of computeCatFilter go, measured on a condition and on its negation.
use rulestone.Prelude.{ℕ, suc, ◌+◌, ◌*◌, ◌≤◌, max, arith}
use rulestone.Immutable.Hash.{Digest}
use rulestone.Condition.Tree.{
  Condition, Conditions, nil, cons, and_cond, or_cond, not_cond, category_cond, compare_cond,
  expr_cond, error_cond, map_conditions, new_and_cond, new_or_cond, new_not_cond, or_first_error,
  first_error, depth, depths,
}

module _ {F : Type 0} where
  -- How deep the calls for a condition go, and for its negation.
  unfoldable mutual
    pub need : Condition F → ℕ
    need (and_cond operands hash) = suc (needs operands)
    need (or_cond operands hash) = suc (needs operands)
    need (not_cond operand hash) = suc (need_not operand)
    need _ = 1

    pub needs : Conditions F → ℕ
    needs nil = 0
    needs (cons c cs) = max (need c) (needs cs)

    pub need_not : Condition F → ℕ
    need_not (and_cond operands hash) = suc (needs_not operands)
    need_not (or_cond operands hash) = suc (needs_not operands)
    need_not (not_cond operand hash) = suc (need_not operand)
    need_not _ = 1

    pub needs_not : Conditions F → ℕ
    needs_not nil = 1
    needs_not (cons c cs) = max (suc (need_not c)) (needs_not cs)

  mutual
    unfolding need needs need_not needs_not depth depths

    pub need-le : (c : Condition F) → need c ≤ depth c * 2
    need-le (and_cond operands hash) = omega (arith, needs-le operands)
    need-le (or_cond operands hash) = omega (arith, needs-le operands)
    need-le (not_cond operand hash) = omega (arith, need_not-le operand)
    need-le _ = omega arith

    needs-le : (cs : Conditions F) → needs cs ≤ depths cs * 2
    needs-le nil = omega arith
    needs-le (cons c cs) = omega (arith, need-le c, needs-le cs)

    need_not-le : (c : Condition F) → need_not c ≤ depth c * 2
    need_not-le (and_cond operands hash) = omega (arith, needs_not-le operands)
    need_not-le (or_cond operands hash) = omega (arith, needs_not-le operands)
    need_not-le (not_cond operand hash) = omega (arith, need_not-le operand)
    need_not-le _ = omega arith

    needs_not-le : (cs : Conditions F) → needs_not cs ≤ depths cs * 2 + 1
    needs_not-le nil = omega arith
    needs_not-le (cons c cs) = omega (arith, need_not-le c, needs_not-le cs)

  pub need_pos : (c : Condition F) → 1 ≤ need c
  unfolding need
  need_pos (and_cond operands hash) = omega arith
  need_pos (or_cond operands hash) = omega arith
  need_pos (not_cond operand hash) = omega arith
  need_pos _ = omega arith

  need-or_first_error :
      (d : Digest) (cs : Conditions F) (made : Condition F)
      → need (or_first_error d (first_error cs) made) ≤ max 1 (need made)
  unfolding or_first_error first_error need
  need-or_first_error d nil made = omega arith
  need-or_first_error d (cons (error_cond err hash) cs) made = omega arith
  need-or_first_error d (cons (and_cond x y) cs) made = need-or_first_error d cs made
  need-or_first_error d (cons (or_cond x y) cs) made = need-or_first_error d cs made
  need-or_first_error d (cons (not_cond x y) cs) made = need-or_first_error d cs made
  need-or_first_error d (cons (category_cond x y) cs) made = need-or_first_error d cs made
  need-or_first_error d (cons (compare_cond x y z w) cs) made = need-or_first_error d cs made
  need-or_first_error d (cons (expr_cond x y) cs) made = need-or_first_error d cs made

  need-new_not_cond : (d : Digest) (c : Condition F) → need (new_not_cond d c) ≤ suc (need_not c)
  unfolding new_not_cond need
  need-new_not_cond d (error_cond err hash) = omega arith
  need-new_not_cond d (and_cond x y) = omega arith
  need-new_not_cond d (or_cond x y) = omega arith
  need-new_not_cond d (not_cond x y) = omega arith
  need-new_not_cond d (category_cond x y) = omega arith
  need-new_not_cond d (compare_cond x y z w) = omega arith
  need-new_not_cond d (expr_cond x y) = omega arith

  needs-negated :
      (d : Digest) (cs : Conditions F) → needs (map_conditions (new_not_cond d) cs) ≤ needs_not cs
  unfolding needs needs_not map_conditions
  needs-negated d nil = omega arith
  needs-negated d (cons c cs) = omega (arith, need-new_not_cond d c, needs-negated d cs)

  needs_not_pos : (cs : Conditions F) → 1 ≤ needs_not cs
  unfolding needs_not
  needs_not_pos nil = omega arith
  needs_not_pos (cons c cs) = omega arith

  -- The two conditions that processNotOp makes by De Morgan's laws.
  pub need-negated_and :
      (d : Digest) (cs : Conditions F)
      → need (new_or_cond d (map_conditions (new_not_cond d) cs)) ≤ suc (needs_not cs)
  unfolding new_or_cond need
  need-negated_and d cs = omega (
    arith,
    need-or_first_error d (map_conditions (new_not_cond d) cs)
        (or_cond (map_conditions (new_not_cond d) cs) _),
    needs-negated d cs,
  )

  pub need-negated_or :
      (d : Digest) (cs : Conditions F)
      → need (new_and_cond d (map_conditions (new_not_cond d) cs)) ≤ suc (needs_not cs)
  unfolding new_and_cond need
  need-negated_or d cs = omega (
    arith,
    need-or_first_error d (map_conditions (new_not_cond d) cs)
        (and_cond (map_conditions (new_not_cond d) cs) _),
    needs-negated d cs,
  )
