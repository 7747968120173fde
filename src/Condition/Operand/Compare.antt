-- ===== src/Condition/Operand/Compare.antt =====
-- condition/condition.go: the methods Equals and Greater, and ReconcileOperands;
-- engine/engine_impl.go: the closures that genEvalForCompareOperands and genEvalForLogicalOp make,
-- over the operands that their two sides evaluate to.
use rulestone.Prelude.{ℕ, Bool, true, false, not, ◌&&◌, ◌||◌, ltb, ◌==◌, if◌then◌else◌}
use rulestone.Prelude.Int.{◌==ℤ◌, ltb_ℤ}
use rulestone.Prelude.Fault.{Outcome, done, panic, ◌>>=◌}
use rulestone.Immutable.Hash.{Digest}
use rulestone.Condition.Operand.{
  kind_number, boolean, Operand, string_operand, int_operand, float_operand, boolean_operand,
  time_operand, attribute_operand, expr_operand, address_operand, computed_operand, root_operand,
  sel_operand, index_operand, null_operand, list_operand, error_operand, get_kind,
}
use rulestone.Condition.Operand.Numerals.{Formats, text_eq, text_gt}
use rulestone.Condition.Operand.Convert.{convert}
use rulestone.Condition.Operand.Hash.{get_hash}

pub data CompareOp : Type 0 where
  equal not_equal greater greater_or_equal less less_or_equal contains invalid : CompareOp

pub data LogicalOp : Type 0 where
  land lor : LogicalOp

module _ {F : Type 0} (g : Formats F) (d : Digest) where
  unfoldable pub same_hash : ℕ → Operand F → Outcome Bool
  unfolding get_hash
  same_hash hash o = done (hash == get_hash g d o)

  -- v.Equals(o)
  unfoldable pub equals : Operand F → Operand F → Outcome Bool
  unfolding same_hash text_eq get_hash
  equals (int_operand v) (int_operand w) = done (v ==ℤ w)
  equals (int_operand v) _ = done false
  equals (float_operand v) (float_operand w) = done (g.float_eq v w)
  equals (float_operand v) _ = done false
  equals (string_operand v) (string_operand w) = done (text_eq v w)
  equals (string_operand v) _ = done false
  equals (time_operand v) (time_operand w) = done (v.instant ==ℤ w.instant)
  equals (time_operand v) _ = done false
  equals (boolean_operand v) (boolean_operand w) = done (if v then w else not w)
  equals (boolean_operand v) _ = panic
  equals (attribute_operand path) (attribute_operand other) = done (text_eq path other)
  equals (attribute_operand path) _ = done false
  equals (expr_operand func args hash) o = same_hash hash o
  equals (address_operand address full parameter hash) o = same_hash hash o
  equals (computed_operand address full parameter expr hash) o = same_hash hash o
  equals (root_operand selector hash) o = same_hash hash o
  equals (sel_operand base selector hash) o = same_hash hash o
  equals (index_operand base index_expr hash) o = same_hash hash o
  equals (list_operand operands) o = same_hash (get_hash g d (list_operand operands)) o
  equals null_operand o = done false
  equals (error_operand err) o = done false

  -- v.Greater(o): a type assertion that fails panics.
  unfoldable pub greater_than : Operand F → Operand F → Outcome Bool
  unfolding text_gt
  greater_than (int_operand v) (int_operand w) = done (ltb_ℤ w v)
  greater_than (float_operand v) (float_operand w) = done (g.float_gt v w)
  greater_than (string_operand v) (string_operand w) = done (text_gt v w)
  greater_than (time_operand v) (time_operand w) = done (ltb_ℤ w.instant v.instant)
  greater_than (boolean_operand v) (boolean_operand w) = done (v && not w)
  greater_than null_operand o = done false
  greater_than (error_operand err) o = done false
  greater_than _ o = panic

  -- The operand of the lower kind is converted to the higher one.
  unfoldable pub reconcile_operands : Operand F → Operand F → Outcome (Operand F × Operand F)
  reconcile_operands x y =
      if ltb (kind_number (get_kind x)) (kind_number (get_kind y))
      then (convert g x (get_kind y) >>= λ x'. done (x', y))
      else if ltb (kind_number (get_kind y)) (kind_number (get_kind x))
      then (convert g y (get_kind x) >>= λ y'. done (x, y'))
      else done (x, y)

  unfoldable pub to_operand : (Bool → Bool) → Outcome Bool → Outcome (Operand F)
  to_operand f r = r >>= λ b. done (boolean_operand (f b))

  unfoldable pub apply_compare : CompareOp → Operand F → Operand F → Outcome (Operand F)
  unfolding equals greater_than to_operand
  apply_compare equal x y = to_operand (λ b. b) (equals x y)
  apply_compare not_equal x y = to_operand not (equals x y)
  apply_compare greater x y = to_operand (λ b. b) (greater_than x y)
  apply_compare greater_or_equal x y = to_operand not (greater_than y x)
  apply_compare less x y = to_operand (λ b. b) (greater_than y x)
  apply_compare less_or_equal x y = to_operand not (greater_than x y)
  apply_compare _ x y = panic

  unfoldable pub is_error : Operand F → Bool
  is_error (error_operand err) = true
  is_error _ = false

  -- The closure of genEvalForCompareOperands, from what its sides evaluate to.
  unfoldable pub eval_compare : CompareOp → Operand F → Operand F → Outcome (Operand F)
  unfolding reconcile_operands convert get_kind apply_compare is_error
  eval_compare op x y =
      if is_error x
      then done x
      else if is_error y
      then done y
      else (reconcile_operands x y >>= λ (x', y'). apply_compare op x' y')

  unfoldable pub logical : LogicalOp → Operand F → Operand F → Outcome (Operand F)
  logical land (boolean_operand a) (boolean_operand b) = done (boolean_operand (a && b))
  logical lor (boolean_operand a) (boolean_operand b) = done (boolean_operand (a || b))
  logical op _ _ = panic

  -- The closure of genEvalForLogicalOp: both sides are evaluated and converted before `op`.
  unfoldable pub eval_logical : LogicalOp → Operand F → Operand F → Outcome (Operand F)
  unfolding logical convert is_error
  eval_logical op x y = convert g x boolean >>= λ x'.
      if is_error x'
      then done x'
      else (convert g y boolean >>= λ y'. if is_error y' then done y' else logical op x' y')
