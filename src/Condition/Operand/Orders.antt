-- ===== src/Condition/Operand/Orders.antt =====
-- The comparison operators on integers, and on null.
use rulestone.Prelude.{◌≡◌, ◌≢◌, ◌↔◌, true, false, arith}
use rulestone.Prelude.Int.{ℤ, ◌≤ℤ◌, ==ℤ_iff}
use rulestone.Prelude.Fault.{done}
use rulestone.Immutable.Hash.{Digest}
use rulestone.Condition.Operand.{
  Operand, int_operand, boolean_operand, string_operand, float_operand, time_operand, null_operand,
  is_const,
}
use rulestone.Condition.Operand.Numerals.{Formats}
use rulestone.Condition.Operand.Compare.{
  CompareOp, equal, not_equal, greater, greater_or_equal, less, less_or_equal, eval_compare,
  is_error,
}

module _ {F : Type 0} (g : Formats F) (d : Digest) where
  -- The operator holds of the two operands.
  abbrev pub Holds : CompareOp → Operand F → Operand F → Type 0
  Holds op x y = eval_compare g d op x y ≡ done (boolean_operand true)

  abbrev pub Fails : CompareOp → Operand F → Operand F → Type 0
  Fails op x y = eval_compare g d op x y ≡ done (boolean_operand false)

  -- On integers the operators decide equality and the order.
  pub compare_integers :
      (a b : ℤ)
      → (Holds equal (int_operand a) (int_operand b) ↔ (a ≡ b))
        × (Holds not_equal (int_operand a) (int_operand b) ↔ (a ≢ b))
        × (Holds less_or_equal (int_operand a) (int_operand b) ↔ (a ≤ℤ b))
        × (Holds greater_or_equal (int_operand a) (int_operand b) ↔ (b ≤ℤ a))
        × (Holds less (int_operand a) (int_operand b) ↔ (¬ (b ≤ℤ a)))
        × (Holds greater (int_operand a) (int_operand b) ↔ (¬ (a ≤ℤ b)))
  unfolding eval_compare
  compare_integers a b = ground (arith, ==ℤ_iff a b)

  -- Between null and a constant that is not an error, in either order, <=, >= and != give true, and ==,
  -- < and > give false.
  pub compare_null :
      (y : Operand F)
      → is_const y ≡ true
      → is_error g d y ≡ false
      → Holds less_or_equal null_operand y
        × Holds greater_or_equal null_operand y
        × Holds not_equal null_operand y
        × Holds less_or_equal y null_operand
        × Holds greater_or_equal y null_operand
        × Holds not_equal y null_operand
        × Fails equal null_operand y
        × Fails less null_operand y
        × Fails greater null_operand y
        × Fails equal y null_operand
        × Fails less y null_operand
        × Fails greater y null_operand
  unfolding eval_compare is_const is_error
  compare_null (int_operand v) h k = ground arith
  compare_null (float_operand v) h k = ground arith
  compare_null (string_operand v) h k = ground arith
  compare_null (boolean_operand v) h k = ground arith
  compare_null (time_operand v) h k = ground arith
  compare_null null_operand h k = ground arith
  compare_null _ h k = cc
