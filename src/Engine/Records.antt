-- ===== src/Engine/Records.antt =====
-- engine/engine_api.go: the registered rules, and the categories that RuleEngine.MatchEvent makes of what
-- a record evaluates to.
use rulestone.Prelude.{
  ℕ, ◌^◌, Option, none, some, List, [], ◌∷◌, ◌++◌, ltb, length, get_elem?, if◌then◌else◌,
}
use rulestone.Prelude.Int.{pos, wrap32, ◌==ℤ◌}
use rulestone.Prelude.Fault.{Outcome, done, panic, ◌>>=◌}
use rulestone.Types.{Category}
use rulestone.Condition.Operand.{
  Operand, Operands, nil, cons, int_operand, boolean_operand, list_operand, error_operand,
}

-- GeneralRuleRecord, whose id is a uint, and RuleEngineRepo.Register.
pub record GeneralRuleRecord (D : Type 0) : Type 0 where
  pub definition : D
  pub id : ℕ

module _ {D : Type 0} where
  unfoldable pub register : D → List (GeneralRuleRecord D) → ℕ × List (GeneralRuleRecord D)
  register f rules =
      let result = length rules in (result, rules ++ record { definition = f; id = result } ∷ [])

  unfoldable pub definition_of : Option (GeneralRuleRecord D) → Option D
  definition_of none = none
  definition_of (some r) = some r.definition

  -- GetRuleDefinition: `none` is the nil pointer.
  unfoldable pub get_rule_definition : List (GeneralRuleRecord D) → ℕ → Option D
  unfolding definition_of
  get_rule_definition rules rule_id =
      if ltb rule_id (2 ^ 63)
      then (if ltb rule_id (length rules) then definition_of (get_elem? rules rule_id) else none)
      else none

module _ {F : Type 0} where
  -- Every element of a list that a record evaluates to is an integer, or the call panics.
  unfoldable pub categories_of : Operands F → Outcome (List Category)
  categories_of nil = done []
  categories_of (cons (int_operand c) os) = do cats ← categories_of os; done (wrap32 c ∷ cats)
  categories_of (cons o os) = panic

  -- The categories that a record of category `cat` adds to the event.
  unfoldable pub result_categories : Category → Operand F → Outcome (List Category)
  unfolding categories_of
  result_categories cat (error_operand err) = done []
  result_categories cat (boolean_operand r) = done (if r then cat ∷ [] else [])
  result_categories cat (list_operand operands) = categories_of operands
  result_categories cat (int_operand r) = done (if r ==ℤ pos 0 then [] else wrap32 r ∷ [])
  result_categories cat _ = panic
