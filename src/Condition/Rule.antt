-- ===== src/Condition/Rule.antt =====
-- condition/rule.go and condition/condition_utils.go: rules, their repository, and conditions from
-- tables of categories.
use rulestone.Prelude.{ℕ, ◌+◌, ◌%◌, ◌^◌, List, [], ◌∷◌, ◌++◌}
use rulestone.Prelude.Int.{ℤ}
use rulestone.Types.{Category}
use rulestone.Types.AndOrSet.{AndOrSet, OrSet, category_element, set_element}
use rulestone.Immutable.Hash.{Digest}
use rulestone.Immutable.Set
use rulestone.Immutable.Set.{Hashset}
use rulestone.Condition.Tree.{
  Condition, conditions_of, new_and_cond, new_or_cond, new_category_cond,
}

-- A RuleIdType is a uint32, a RuleIndexType an int32.
pub record Rule (F : Type 0) : Type 0 where
  pub rule_id : ℕ
  pub cond : Condition F

pub record RuleRec (F : Type 0) : Type 0 where
  pub rule : Rule F
  pub rule_index : ℤ

pub record RuleRepo (F : Type 0) : Type 0 where
  pub rules : List (Rule F)

module _ {F : Type 0} where
  unfoldable pub register : RuleRepo F → Rule F → RuleRepo F
  register repo rule = record { rules = repo.rules ++ rule ∷ [] }

module _ {F : Type 0} (d : Digest) where
  or_of_categories : List Category → Condition F
  or_of_categories cats = new_or_cond d (conditions_of (new_category_cond d) cats)

  unfoldable pub category_arrays_to_condition : List (List Category) → Condition F
  unfolding or_of_categories
  category_arrays_to_condition cats = new_and_cond d (conditions_of or_of_categories cats)

  unfoldable pub and_or_set_to_condition : (h : Hashset) → AndOrSet h → Condition F
  unfolding or_of_categories
  and_or_set_to_condition h set = new_and_cond d (
      conditions_of (λ (or_set : OrSet h). or_of_categories (Set.to_slice h d or_set))
        (Set.to_slice h d set))

  -- The rule of a table has the table's position for its id.
  rules_from : ℕ → List (List (List Category)) → List (Rule F)
  unfolding category_arrays_to_condition
  rules_from index [] = []
  rules_from index (and_list ∷ tables) =
      record { rule_id = index % 2 ^ 32; cond = category_arrays_to_condition and_list }
      ∷ rules_from (index + 1) tables

  unfoldable pub and_or_tables_to_rule_repo : List (List (List Category)) → RuleRepo F
  unfolding rules_from
  and_or_tables_to_rule_repo tables = record { rules = rules_from 0 tables }
