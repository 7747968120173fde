-- ===== src/Cateng/Tables.antt =====
-- cateng/builder.go: the tables that the builder hands to the engine.
use rulestone.Prelude.{ℕ, Option, List}
use rulestone.Prelude.Int.{ℤ}
use rulestone.Types.{Category}
use rulestone.Cateng.MaskArray.{CatSetMask, CatSetMaskArray}

pub record RuleFilterRec : Type 0 where
  pub rule_index : ℤ
  pub rule_id : ℕ

pub record CatSetFilter : Type 0 where
  pub cat_set_index1 : Category
  pub rule_set : List RuleFilterRec
  pub cat_set_masks : List CatSetMask

pub record BuilderMetrics : Type 0 where
  pub or_sets_removed : ℕ
  pub and_sets_removed : ℕ
  pub or_sets_inlined : ℕ
  pub and_or_sets_inlined : ℕ
  pub and_or_sets_gced : ℕ

-- A Go map is an association list. `rule_recs` is what the builder keeps of the rules, their
-- indices with their ids.
pub record FilterTables : Type 0 where
  pub cat_to_cat_set_mask : CatSetMaskArray
  pub cat_set_filters : List (Option CatSetFilter)
  pub builder_metrics : BuilderMetrics
  pub rule_recs : List RuleFilterRec
  pub neg_cats : List (Category × Category)
  pub default_categories : List (Category × ℕ)
  pub default_cat_list : List Category
