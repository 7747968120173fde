-- ===== src/Cateng/Builder/Rules.antt =====
-- cateng/builder.go: the rules of a repository, from computeRuleRecs to NewFilterBuilder.
use rulestone.Prelude.{ℕ, ◌+◌, List, [], ◌∷◌, ◌++◌, set}
use rulestone.Prelude.Int.{ℤ, pos, wrap32}
use rulestone.Prelude.Fault.{Outcome, done, or_panic, ◌>>=◌}
use rulestone.Types.AndOrSet.{Hashmap, AndOrSet, category_element, set_element}
use rulestone.Immutable.Hash.{Digest}
use rulestone.Immutable.Set.{Hashset}
use rulestone.Condition.Rule.{Rule, RuleRec, RuleRepo}
use rulestone.Cateng.Tables.{RuleFilterRec}
use rulestone.Cateng.Builder.{Options, FilterBuilder, read, write, register_and_set}
use rulestone.Cateng.Builder.Compile.{compute_cat_filter, compile_fuel}

module _ {F : Type 0} where
  -- The rules from the position `index` on; a RuleIndexType wraps around.
  rule_recs_from : ℕ → List (Rule F) → List (RuleRec F)
  rule_recs_from index [] = []
  rule_recs_from index (rule ∷ rules) =
      record { rule = rule; rule_index = wrap32 (pos index) } ∷ rule_recs_from (index + 1) rules

  unfoldable pub compute_rule_recs : List (Rule F) → List (RuleRec F)
  unfolding rule_recs_from
  compute_rule_recs rules = rule_recs_from 0 rules

module _ {h : Hashset} (m : Hashmap) (d : Digest) {F : Type 0} where
  unfoldable pub add_rule : ℕ → RuleFilterRec → FilterBuilder h m F → Outcome (FilterBuilder h m F)
  unfolding read write
  add_rule csr rule fb = do
    v ← read m fb csr
    done (write m fb csr (record v { rule_set = v.rule_set ++ rule ∷ [] }))

  -- buildCatSetFilter. A zero filter is registered by the code too, and its nil set panics as soon as
  -- the tables are computed; here it panics at once.
  unfoldable pub build_cat_set_filter :
      Rule F → ℤ → FilterBuilder h m F → Outcome (FilterBuilder h m F)
  unfolding compute_cat_filter compile_fuel register_and_set add_rule
  build_cat_set_filter rule rule_index fb = do
    (filter, fb') ← compute_cat_filter m d (compile_fuel rule.cond) rule.cond fb
    and_set ← or_panic filter
    let (csr, registered) = register_and_set m fb' and_set
    add_rule csr (record { rule_index = rule_index; rule_id = rule.rule_id }) registered

  -- buildCatSetFilterForAndOrSets
  unfoldable pub build_cat_set_filter_for :
      AndOrSet h → FilterBuilder h m F → Outcome (FilterBuilder h m F)
  unfolding register_and_set add_rule
  build_cat_set_filter_for set fb =
      let (csr, registered) = register_and_set m fb set in
      add_rule csr (record { rule_index = pos 1; rule_id = 0 }) registered

  unfoldable pub build_cat_set_filters_for :
      List (AndOrSet h) → FilterBuilder h m F → Outcome (FilterBuilder h m F)
  unfolding build_cat_set_filter_for
  build_cat_set_filters_for [] fb = done fb
  build_cat_set_filters_for (fs ∷ sets) fb =
      build_cat_set_filter_for fs fb >>= build_cat_set_filters_for sets

  unfoldable pub build_all : List (RuleRec F) → FilterBuilder h m F → Outcome (FilterBuilder h m F)
  unfolding build_cat_set_filter
  build_all [] fb = done fb
  build_all (c ∷ recs) fb = build_cat_set_filter c.rule c.rule_index fb >>= build_all recs

  unfoldable pub build_cat_set_filters :
      RuleRepo F → FilterBuilder h m F → Outcome (FilterBuilder h m F)
  unfolding build_all compute_rule_recs
  build_cat_set_filters repo fb =
      let recs = compute_rule_recs repo.rules in build_all recs (record fb { rule_recs = recs })

  unfoldable pub new_filter_builder : RuleRepo F → Options → Outcome (FilterBuilder h m F)
  unfolding build_cat_set_filters
  new_filter_builder repo options = build_cat_set_filters repo (record {
    heap = [];
    cat_filter_sets = [];
    cat_set_map = m.empty;
    neg_cats = [];
    rule_recs = [];
    options = options;
    metrics = record {
      or_sets_removed = 0;
      and_sets_removed = 0;
      or_sets_inlined = 0;
      and_or_sets_inlined = 0;
      and_or_sets_gced = 0;
    };
  })
