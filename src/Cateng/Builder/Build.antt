-- ===== src/Cateng/Builder/Build.antt =====
-- cateng/builder.go: optimize and BuildFilterTables. The fuel bounds the passes of the optimising
-- loops and the nesting of the sets that are inlined.
use rulestone.Prelude.{ℕ, zero, suc, ◌+◌, ◌%◌, ◌^◌, List, ◌||◌, ltb, ◌==◌, if◌then◌else◌}
use rulestone.Prelude.Fault.{Outcome, done, out_of_fuel, ◌>>=◌}
use rulestone.Types.{Category}
use rulestone.Types.AndOrSet.{Hashmap}
use rulestone.Immutable.Hash.{Digest}
use rulestone.Immutable.Set.{Hashset}
use rulestone.Condition.Rule.{RuleRepo}
use rulestone.Cateng.Tables.{BuilderMetrics, FilterTables}
use rulestone.Cateng.Builder.{Options, FilterBuilder}
use rulestone.Cateng.Builder.Rules.{new_filter_builder}
use rulestone.Cateng.Builder.Assign.{build_filter_tables}
use rulestone.Cateng.Builder.Frequency.{Sort}
use rulestone.Cateng.Builder.Optimise.{optimise_or_sets, optimise_and_sets}
use rulestone.Cateng.Builder.Inline.{inline_or_sets, inline_and_or_sets, gc_and_or_sets}

or_removed : ℕ → BuilderMetrics → BuilderMetrics
or_removed n metrics = record metrics { or_sets_removed = (metrics.or_sets_removed + n) % 2 ^ 64 }

and_removed : ℕ → BuilderMetrics → BuilderMetrics
and_removed n metrics = record metrics {
  and_sets_removed = (metrics.and_sets_removed + n) % 2 ^ 64;
}

module _ {h : Hashset} (m : Hashmap) (d : Digest) {F : Type 0} where
  -- A pass is repeated until it removes nothing; `record_removed` adds what it removed to the metrics.
  unfoldable pub repeat_pass :
      (FilterBuilder h m F → Outcome (ℕ × FilterBuilder h m F))
      → (ℕ → BuilderMetrics → BuilderMetrics)
      → ℕ
      → FilterBuilder h m F
      → Outcome (FilterBuilder h m F)
  repeat_pass pass record_removed zero fb = out_of_fuel
  repeat_pass pass record_removed (suc fuel) fb = do
    (remove_count, fb') ← pass fb
    (if remove_count == 0
        then done fb'
        else repeat_pass pass record_removed fuel
            (record fb' { metrics = record_removed remove_count fb'.metrics }))

  repeat_gc : ℕ → FilterBuilder h m F → Outcome (FilterBuilder h m F)
  unfolding gc_and_or_sets
  repeat_gc zero fb = done fb
  repeat_gc (suc n) fb = gc_and_or_sets m d fb >>= repeat_gc n

  unfoldable pub optimize : Sort → ℕ → FilterBuilder h m F → Outcome (FilterBuilder h m F)
  unfolding repeat_pass optimise_or_sets optimise_and_sets or_removed and_removed inline_or_sets
      inline_and_or_sets repeat_gc
  optimize sort fuel fb = do
    fb₁ ←
        (if ltb 0 fb.options.or_optimization_freq_threshold
          then repeat_pass (optimise_or_sets m d sort) or_removed fuel fb
          else done fb)
    fb₂ ←
        (if ltb 0 fb.options.and_optimization_freq_threshold
          then repeat_pass (optimise_and_sets m d sort) and_removed fuel fb₁
          else done fb₁)
    fb₃ ← inline_or_sets m d fuel fb₂
    fb₄ ← inline_and_or_sets m d fuel fb₃
    repeat_gc 10 fb₄

module _ (h : Hashset) (m : Hashmap) (d : Digest) {F : Type 0} where
  unfoldable pub build_tables :
      Sort
      → (List (Category × Category) → List Category)
      → ℕ
      → RuleRepo F
      → Options
      → Outcome FilterTables
  unfolding new_filter_builder optimize build_filter_tables
  build_tables sort order fuel repo options = do
    fb ← new_filter_builder {h = h} m d repo options
    fb' ←
        (if ltb 0 fb.options.or_optimization_freq_threshold
            || ltb 0 fb.options.and_optimization_freq_threshold
          then optimize m d sort fuel fb
          else done fb)
    build_filter_tables m d (order fb'.neg_cats) fb'
