-- ===== src/Tests/Building.antt =====
-- cateng/builder.go on concrete sets and rules. A hash table is a list here.
use rulestone.Prelude.{
  ℕ, zero, suc, ◌≡◌, ◌≢◌, refl, ◌↔◌, Bool, true, false, List, [], ◌∷◌, arith, ◌==◌, replicate, All,
}
use rulestone.Prelude.Int.{ℤ, pos}
use rulestone.Prelude.Fault.{Outcome, done, out_of_fuel, ◌>>=◌}
use rulestone.Types.AndOrSet.{set_element, category_element}
use rulestone.Condition.Tree.{Condition, nil, cons, and_cond, or_cond, not_cond, category_cond}
use rulestone.Types.{Category, minus_one}
use rulestone.Condition.Rule.{RuleRepo}
use rulestone.Cateng.Builder.{FilterBuilder, Options}
use rulestone.Cateng.Builder.Frequency.{Sort}
use rulestone.Cateng.Builder.Build.{build_tables}
use rulestone.Cateng.Engine.{match_event}
use rulestone.Cateng.Builder.Assign.{assign_masks}
use rulestone.Cateng.Builder.Assign.Cover.{filled, filled_iff, overflow}
use rulestone.Cateng.Builder.Compile.{compute_cat_filter, compile_fuel}
use rulestone.Tests.Tables.{hashset, hashmap, digest}
use rulestone.Cateng.Builder.Compile.Ends.{compute_cat_filter-ends}

empty_builder : FilterBuilder hashset hashmap ℤ
empty_builder = record {
  heap = [];
  cat_filter_sets = [];
  cat_set_map = [];
  neg_cats = [];
  rule_recs = [];
  options = record {
    or_optimization_freq_threshold = 0;
    and_optimization_freq_threshold = 0;
    verbose = false;
  };
  metrics = record {
    or_sets_removed = 0;
    and_sets_removed = 0;
    or_sets_inlined = 0;
    and_or_sets_inlined = 0;
    and_or_sets_gced = 0;
  };
}

-- Not (1 and not 2), with hashes that play no part.
abbrev nested : Condition ℤ
nested =
    not_cond
      (and_cond (cons (category_cond (pos 1) 0) (cons (not_cond (category_cond (pos 2) 0) 0) nil))
        0)
      0

compute_cat_filter-ends_example :
    compute_cat_filter hashmap digest (compile_fuel nested) nested empty_builder ≢ out_of_fuel
compute_cat_filter-ends_example = compute_cat_filter-ends hashmap digest nested empty_builder

abbrev is_one : ℕ → Bool
is_one n = n == 1

filled_iff_example :
    (filled is_one (assign_masks (1 ∷ 1 ∷ 0 ∷ [])) 0 ≡ minus_one)
    ↔ All (λ a. is_one a ≡ true) (1 ∷ 1 ∷ 0 ∷ [])
filled_iff_example = filled_iff is_one (1 ∷ 1 ∷ 0 ∷ []) (omega arith) (omega arith)

ones : (n : ℕ) → All (λ a. is_one a ≡ true) (replicate n 1)
ones zero = _
ones (suc n) = (refl, ones n)

overflow_example : filled is_one (assign_masks (0 ∷ replicate 64 1)) 0 ≡ minus_one
overflow_example = overflow is_one 0 (replicate 64 1) refl (ones 64) refl

abbrev sort : Sort
sort = record { slice = λ less xs. xs }

-- The rules `1 and not 2` and `1 or (3 and 4)`.
abbrev rules : RuleRepo ℤ
rules = record {
  rules =
      record {
        rule_id = 7;
        cond =
            and_cond
              (cons (category_cond (pos 1) 0) (cons (not_cond (category_cond (pos 2) 0) 0) nil)) 0;
      }
      ∷ record {
        rule_id = 8;
        cond =
            or_cond
              (cons (category_cond (pos 1) 0) (
                cons
                  (and_cond (cons (category_cond (pos 3) 0) (cons (category_cond (pos 4) 0) nil)) 0)
                  nil))
              0;
      }
      ∷ [];
}

abbrev plain : Options
plain = record {
  or_optimization_freq_threshold = 0;
  and_optimization_freq_threshold = 0;
  verbose = false;
}

abbrev optimised : Options
optimised = record {
  or_optimization_freq_threshold = 0;
  and_optimization_freq_threshold = 1;
  verbose = false;
}

negated : List (Category × Category) → List Category
negated [] = []
negated ((cat, neg_cat) ∷ cats) = cat ∷ negated cats

-- The rules that an event gets from the tables of some rules.
matched_of : RuleRepo ℤ → Options → List Category → Outcome (List ℕ)
unfolding negated build_tables match_event set_element category_element
matched_of repo options cats = do
  t ← build_tables hashset hashmap digest sort negated 20 repo options
  (f, ids) ←
      match_event
        (record {
          filter_tables = t;
          metrics = record {
            num_bit_mask_checks = 0;
            num_mask_array_lookups = 0;
            num_bit_mask_matches = 0;
          };
        })
        cats
  done ids

matched : Options → List Category → Outcome (List ℕ)
unfolding matched_of
matched options cats = matched_of rules options cats

matched_plain : matched plain (pos 1 ∷ []) ≡ done (8 ∷ 7 ∷ [])
unfolding matched
matched_plain = refl

matched_both : matched plain (pos 1 ∷ pos 2 ∷ []) ≡ done (8 ∷ [])
unfolding matched
matched_both = refl

matched_optimised : matched optimised (pos 4 ∷ pos 3 ∷ []) ≡ done (8 ∷ [])
unfolding matched
matched_optimised = refl

-- A Not under a Not is compiled as one Not: this rule should match the event and does not.
abbrev twice_negated : RuleRepo ℤ
twice_negated = record {
  rules = record { rule_id = 9; cond = not_cond (not_cond (category_cond (pos 1) 0) 0) 0 } ∷ [];
}

not_not_lost : matched_of twice_negated plain (pos 1 ∷ []) ≡ done []
unfolding matched_of
not_not_lost = refl
