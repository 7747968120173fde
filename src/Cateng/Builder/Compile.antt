-- ===== src/Cateng/Builder/Compile.antt =====
-- cateng/builder.go: from conditions to sets of the builder, computeCatFilter with the filters that it combines.
-- The fuel bounds the depth of the calls of computeCatFilter.
mod Need
pub mod Ends
use rulestone.Prelude.{
  ℕ, zero, suc, ◌+◌, ◌*◌, Option, none, some, List, [], ◌∷◌, ◌++◌, Bool, true, false, length, take,
  drop, ltb, ◌==◌, set, if◌then◌else◌,
}
use rulestone.Prelude.Int.{ℤ, pos, negsuc, is_neg, neg, wrap32}
use rulestone.Prelude.Fault.{Outcome, done, panic, out_of_fuel, or_panic, ◌>>=◌}
use rulestone.Types.{Category}
use rulestone.Types.AndOrSet
use rulestone.Types.AndOrSet.{
  Hashmap, OrSet, AndOrSet, category_element, set_element, empty_and_or_set,
}
use rulestone.Immutable.Hash.{Digest}
use rulestone.Immutable.Set
use rulestone.Immutable.Set.{Hashset}
use rulestone.Condition.Tree.{
  Condition, Conditions, nil, cons, and_cond, or_cond, not_cond, category_cond, map_conditions,
  new_and_cond, new_or_cond, new_not_cond, new_category_cond, get_operands, depth,
}
use rulestone.Condition.Rule.{Rule, RuleRec, RuleRepo}
use rulestone.Cateng.Tables.{RuleFilterRec}
use rulestone.Cateng.Builder.{
  CatSetRec, Options, FilterBuilder, read, write, register_and_set, register_negative_cat,
}

-- A CatFilter; `none` is its zero value, whose set is a nil pointer that the set's methods panic on.
abbrev pub CatFilter : Hashset → Type 0
CatFilter h = Option (AndOrSet h)

module _ {h : Hashset} (d : Digest) where
  -- immutable.Of(cat), and immutable.Of(-rec.CatSetIndex1)
  unfoldable pub single : Category → OrSet h
  unfolding Set.of
  single cat = Set.of h d (cat ∷ [])

  unfoldable pub and_of_single : OrSet h → AndOrSet h
  unfolding Set.of
  and_of_single s = Set.of h d (s ∷ [])

module _ {F : Type 0} where
  -- Twice the nesting of a condition is enough.
  unfoldable pub compile_fuel : Condition F → ℕ
  unfolding depth
  compile_fuel cond = depth cond * 2 + 2

-- A result and the builder after it.
abbrev pub Step : Hashset → Hashmap → Type 0 → Type 0 → Type 0
Step h m F A = FilterBuilder h m F → Outcome (A × FilterBuilder h m F)

module _ {h : Hashset} (m : Hashmap) (d : Digest) {F : Type 0} where
  -- The negated index of the record of a set.
  unfoldable pub synthetic_cat : AndOrSet h → Step h m F Category
  unfolding register_and_set read
  synthetic_cat and_set fb = do
    let (csr, registered) = register_and_set m fb and_set
    v ← read m registered csr
    done (wrap32 (neg v.cat_filter_set.cat_set_index1), registered)

  -- A union of more than 64 or-sets: the first 64 become a set of their own.
  unfoldable pub split_long : List (OrSet h) → Step h m F (CatFilter h)
  unfolding synthetic_cat single Set.of
  split_long long fb = do
    (cat, fb') ← synthetic_cat (Set.of h d (take 64 long)) fb
    done (some (Set.of h d (drop 64 long ++ single d cat ∷ [])), fb')

  unfoldable pub and_filters : CatFilter h → CatFilter h → Step h m F (CatFilter h)
  unfolding split_long Set.union AndOrSet.size Set.to_slice
  and_filters a b fb = do
    a_set ← or_panic a
    b_set ← or_panic b
    let and_set = Set.union h d a_set b_set
    (if ltb 64 (AndOrSet.size h d and_set)
        then split_long (Set.to_slice h d and_set) fb
        else done (some and_set, fb))

  unfoldable pub or_of_synthetic : AndOrSet h → AndOrSet h → Step h m F (CatFilter h)
  unfolding synthetic_cat and_of_single Set.of
  or_of_synthetic a b fb = do
    (a_cat, fb') ← synthetic_cat a fb
    (b_cat, fb'') ← synthetic_cat b fb'
    done (some (and_of_single d (Set.of h d (a_cat ∷ b_cat ∷ []))), fb'')

  -- By the slices of the two sets: one of them empty, both of one or-set, or other.
  unfoldable pub or_by_slices :
      AndOrSet h → AndOrSet h → List (OrSet h) → List (OrSet h) → Step h m F (CatFilter h)
  unfolding or_of_synthetic and_of_single Set.of Set.to_slice
  or_by_slices a b [] b_slice fb = done (some b, fb)
  or_by_slices a b (x ∷ xs) [] fb = done (some a, fb)
  or_by_slices a b (x ∷ []) (y ∷ []) fb =
      done (some (and_of_single d (Set.of h d (Set.to_slice h d x ++ Set.to_slice h d y))), fb)
  or_by_slices a b (x ∷ xs) (y ∷ ys) fb = or_of_synthetic a b fb

  unfoldable pub or_filters : CatFilter h → CatFilter h → Step h m F (CatFilter h)
  unfolding or_by_slices Set.to_slice
  or_filters a b fb = do
    a_set ← or_panic a
    b_set ← or_panic b
    or_by_slices a_set b_set (Set.to_slice h d a_set) (Set.to_slice h d b_set) fb

  -- MapSlice with a function that changes the builder, and Reduce.
  unfoldable pub map_step :
      (Condition F → Step h m F (CatFilter h)) → Conditions F → Step h m F (List (CatFilter h))
  map_step f nil fb = done ([], fb)
  map_step f (cons c cs) fb = do
    (filter, fb') ← f c fb
    (filters, fb'') ← map_step f cs fb'
    done (filter ∷ filters, fb'')

  unfoldable pub reduce_step :
      (CatFilter h → CatFilter h → Step h m F (CatFilter h))
      → CatFilter h
      → List (CatFilter h)
      → Step h m F (CatFilter h)
  reduce_step f acc [] fb = done (acc, fb)
  reduce_step f acc (v ∷ s) fb = f acc v fb >>= λ (acc', fb'). reduce_step f acc' s fb'

  -- processAndOp and processOrOp, with the function that combines two filters.
  unfoldable pub combine :
      (CatFilter h → CatFilter h → Step h m F (CatFilter h))
      → List (CatFilter h)
      → Step h m F (CatFilter h)
  unfolding reduce_step empty_and_or_set
  combine f [] fb = done (some (empty_and_or_set h d), fb)
  combine f (first ∷ rest) fb = reduce_step f first rest fb

  unfoldable pub process_and_op :
      (Condition F → Step h m F (CatFilter h)) → Conditions F → Step h m F (CatFilter h)
  unfolding map_step combine and_filters
  process_and_op compute operands fb =
      map_step compute operands fb >>= λ (filters, fb'). combine and_filters filters fb'

  unfoldable pub process_or_op :
      (Condition F → Step h m F (CatFilter h)) → Conditions F → Step h m F (CatFilter h)
  unfolding map_step combine or_filters
  process_or_op compute operands fb =
      map_step compute operands fb >>= λ (filters, fb'). combine or_filters filters fb'

  unfoldable pub process_negated_cat :
      (Condition F → Step h m F (CatFilter h)) → Category → Step h m F (CatFilter h)
  unfolding register_negative_cat new_category_cond
  process_negated_cat compute cat fb =
      if is_neg cat
      then panic
      else (let (neg_cat, fb') = register_negative_cat m fb cat in
          compute (new_category_cond d neg_cat) fb')

  -- processNotOp of the condition under a Not.
  unfoldable pub process_not_op :
      (Condition F → Step h m F (CatFilter h)) → Condition F → Step h m F (CatFilter h)
  unfolding process_negated_cat map_conditions new_or_cond new_and_cond new_not_cond
  process_not_op compute (category_cond cat hash) fb = process_negated_cat compute cat fb
  process_not_op compute (and_cond operands hash) fb =
      compute (new_or_cond d (map_conditions (new_not_cond d) operands)) fb
  process_not_op compute (or_cond operands hash) fb =
      compute (new_and_cond d (map_conditions (new_not_cond d) operands)) fb
  process_not_op compute (not_cond operand hash) fb = compute (not_cond operand hash) fb
  process_not_op compute _ fb = panic

  unfoldable pub compute_by :
      (Condition F → Step h m F (CatFilter h)) → Condition F → Step h m F (CatFilter h)
  unfolding process_and_op process_or_op process_not_op single and_of_single
  compute_by compute (category_cond cat hash) fb = done (some (and_of_single d (single d cat)), fb)
  compute_by compute (and_cond operands hash) fb = process_and_op compute operands fb
  compute_by compute (or_cond operands hash) fb = process_or_op compute operands fb
  compute_by compute (not_cond operand hash) fb = process_not_op compute operand fb
  compute_by compute _ fb = done (none, fb)

  unfoldable pub compute_cat_filter : ℕ → Condition F → Step h m F (CatFilter h)
  unfolding compute_by
  compute_cat_filter zero cond fb = out_of_fuel
  compute_cat_filter (suc fuel) cond fb = compute_by (compute_cat_filter fuel) cond fb
