-- ===== src/Cateng/Builder/Compile/Ends.antt =====
-- The fuel of computeCatFilter against the depth of its calls.
use rulestone.Prelude.{
  ℕ, zero, suc, ◌≤◌, ◌≢◌, refl, inl, inr, Option, none, some, List, [], ◌∷◌, arith, ltb, Bool-cases,
}
use rulestone.Prelude.Int.{is_neg}
use rulestone.Prelude.Fault.{Outcome, done, panic, out_of_fuel, or_panic, ◌>>=◌}
use rulestone.Types.AndOrSet
use rulestone.Types.AndOrSet.{Hashmap, OrSet, AndOrSet, set_element}
use rulestone.Immutable.Hash.{Digest}
use rulestone.Immutable.Set
use rulestone.Immutable.Set.{Hashset}
use rulestone.Condition.Tree.{
  Condition, Conditions, nil, cons, and_cond, or_cond, not_cond, category_cond, compare_cond,
  expr_cond, error_cond,
}
use rulestone.Cateng.Builder.Compile.Need.{
  need, needs, need_not, need-le, need_pos, need-negated_and, need-negated_or,
}
use rulestone.Cateng.Builder.{FilterBuilder, read, register_and_set}
use rulestone.Cateng.Builder.Compile.{
  CatFilter, Step, compile_fuel, compute_cat_filter, compute_by, process_and_op, process_or_op,
  process_not_op, process_negated_cat, combine, reduce_step, map_step, and_filters, or_filters,
  or_by_slices, or_of_synthetic, split_long, synthetic_cat,
}

abbrev Ends : {A : Type 0} → Outcome A → Type 0
Ends r = r ≢ out_of_fuel

>>=-Ends :
    {A B : Type 0} (r : Outcome A) (f : A → Outcome B)
    → Ends r
    → ((a : A) → Ends (f a))
    → Ends (r >>= f)
>>=-Ends (done a) f h k = k a
>>=-Ends panic f h k = λ e. cc
>>=-Ends out_of_fuel f h k = absurd (h refl)

done-Ends : {A : Type 0} (a : A) → Ends (done a)
done-Ends a = λ e. cc

or_panic-Ends : {A : Type 0} (o : Option A) → Ends (or_panic o)
or_panic-Ends none = λ e. cc
or_panic-Ends (some a) = λ e. cc

module _ {h : Hashset} (m : Hashmap) (d : Digest) {F : Type 0} where
  synthetic-Ends : (s : AndOrSet h) (fb : FilterBuilder h m F) → Ends (synthetic_cat m d s fb)
  unfolding synthetic_cat read
  synthetic-Ends s fb =
      let (csr, registered) = register_and_set m fb s in
      >>=-Ends (read m registered csr) _ (or_panic-Ends _) (λ v. done-Ends _)

  and_filters-Ends : (a b : CatFilter h) (fb : FilterBuilder h m F) → Ends (and_filters m d a b fb)
  unfolding and_filters split_long
  and_filters-Ends none b fb = λ e. cc
  and_filters-Ends (some a) none fb = λ e. cc
  and_filters-Ends (some a) (some b) fb =
      elim (Bool-cases (ltb 64 (AndOrSet.size h d (Set.union h d a b)))) [
        | inl long ↦
            rw long (
              >>=-Ends (synthetic_cat m d _ fb) _ (synthetic-Ends _ fb) (λ (cat, fb'). done-Ends _))
        | inr short ↦ rw short (λ e. cc)
      ]

  or_of_synthetic-Ends :
      (a b : AndOrSet h) (fb : FilterBuilder h m F) → Ends (or_of_synthetic m d a b fb)
  unfolding or_of_synthetic
  or_of_synthetic-Ends a b fb =
      >>=-Ends (synthetic_cat m d a fb) _ (synthetic-Ends a fb) (λ (cat, fb').
        >>=-Ends (synthetic_cat m d b fb') _ (synthetic-Ends b fb') (λ (cat', fb''). done-Ends _))

  or_by_slices-Ends :
      (a b : AndOrSet h) (xs ys : List (OrSet h)) (fb : FilterBuilder h m F)
      → Ends (or_by_slices m d a b xs ys fb)
  unfolding or_by_slices
  or_by_slices-Ends a b [] ys fb = λ e. cc
  or_by_slices-Ends a b (x ∷ xs) [] fb = λ e. cc
  or_by_slices-Ends a b (x ∷ []) (y ∷ []) fb = λ e. cc
  or_by_slices-Ends a b (x ∷ []) (y ∷ y' ∷ ys) fb = or_of_synthetic-Ends a b fb
  or_by_slices-Ends a b (x ∷ x' ∷ xs) (y ∷ ys) fb = or_of_synthetic-Ends a b fb

  or_filters-Ends : (a b : CatFilter h) (fb : FilterBuilder h m F) → Ends (or_filters m d a b fb)
  unfolding or_filters
  or_filters-Ends none b fb = λ e. cc
  or_filters-Ends (some a) none fb = λ e. cc
  or_filters-Ends (some a) (some b) fb = or_by_slices-Ends a b _ _ fb

  module _ (f : CatFilter h → CatFilter h → Step h m F (CatFilter h))
      (f_ends : (a b : CatFilter h) (fb : FilterBuilder h m F) → Ends (f a b fb)) where
    reduce-Ends :
        (acc : CatFilter h) (s : List (CatFilter h)) (fb : FilterBuilder h m F)
        → Ends (reduce_step m d f acc s fb)
    unfolding reduce_step
    reduce-Ends acc [] fb = λ e. cc
    reduce-Ends acc (v ∷ s) fb =
        >>=-Ends (f acc v fb) _ (f_ends acc v fb) (λ (acc', fb'). reduce-Ends acc' s fb')

    combine-Ends : (s : List (CatFilter h)) (fb : FilterBuilder h m F) → Ends (combine m d f s fb)
    unfolding combine
    combine-Ends [] fb = λ e. cc
    combine-Ends (first ∷ rest) fb = reduce-Ends first rest fb

  -- With what a condition needs, a call for it ends.
  abbrev Ready : (Condition F → Step h m F (CatFilter h)) → ℕ → Type 0
  Ready compute n = (c : Condition F) (fb : FilterBuilder h m F) → need c ≤ n → Ends (compute c fb)

  module _ (compute : Condition F → Step h m F (CatFilter h)) (n : ℕ)
      (ready : Ready compute n) where
    map-Ends :
        (cs : Conditions F) (fb : FilterBuilder h m F)
        → needs cs ≤ n
        → Ends (map_step m d compute cs fb)
    unfolding map_step needs
    map-Ends nil fb le = λ e. cc
    map-Ends (cons c cs) fb le =
        >>=-Ends (compute c fb) _ (ready c fb (omega arith)) (λ (filter, fb').
          >>=-Ends (map_step m d compute cs fb') _ (map-Ends cs fb' (omega arith))
            (λ (filters, fb''). done-Ends _))

    not-Ends :
        (c : Condition F) (fb : FilterBuilder h m F)
        → need_not c ≤ n
        → Ends (process_not_op m d compute c fb)
    unfolding process_not_op process_negated_cat need_not need
    not-Ends (category_cond cat hash) fb le = elim (Bool-cases (is_neg cat)) [
      | inl negative ↦ rw negative (λ e. cc)
      | inr natural ↦ rw natural (ready _ _ le)
    ]
    not-Ends (and_cond operands hash) fb le =
        ready _ fb (omega (arith, need-negated_and d operands))
    not-Ends (or_cond operands hash) fb le = ready _ fb (omega (arith, need-negated_or d operands))
    not-Ends (not_cond operand hash) fb le = ready _ fb le
    not-Ends (compare_cond x y z w) fb le = λ e. cc
    not-Ends (expr_cond x y) fb le = λ e. cc
    not-Ends (error_cond x y) fb le = λ e. cc

    by-Ends :
        (c : Condition F) (fb : FilterBuilder h m F)
        → need c ≤ suc n
        → Ends (compute_by m d compute c fb)
    unfolding compute_by process_and_op process_or_op need
    by-Ends (category_cond cat hash) fb le = λ e. cc
    by-Ends (and_cond operands hash) fb le =
        >>=-Ends (map_step m d compute operands fb) _ (map-Ends operands fb (omega arith))
          (λ (filters, fb'). combine-Ends (and_filters m d) and_filters-Ends filters fb')
    by-Ends (or_cond operands hash) fb le =
        >>=-Ends (map_step m d compute operands fb) _ (map-Ends operands fb (omega arith))
          (λ (filters, fb'). combine-Ends (or_filters m d) or_filters-Ends filters fb')
    by-Ends (not_cond operand hash) fb le = not-Ends operand fb (omega arith)
    by-Ends (compare_cond x y z w) fb le = λ e. cc
    by-Ends (expr_cond x y) fb le = λ e. cc
    by-Ends (error_cond x y) fb le = λ e. cc

  fuel-Ends :
      (n : ℕ) (c : Condition F) (fb : FilterBuilder h m F)
      → need c ≤ n
      → Ends (compute_cat_filter m d n c fb)
  unfolding compute_cat_filter
  fuel-Ends zero c fb le = absurd (omega (arith, need_pos c))
  fuel-Ends (suc n) c fb le = by-Ends (compute_cat_filter m d n) n (fuel-Ends n) c fb le

  -- The fuel that buildCatSetFilter's model gives to computeCatFilter is enough for every condition
  -- and every state of the builder: the call returns or panics.
  pub compute_cat_filter-ends :
      (cond : Condition F) (fb : FilterBuilder h m F)
      → compute_cat_filter m d (compile_fuel cond) cond fb ≢ out_of_fuel
  unfolding compile_fuel
  compute_cat_filter-ends cond fb =
      fuel-Ends (compile_fuel cond) cond fb (omega (arith, need-le cond))
