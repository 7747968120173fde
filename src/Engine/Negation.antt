-- ===== src/Engine/Negation.antt =====
-- engine/engine_impl.go: processCompareBinaryExpr, which turns a comparison of the expression into a
-- CompareCondition, with the negation pushed into the operator where there is an opposite one.
use rulestone.Prelude.{
  ℕ, ◌≡◌, refl, Bool, true, false, not, sym, inl, inr, Bool-cases, Option, none, some, List, [],
  ◌∷◌, ◌↔◌, arith,
}
use rulestone.Prelude.Int.{ℤ, ◌≤ℤ◌, ==ℤ_iff}
use rulestone.Prelude.Fault.{Outcome, done, panic, out_of_fuel, ◌>>=◌}
use rulestone.Immutable.Hash.{Digest}
use rulestone.Types.{Category}
use rulestone.Engine.Records.{result_categories}
use rulestone.Condition.Operand.{Operand, int_operand, boolean_operand, error_operand}
use rulestone.Condition.Operand.Numerals.{Formats}
use rulestone.Condition.Operand.Compare.{
  CompareOp, equal, greater, greater_or_equal, less, less_or_equal, greater_than,
  reconcile_operands, to_operand, apply_compare, is_error, eval_compare,
}

-- The operators of go/token: those that compare, and any other one.
pub data Token : Type 0 where
  eql lss gtr neq leq geq : Token
  other : ℕ → Token

-- The operator of the condition, and whether the condition is put under a Not.
unfoldable pub compare_op : Bool → Token → Option (CompareOp × Bool)
compare_op true eql = some (equal, true)
compare_op true lss = some (greater_or_equal, false)
compare_op true gtr = some (less_or_equal, false)
compare_op true neq = some (equal, false)
compare_op true leq = some (greater, false)
compare_op true geq = some (less, false)
compare_op false eql = some (equal, false)
compare_op false lss = some (less, false)
compare_op false gtr = some (greater, false)
compare_op false neq = some (equal, true)
compare_op false leq = some (less_or_equal, false)
compare_op false geq = some (greater_or_equal, false)
compare_op negate (other n) = none

-- The operators whose opposite is an operator too.
abbrev pub IsOrder : Token → Type 0
IsOrder lss = Unit
IsOrder gtr = Unit
IsOrder leq = Unit
IsOrder geq = Unit
IsOrder _ = ⊥

-- The comparisons that an operator stands for, without and with a negation, neither under a Not.
abbrev pub IsPushed : Token → CompareOp → CompareOp → Type 0
IsPushed op plain opposed =
    (compare_op false op ≡ some (plain, false)) × (compare_op true op ≡ some (opposed, false))

-- The opposite of a truth value; an error has none and stays.
abbrev pub opposite_operand : {F : Type 0} → Operand F → Operand F
opposite_operand (boolean_operand b) = boolean_operand (not b)
opposite_operand o = o

module _ {F : Type 0} (g : Formats F) (d : Digest) where
  abbrev negated : Outcome (Operand F) → Outcome (Operand F)
  negated r = r >>= λ o. done (opposite_operand o)

  negated-not : (r : Outcome Bool) → to_operand g d not r ≡ negated (to_operand g d (λ b. b) r)
  unfolding to_operand
  negated-not (done b) = refl
  negated-not panic = refl
  negated-not out_of_fuel = refl

  negated-id : (r : Outcome Bool) → to_operand g d (λ b. b) r ≡ negated (to_operand g d not r)
  unfolding to_operand
  negated-id (done true) = refl
  negated-id (done false) = refl
  negated-id panic = refl
  negated-id out_of_fuel = refl

  negated_error : (x : Operand F) → is_error g d x ≡ true → negated (done x) ≡ done x
  unfolding is_error
  negated_error (error_operand err) h = refl
  negated_error _ h = cc

  negated_pair :
      (f k : Operand F → Operand F → Outcome (Operand F)) (r : Outcome (Operand F × Operand F))
      → ((x y : Operand F) → f x y ≡ negated (k x y))
      → (r >>= λ (x, y). f x y) ≡ negated (r >>= λ (x, y). k x y)
  negated_pair f k (done (x, y)) h = h x y
  negated_pair f k panic h = refl
  negated_pair f k out_of_fuel h = refl

  -- Operators that are opposite on reconciled operands are opposite on all.
  opposite :
      (op op' : CompareOp) (x y : Operand F)
      → ((x y : Operand F) → apply_compare g d op x y ≡ negated (apply_compare g d op' x y))
      → eval_compare g d op x y ≡ negated (eval_compare g d op' x y)
  unfolding eval_compare
  opposite op op' x y h = elim (Bool-cases (is_error g d x)) [
    | inl bad ↦ rw bad (sym (negated_error x bad))
    | inr fine ↦ elim (Bool-cases (is_error g d y)) [
      | inl bad ↦ rw (fine, bad) (sym (negated_error y bad))
      | inr sound ↦
          rw (fine, sound)
            (negated_pair (apply_compare g d op) (apply_compare g d op')
              (reconcile_operands g d x y) h)
    ]
  ]

  -- The categories that MatchEvent takes from a comparison's record of category `cat`.
  abbrev pub reported : Category → CompareOp → Operand F → Operand F → Outcome (List Category)
  reported cat op x y = eval_compare g d op x y >>= result_categories cat

  from_opposite :
      (cat : Category) (op op' : CompareOp) (x y : Operand F)
      → eval_compare g d op x y ≡ negated (eval_compare g d op' x y)
      → reported cat op x y
        ≡ (eval_compare g d op' x y >>= λ o. result_categories cat (opposite_operand o))
  from_opposite cat op op' x y h = at (eval_compare g d op' x y) h
    where
      at :
          (r : Outcome (Operand F))
          → eval_compare g d op x y ≡ negated r
          → reported cat op x y ≡ (r >>= λ o. result_categories cat (opposite_operand o))
      at (done o) e = rw e refl
      at panic e = rw e refl
      at out_of_fuel e = rw e refl

  -- The integers are in the order that the operator names.
  abbrev pub InOrder : Token → ℤ → ℤ → Type 0
  InOrder lss a b = ¬ (b ≤ℤ a)
  InOrder gtr a b = ¬ (a ≤ℤ b)
  InOrder leq a b = a ≤ℤ b
  InOrder geq a b = b ≤ℤ a
  InOrder _ a b = ⊥

  -- The category is reported exactly for integers in order.
  abbrev pub Means : Category → Token → CompareOp → Type 0
  Means cat op plain =
      (a b : ℤ)
      → (reported cat plain (int_operand a) (int_operand b) ≡ done (cat ∷ [])) ↔ InOrder op a b

  integers :
      (cat : Category)
      → Means cat lss less
        × Means cat gtr greater
        × Means cat leq less_or_equal
        × Means cat geq greater_or_equal
  unfolding eval_compare result_categories
  integers cat = (
    λ a b. ground (arith, ==ℤ_iff a b),
    λ a b. ground (arith, ==ℤ_iff a b),
    λ a b. ground (arith, ==ℤ_iff a b),
    λ a b. ground (arith, ==ℤ_iff a b),
  )

  -- For <, >, <= and >=, a comparison and its negation are one comparison each, neither under a Not: the
  -- category of the comparison's record is reported for integers in the order that the operator names, and
  -- for no others. The negated comparison's record is reported, for operands of every kind, exactly
  -- where the comparison gives false; where that gives an error, neither is reported, and where it
  -- panics, so does the negated one.
  pub compare_negated :
      (op : Token) (cat : Category) (x y : Operand F)
      → IsOrder op
      → (plain : CompareOp) × (opposed : CompareOp) × IsPushed op plain opposed
        × Means cat op plain
        × (reported cat opposed x y
            ≡ (eval_compare g d plain x y >>= λ o. result_categories cat (opposite_operand o)))
  unfolding compare_op apply_compare
  compare_negated lss cat x y h = (
    less,
    greater_or_equal,
    (refl, refl),
    (integers cat).0,
    from_opposite cat greater_or_equal less x y
        (opposite greater_or_equal less x y (λ v w. negated-not (greater_than g d w v))),
  )
  compare_negated gtr cat x y h = (
    greater,
    less_or_equal,
    (refl, refl),
    (integers cat).1,
    from_opposite cat less_or_equal greater x y
        (opposite less_or_equal greater x y (λ v w. negated-not (greater_than g d v w))),
  )
  compare_negated leq cat x y h = (
    less_or_equal,
    greater,
    (refl, refl),
    (integers cat).2,
    from_opposite cat greater less_or_equal x y
        (opposite greater less_or_equal x y (λ v w. negated-id (greater_than g d v w))),
  )
  compare_negated geq cat x y h = (
    greater_or_equal,
    less,
    (refl, refl),
    (integers cat).3,
    from_opposite cat less greater_or_equal x y
        (opposite less greater_or_equal x y (λ v w. negated-id (greater_than g d w v))),
  )
  compare_negated _ cat x y h = absurd h
