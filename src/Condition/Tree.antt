-- ===== src/Condition/Tree.antt =====
-- condition/condition.go: conditions. A list of conditions is a type of its own, since a condition
-- holds one. The last number of a condition is the hash that its constructor computes.
use rulestone.Prelude.{ℕ, suc, max, List, [], ◌∷◌, Option, none, some}
use rulestone.Prelude.Fault.{Outcome, done, panic}
use rulestone.Types.{Category}
use rulestone.Immutable.Hash.{Digest, hash_bytes, hash_uint64s, hash_int32s, int32_pattern}
use rulestone.Condition.Operand.{Text, Operand}
use rulestone.Condition.Operand.Numerals.{Formats}
use rulestone.Condition.Operand.Hash.{get_hash}
use rulestone.Condition.Operand.Compare.{
  CompareOp, equal, not_equal, greater, greater_or_equal, less, less_or_equal, contains, invalid,
}

pub data CondKind : Type 0 where
  conjunction disjunction negation category comparison expr error : CondKind

abbrev pub cond_number : CondKind → ℕ
cond_number conjunction = 1
cond_number disjunction = 2
cond_number negation = 3
cond_number category = 4
cond_number comparison = 5
cond_number expr = 6
cond_number error = 7

abbrev pub op_number : CompareOp → ℕ
op_number equal = 1
op_number not_equal = 2
op_number greater = 3
op_number greater_or_equal = 4
op_number less = 5
op_number less_or_equal = 6
op_number contains = 7
op_number invalid = 99

-- AndCond, OrCond, NotCond, CategoryCond, CompareCondition, ExprCondition and ErrorCondition; an
-- error is its text.
mutual
  pub data Condition (F : Type 0) : Type 0 where
    and_cond : Conditions F → ℕ → Condition F
    or_cond : Conditions F → ℕ → Condition F
    not_cond : Condition F → ℕ → Condition F
    category_cond : Category → ℕ → Condition F
    compare_cond : CompareOp → Operand F → Operand F → ℕ → Condition F
    expr_cond : Text → ℕ → Condition F
    error_cond : Text → ℕ → Condition F

  pub data Conditions (F : Type 0) : Type 0 where
    nil : Conditions F
    cons : Condition F → Conditions F → Conditions F

module _ {F : Type 0} where
  unfoldable pub get_kind : Condition F → CondKind
  get_kind (and_cond operands hash) = conjunction
  get_kind (or_cond operands hash) = disjunction
  get_kind (not_cond operand hash) = negation
  get_kind (category_cond cat hash) = category
  get_kind (compare_cond op l r hash) = comparison
  get_kind (expr_cond text hash) = expr
  get_kind (error_cond err hash) = error

  unfoldable pub cond_hash : Condition F → ℕ
  cond_hash (and_cond operands hash) = hash
  cond_hash (or_cond operands hash) = hash
  cond_hash (not_cond operand hash) = hash
  cond_hash (category_cond cat hash) = hash
  cond_hash (compare_cond op l r hash) = hash
  cond_hash (expr_cond text hash) = hash
  cond_hash (error_cond err hash) = hash

  -- GetOperands: a comparison has none, and a leaf panics.
  unfoldable pub get_operands : Condition F → Outcome (Conditions F)
  get_operands (and_cond operands hash) = done operands
  get_operands (or_cond operands hash) = done operands
  get_operands (not_cond operand hash) = done (cons operand nil)
  get_operands (compare_cond op l r hash) = done nil
  get_operands (category_cond cat hash) = panic
  get_operands (expr_cond text hash) = panic
  get_operands (error_cond err hash) = panic

  -- MapSlice from conditions to conditions, and from a slice of another type.
  unfoldable pub map_conditions : (Condition F → Condition F) → Conditions F → Conditions F
  map_conditions f nil = nil
  map_conditions f (cons c cs) = cons (f c) (map_conditions f cs)

  unfoldable pub conditions_of {ℓ} : {A : Type ℓ} → (A → Condition F) → List A → Conditions F
  conditions_of f [] = nil
  conditions_of f (a ∷ rest) = cons (f a) (conditions_of f rest)

  unfoldable pub first_error : Conditions F → Option (Condition F)
  first_error nil = none
  first_error (cons (error_cond err hash) cs) = some (error_cond err hash)
  first_error (cons c cs) = first_error cs

  -- The nesting of a condition.
  unfoldable mutual
    pub depth : Condition F → ℕ
    depth (and_cond operands hash) = suc (depths operands)
    depth (or_cond operands hash) = suc (depths operands)
    depth (not_cond operand hash) = suc (depth operand)
    depth _ = 1

    pub depths : Conditions F → ℕ
    depths nil = 0
    depths (cons c cs) = max (depth c) (depths cs)

module _ {F : Type 0} (d : Digest) where
  cond_hashes : Conditions F → List ℕ
  unfolding cond_hash
  cond_hashes nil = []
  cond_hashes (cons c cs) = cond_hash c ∷ cond_hashes cs

  unfoldable pub compute_cond_hash : CondKind → Conditions F → ℕ
  unfolding cond_hashes
  compute_cond_hash kind conditions = hash_uint64s d (cond_number kind ∷ cond_hashes conditions)

  -- An error among the operands is returned in place of the condition.
  unfoldable pub or_first_error : Option (Condition F) → Condition F → Condition F
  or_first_error none made = made
  or_first_error (some err) made = err

  unfoldable pub new_and_cond : Conditions F → Condition F
  unfolding or_first_error first_error compute_cond_hash
  new_and_cond cond =
      or_first_error (first_error cond) (and_cond cond (compute_cond_hash conjunction cond))

  unfoldable pub new_or_cond : Conditions F → Condition F
  unfolding or_first_error first_error compute_cond_hash
  new_or_cond cond =
      or_first_error (first_error cond) (or_cond cond (compute_cond_hash disjunction cond))

  unfoldable pub new_not_cond : Condition F → Condition F
  unfolding compute_cond_hash
  new_not_cond (error_cond err hash) = error_cond err hash
  new_not_cond cond = not_cond cond (compute_cond_hash negation (cons cond nil))

  unfoldable pub new_category_cond : Category → Condition F
  new_category_cond cat = category_cond cat (hash_int32s d (4 ∷ int32_pattern cat ∷ []))

  unfoldable pub new_expr_condition : Text → Condition F
  new_expr_condition val = expr_cond val (hash_uint64s d (cond_number expr ∷ hash_bytes d val ∷ []))

  unfoldable pub new_error_condition : Text → Condition F
  new_error_condition val =
      error_cond val (hash_uint64s d (cond_number error ∷ hash_bytes d val ∷ []))

  unfoldable pub new_compare_cond : Formats F → CompareOp → Operand F → Operand F → Condition F
  new_compare_cond g op l r =
      compare_cond op l r (hash_uint64s d (get_hash g d l ∷ get_hash g d r ∷ op_number op ∷ []))
