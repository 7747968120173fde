-- ===== src/Engine/Expressions.antt =====
-- engine/engine_impl.go: the closures of operators and functions, over the evaluators of their
-- operands. Arithmetic on float64, a compiled regular expression and the hash maps of operands are
-- parameters; a get may panic, as the Equals of the keys may.
pub mod Nulls
use rulestone.Prelude.{
  ℕ, Bool, true, false, not, ◌||◌, Option, none, some, List, [], ◌∷◌, ltb, if◌then◌else◌,
}
use rulestone.Prelude.Int.{ℤ, pos, ltb_ℤ}
use rulestone.Prelude.Fault.{Outcome, done, panic, ◌>>=◌}
use rulestone.Immutable.Hash.{Digest}
use rulestone.Condition.Operand.{
  Text, Time, OperandKind, string, float, boolean, time, OperandError, Operand, Operands, nil, cons,
  string_operand, int_operand, float_operand, boolean_operand, time_operand, null_operand,
  list_operand, error_operand, is_const,
}
use rulestone.Condition.Operand.Numerals.{Formats}
use rulestone.Condition.Operand.Convert.{convert}
use rulestone.Condition.Operand.Compare.{CompareOp, LogicalOp, is_error, logical, eval_compare}
use rulestone.Engine.Closures.{Eval}

pub data ArithmeticOp : Type 0 where
  add sub mul quo : ArithmeticOp

pub record Arithmetic (F : Type 0) : Type 0 where
  pub add : F → F → F
  pub sub : F → F → F
  pub mul : F → F → F
  pub quo : F → F → F
  pub sqrt : F → F

module _ {F : Type 0} (g : Formats F) (d : Digest) where
  abbrev pub is_null : Operand F → Bool
  is_null null_operand = true
  is_null _ = false

  -- x.(condition.FloatOperand), and the same of strings and times.
  abbrev pub as_float : Operand F → Outcome F
  as_float (float_operand v) = done v
  as_float _ = panic

  abbrev pub as_string : Operand F → Outcome Text
  as_string (string_operand v) = done v
  as_string _ = panic

  abbrev pub apply_arithmetic : Arithmetic F → ArithmeticOp → F → F → F
  apply_arithmetic a ArithmeticOp.add x y = a.add x y
  apply_arithmetic a ArithmeticOp.sub x y = a.sub x y
  apply_arithmetic a ArithmeticOp.mul x y = a.mul x y
  apply_arithmetic a ArithmeticOp.quo x y = a.quo x y

  -- The date of evalIsInConstantListWithDateRange: `none` for a date that is null.
  unfoldable pub date_of : Operand F → Outcome (Option (Operand F))
  date_of null_operand = done none
  date_of y = do date ← convert g y time; done (some date)

  unfoldable pub in_range : Time × Time → Option (Operand F) → Outcome Bool
  in_range (start, end) none = done true
  in_range (start, end) (some (time_operand date)) =
      done (not (ltb_ℤ date.instant start.instant || ltb_ℤ end.instant date.instant))
  in_range (start, end) (some _) = panic

  abbrev pub is_time : Option (Operand F) → Bool
  is_time none = true
  is_time (some (time_operand t)) = true
  is_time (some _) = false

  module _ {S : Type 0} where
    -- genEvalForLogicalOp: the second operand is evaluated whatever the first one gives, but not after
    -- an error.
    unfoldable pub eval_logical_op : LogicalOp → Eval S F → Eval S F → Eval S F
    unfolding logical
    eval_logical_op op x_eval y_eval s = do
      (x, s) ← x_eval s
      x' ← convert g x boolean
      if is_error g d x' then done (x', s) else do
        (y, s) ← y_eval s
        y' ← convert g y boolean
        if is_error g d y' then done (y', s) else do r ← logical g d op x' y'; done (r, s)

    -- genEvalForCompareOperands
    unfoldable pub eval_compare_op : CompareOp → Eval S F → Eval S F → Eval S F
    eval_compare_op op x_eval y_eval s = do
      (x, s) ← x_eval s
      (y, s) ← y_eval s
      r ← eval_compare g d op x y
      done (r, s)

    -- +, -, * and / of preprocessAstExpr
    unfoldable pub eval_arithmetic : Arithmetic F → ArithmeticOp → Eval S F → Eval S F → Eval S F
    eval_arithmetic a op x_eval y_eval s = do
      (x, s) ← x_eval s
      x' ← convert g x float
      if is_error g d x' then done (x', s) else do
        lv ← as_float x'
        (y, s) ← y_eval s
        y' ← convert g y float
        if is_error g d y'
            then done (y', s)
            else do rv ← as_float y'; done (float_operand (apply_arithmetic a op lv rv), s)

    unfoldable pub eval_sqrt : Arithmetic F → Eval S F → Eval S F
    eval_sqrt a arg_eval s = do
      (arg, s) ← arg_eval s
      if is_error g d arg
          then done (arg, s)
          else do arg' ← convert g arg float; v ← as_float arg'; done (float_operand (a.sqrt v), s)

    -- convertToType, for an operand that is no constant
    unfoldable pub eval_convert : OperandKind → Eval S F → Eval S F
    eval_convert kind arg_eval s = do
      (arg, s) ← arg_eval s
      if is_error g d arg then done (arg, s) else do r ← convert g arg kind; done (r, s)

    -- funcHasValue
    unfoldable pub eval_has_value : Eval S F → Eval S F
    eval_has_value arg_eval s = do
      (arg, s) ← arg_eval s
      done (if is_error g d arg then arg else boolean_operand (not (is_null arg)), s)

    -- funcRegexpMatch
    unfoldable pub eval_regexp_match : (Text → Bool) → Eval S F → Eval S F
    eval_regexp_match match_string arg_eval s = do
      (arg, s) ← arg_eval s
      if is_error g d arg then done (arg, s) else do
        arg' ← convert g arg string
        text ← as_string arg'
        done (boolean_operand (match_string text), s)

    -- processEvalForIsInConstantList: the categories that the value of the variable is mapped to.
    unfoldable pub eval_in_constant_list :
        (Operand F → Outcome (Option (Operands F))) → Eval S F → Eval S F
    eval_in_constant_list get x_eval s = do
      (x, s) ← x_eval s
      if is_error g d x then done (x, s) else do
        found ← get x
        elim found [
          | some categories ↦ done (list_operand categories, s)
          | none ↦ done (int_operand (pos 0), s)
        ]

    -- processEvalForContains: the categories of the patterns that the text contains.
    unfoldable pub eval_contains : (Text → Outcome (Operands F)) → Eval S F → Eval S F
    eval_contains match_text x_eval s = do
      (x, s) ← x_eval s
      x' ← convert g x string
      if is_error g d x' then done (x', s) else do
        text ← as_string x'
        categories ← match_text text
        elim categories [
          | nil ↦ done (int_operand (pos 0), s)
          | cons c cs ↦ done (list_operand (cons c cs), s)
        ]

    -- `fail` logs the error of an invalid date range and gives it.
    unfoldable pub eval_in_date_range :
        (Operand F → Outcome (Option (Time × Time)))
        → (S → OperandError × S)
        → Eval S F
        → Eval S F
        → Eval S F
    unfolding date_of in_range
    eval_in_date_range get fail x_eval y_eval s = do
      (x, s) ← x_eval s
      if is_null x
          then done (boolean_operand true, s)
          else if is_error g d x
          then done (x, s)
          else do
            (y, s) ← y_eval s
            if is_error g d y then done (y, s) else do
              date ← date_of y
              if not (is_time date)
                  then (let (err, s) = fail s in done (error_operand err, s))
                  else do
                    found ← get x
                    elim found [
                      | none ↦ done (boolean_operand false, s)
                      | some range ↦ do r ← in_range range date; done (boolean_operand r, s)
                    ]
