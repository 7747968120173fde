-- ===== src/Condition/Operand/Convert.antt =====
-- condition/condition.go: the methods Convert, a function for each type with values, and one for all
-- operands, which has the other types' cases. A case that is missing in the source panics.
use rulestone.Prelude.{Bool, not, Option, none, some, if◌then◌else◌}
use rulestone.Prelude.Int.{ℤ, pos, ◌==ℤ◌}
use rulestone.Prelude.Fault.{Outcome, done, panic}
use rulestone.Condition.Operand.{
  Text, Time, OperandKind, string, int, float, boolean, time, null, OperandError, bad_date, bad_int,
  bad_float, null_conversion, Operand, string_operand, int_operand, float_operand, boolean_operand,
  time_operand, null_operand, error_operand,
}
use rulestone.Condition.Operand.Numerals.{Formats, itoa, parse_int, true_text, format_bool, text_eq}

module _ {F : Type 0} (g : Formats F) where
  -- time.Unix(0, v)
  abbrev unix : ℤ → Time
  unix v = record { instant = v; location = g.local_location }

  unfoldable pub convert_int : ℤ → OperandKind → Outcome (Operand F)
  unfolding itoa
  convert_int v time = done (time_operand (unix v))
  convert_int v int = done (int_operand v)
  convert_int v float = done (float_operand (g.float_of_int v))
  convert_int v boolean = done (boolean_operand (not (v ==ℤ pos 0)))
  convert_int v string = done (string_operand (itoa v))
  convert_int v null = done null_operand
  convert_int v _ = panic

  unfoldable pub convert_float : F → OperandKind → Outcome (Operand F)
  convert_float v time = done (time_operand (unix (g.int_of_float v)))
  convert_float v int = done (int_operand (g.int_of_float v))
  convert_float v float = done (float_operand v)
  convert_float v boolean = done (boolean_operand (not (g.float_eq v g.float_zero)))
  convert_float v string = done (string_operand (g.format_float v))
  convert_float v null = done null_operand
  convert_float v _ = panic

  -- A result with an error: `t, err := ...; if err != nil { return NewErrorOperand(...) }`.
  unfoldable pub or_error {ℓ} : {A : Type ℓ} → (A → Operand F) → OperandError → Option A → Operand F
  or_error make err none = error_operand err
  or_error make err (some a) = make a

  unfoldable pub convert_string : Text → OperandKind → Outcome (Operand F)
  unfolding or_error parse_int text_eq
  convert_string v time = done (or_error time_operand (bad_date v) (g.parse_any v))
  convert_string v int = done (or_error int_operand (bad_int v) (parse_int v))
  convert_string v float = done (or_error float_operand (bad_float v) (g.parse_float v))
  convert_string v boolean = done (boolean_operand (not (text_eq v true_text)))
  convert_string v string = done (string_operand v)
  convert_string v null = done null_operand
  convert_string v _ = panic

  unfoldable pub convert_time : Time → OperandKind → Outcome (Operand F)
  convert_time v int = done (int_operand (g.unix_nano v.instant))
  convert_time v float = done (float_operand (g.float_of_int (g.unix_nano v.instant)))
  convert_time v time = done (time_operand v)
  convert_time v string = done (string_operand (g.format_time v))
  convert_time v null = done null_operand
  convert_time v _ = panic

  unfoldable pub convert_boolean : Bool → OperandKind → Outcome (Operand F)
  convert_boolean v int = done (int_operand (if v then pos 1 else pos 0))
  convert_boolean v float = done (float_operand (if v then g.float_one else g.float_zero))
  convert_boolean v boolean = done (boolean_operand v)
  convert_boolean v string = done (string_operand (format_bool v))
  convert_boolean v null = done null_operand
  convert_boolean v _ = panic

  -- v.Convert(to): the other operands panic, except that an error stays what it is and that null
  -- becomes an error.
  unfoldable pub convert : Operand F → OperandKind → Outcome (Operand F)
  unfolding convert_int convert_float convert_string convert_time convert_boolean
  convert (int_operand v) to = convert_int v to
  convert (float_operand v) to = convert_float v to
  convert (string_operand v) to = convert_string v to
  convert (time_operand v) to = convert_time v to
  convert (boolean_operand v) to = convert_boolean v to
  convert (error_operand err) to = done (error_operand err)
  convert null_operand to = done (error_operand (null_conversion to))
  convert _ to = panic
