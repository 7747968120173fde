-- ===== src/Condition/Operand/Numerals.antt =====
-- Go's standard library as the operands use it: strconv for integers and booleans, comparison of
-- strings, and what is asked of float64, of time and of the date parser.
use rulestone.Prelude.{
  ℕ, zero, suc, ◌+◌, ◌-◌, ◌*◌, ◌/◌, ◌%◌, ◌^◌, Bool, true, false, ◌&&◌, ◌||◌, Option, none, some, [],
  ◌∷◌, ltb, leb, ◌==◌, if◌then◌else◌,
}
use rulestone.Prelude.Int.{ℤ, pos, negsuc}
use rulestone.Condition.Operand.{Text, Time, OperandError}

-- float64, and the conversions of strconv and of the language on it; time.Local, the
-- formatting of times, their UnixNano, which is an int64 and is documented for the years 1678 to 2262
-- only, and github.com/araddon/dateparse.
pub record Formats (F : Type 0) : Type 0 where
  pub float_of_int : ℤ → F
  pub int_of_float : F → ℤ
  pub uint64_of_float : F → ℕ
  pub float_one : F
  pub float_zero : F
  pub float_eq : F → F → Bool
  pub float_gt : F → F → Bool
  pub format_float : F → Text
  pub parse_float : Text → Option F
  pub local_location : ℕ
  pub unix_nano : ℤ → ℤ
  pub format_time : Time → Text
  pub parse_any : Text → Option Time
  pub error_text : OperandError → Text

-- The digits of a number, the highest first; the fuel bounds their count.
unfoldable pub digits_of : ℕ → ℕ → Text → Text
digits_of zero n rest = rest
digits_of (suc fuel) n rest =
    let longer = digits_of fuel (n / 10) ((n % 10 + b'0') ∷ rest) in
    if ltb n 10 then (n + b'0') ∷ rest else longer

-- strconv.Itoa on an int64: 20 digits are enough for 2 ^ 64.
unfoldable pub itoa : ℤ → Text
itoa (pos n) = digits_of 20 n []
itoa (negsuc n) = b'-' ∷ digits_of 20 (n + 1) []

unfoldable pub is_digit : ℕ → Bool
is_digit c = leb b'0' c && leb c b'9'

unfoldable pub parse_digits : ℕ → Text → Option ℕ
unfolding is_digit
parse_digits acc [] = some acc
parse_digits acc (c ∷ cs) = if is_digit c then parse_digits (acc * 10 + (c - b'0')) cs else none

unfoldable pub some_digits : Text → Option ℕ
unfolding parse_digits
some_digits [] = none
some_digits (c ∷ cs) = parse_digits 0 (c ∷ cs)

unfoldable pub in_positive : Option ℕ → Option ℤ
in_positive none = none
in_positive (some n) = if ltb n (2 ^ 63) then some (pos n) else none

unfoldable pub in_negative : Option ℕ → Option ℤ
in_negative none = none
in_negative (some zero) = some (pos 0)
in_negative (some (suc n)) = if ltb n (2 ^ 63) then some (negsuc n) else none

-- strconv.ParseInt(v, 10, 64): a sign, at least one digit, and no overflow.
unfoldable pub parse_int : Text → Option ℤ
unfolding some_digits in_positive in_negative
parse_int [] = none
parse_int (c ∷ cs) =
    if c == b'-'
    then in_negative (some_digits cs)
    else if c == b'+'
    then in_positive (some_digits cs)
    else in_positive (some_digits (c ∷ cs))

abbrev pub true_text : Text
true_text = b't' ∷ b'r' ∷ b'u' ∷ b'e' ∷ []

abbrev pub false_text : Text
false_text = b'f' ∷ b'a' ∷ b'l' ∷ b's' ∷ b'e' ∷ []

-- strconv.FormatBool
abbrev pub format_bool : Bool → Text
format_bool true = true_text
format_bool false = false_text

-- == and > on strings, byte by byte.
unfoldable pub text_eq : Text → Text → Bool
text_eq [] [] = true
text_eq [] (d ∷ ds) = false
text_eq (c ∷ cs) [] = false
text_eq (c ∷ cs) (d ∷ ds) = c == d && text_eq cs ds

unfoldable pub text_gt : Text → Text → Bool
text_gt [] ds = false
text_gt (c ∷ cs) [] = true
text_gt (c ∷ cs) (d ∷ ds) = ltb d c || c == d && text_gt cs ds
