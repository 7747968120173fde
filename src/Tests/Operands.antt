-- ===== src/Tests/Operands.antt =====
-- condition/condition.go and engine/engine_impl.go on concrete operands. Floats are taken to be
-- integers here, and the digest to be the bytes themselves.
use rulestone.Prelude.{
  max, ◌<◌, ap, ℕ, ◌≡◌, ◌≢◌, refl, ◌↔◌, ◌⊎◌, Bool, true, false, not, none, [], ◌∷◌, ◌++◌, map,
  arith, replicate,
}
use rulestone.Prelude.Int.{==ℤ_iff, ℤ, pos, negsuc, ◌≤ℤ◌, ◌==ℤ◌, ltb_ℤ}
use rulestone.Prelude.Fault.{done, ◌>>=◌}
use rulestone.Immutable.Hash.{Digest, uint64}
use rulestone.Condition.Operand.{
  Text, OperandKind, string, error, OperandError, Operand, string_operand, int_operand,
  boolean_operand, time_operand, null_operand, error_operand, get_kind, is_const, kind_number, int,
}
use rulestone.Condition.Operand.Numerals.{Formats, itoa, parse_int, true_text, parse_digits}
use rulestone.Condition.Operand.Convert.{convert}
use rulestone.Condition.Operand.Compare.{
  CompareOp, eval_compare, equal, not_equal, less, less_or_equal, greater, greater_or_equal,
  reconcile_operands, is_error, equals,
}
use rulestone.Condition.Operand.Kinds.{reconcile-same_kind, boolean_text_inverts}
use rulestone.Condition.Operand.Orders.{Holds, Fails, compare_integers, compare_null}
use rulestone.Condition.Operand.Hash.{get_hash}
use rulestone.Condition.Operand.Agree.{FloatsAgree, equal_hash}
use rulestone.Condition.Operand.RoundTrip.{convert-convert}
use rulestone.Engine.Negation.{lss, opposite_operand, IsPushed, Means, reported, compare_negated}
use rulestone.Engine.Records.{result_categories}
use rulestone.Engine.Closures.{Eval, eval_and, eval_or, eval_not, eval_not-de_morgan}

abbrev pub digest : Digest
digest = record { sum256 = λ bytes. bytes ++ replicate 32 0 }

abbrev pub formats : Formats ℤ
formats = record {
  float_of_int = λ v. v;
  int_of_float = λ v. v;
  uint64_of_float = λ v. uint64 v;
  float_one = pos 1;
  float_zero = pos 0;
  float_eq = λ v w. v ==ℤ w;
  float_gt = λ v w. ltb_ℤ w v;
  format_float = λ v. itoa v;
  parse_float = λ v. parse_int v;
  format_time = λ v. itoa v.instant;
  unix_nano = λ v. v;
  local_location = 0;
  parse_any = λ v. none;
  error_text = λ e. [];
}

abbrev Op : Type 0
Op = Operand ℤ

-- "12" and 12: the text is converted to an integer.
abbrev twelve_text : Text
twelve_text = b'1' ∷ b'2' ∷ []

abbrev twelve_as_text : Op
twelve_as_text = string_operand twelve_text

abbrev twelve : Op
twelve = int_operand (pos 12)

text_and_int :
    reconcile_operands formats digest (string_operand twelve_text) (int_operand (pos 12))
    ≡ done (int_operand (pos 12), int_operand (pos 12))
unfolding reconcile_operands convert parse_int parse_digits get_kind
text_and_int = refl

reconcile-same_kind_example :
    ((get_kind twelve ≡ get_kind twelve)
      × (kind_number (get_kind twelve)
          ≡ max (kind_number (get_kind twelve_as_text)) (kind_number (get_kind twelve))))
    ⊎ ((kind_number (get_kind twelve_as_text) < kind_number (get_kind twelve))
        × (get_kind twelve ≡ error)
        × (convert formats twelve_as_text (get_kind twelve) ≡ done twelve)
        × (twelve ≡ twelve))
    ⊎ ((kind_number (get_kind twelve) < kind_number (get_kind twelve_as_text))
        × (get_kind twelve ≡ error)
        × (convert formats twelve (get_kind twelve_as_text) ≡ done twelve)
        × (twelve ≡ twelve_as_text))
reconcile-same_kind_example = reconcile-same_kind formats digest twelve_as_text twelve text_and_int

true_as_text : convert formats (boolean_operand true) string ≡ done (string_operand true_text)
unfolding convert
true_as_text = refl

boolean_text_inverts_example :
    convert formats (string_operand true_text) OperandKind.boolean
    ≡ done (boolean_operand (not true))
boolean_text_inverts_example =
    boolean_text_inverts formats true (string_operand true_text) true_as_text

convert-convert_example :
    ((convert formats (int_operand (negsuc 41)) string >>= λ t. convert formats t int)
      ≡ done (int_operand (negsuc 41)))
    × ((convert formats (boolean_operand true) int >>= λ n. convert formats n OperandKind.boolean)
        ≡ done (boolean_operand true))
convert-convert_example = convert-convert formats (negsuc 41) true (omega arith) (omega arith)

compare_integers_example :
    (Holds formats digest equal (int_operand (pos 3)) (int_operand (negsuc 1)) ↔ (pos 3 ≡ negsuc 1))
    × (Holds formats digest not_equal (int_operand (pos 3)) (int_operand (negsuc 1))
        ↔ (pos 3 ≢ negsuc 1))
    × (Holds formats digest less_or_equal (int_operand (pos 3)) (int_operand (negsuc 1))
        ↔ (pos 3 ≤ℤ negsuc 1))
    × (Holds formats digest greater_or_equal (int_operand (pos 3)) (int_operand (negsuc 1))
        ↔ (negsuc 1 ≤ℤ pos 3))
    × (Holds formats digest less (int_operand (pos 3)) (int_operand (negsuc 1))
        ↔ (¬ (negsuc 1 ≤ℤ pos 3)))
    × (Holds formats digest greater (int_operand (pos 3)) (int_operand (negsuc 1))
        ↔ (¬ (pos 3 ≤ℤ negsuc 1)))
compare_integers_example = compare_integers formats digest (pos 3) (negsuc 1)

five_is_const : is_const {F = ℤ} (int_operand (pos 5)) ≡ true
unfolding is_const
five_is_const = refl

five_is_fine : is_error formats digest (int_operand (pos 5)) ≡ false
unfolding is_error
five_is_fine = refl

abbrev five : Op
five = int_operand (pos 5)

-- null >= 5 and null <= 5
compare_null_example :
    Holds formats digest less_or_equal null_operand five
    × Holds formats digest greater_or_equal null_operand five
    × Holds formats digest not_equal null_operand five
    × Holds formats digest less_or_equal five null_operand
    × Holds formats digest greater_or_equal five null_operand
    × Holds formats digest not_equal five null_operand
    × Fails formats digest equal null_operand five
    × Fails formats digest less null_operand five
    × Fails formats digest greater null_operand five
    × Fails formats digest equal five null_operand
    × Fails formats digest less five null_operand
    × Fails formats digest greater five null_operand
compare_null_example = compare_null formats digest five five_is_const five_is_fine

-- A text that is no date, against a time: neither the comparison nor the negated one is reported.
abbrev moment : Op
moment = time_operand (record { instant = pos 0; location = 0 })

compare_negated_example :
    (plain : CompareOp) × (opposed : CompareOp) × IsPushed lss plain opposed
    × Means formats digest (pos 9) lss plain
    × (reported formats digest (pos 9) opposed (string_operand twelve_text) moment ≡ (
        eval_compare formats digest plain (string_operand twelve_text) moment >>= λ o.
        result_categories (pos 9) (opposite_operand o)))
compare_negated_example =
    compare_negated formats digest lss (pos 9) (string_operand twelve_text) moment tt

-- An evaluator that gives a truth value, and one that fails.
abbrev says : Bool → Eval ℕ ℤ
says b e = done (boolean_operand b, e)

abbrev fails : Eval ℕ ℤ
fails e = done (error_operand (OperandError.message []), e)

eval_not-de_morgan_example :
    (eval_not (eval_and (says true ∷ fails ∷ says false ∷ [])) 0
      ≡ eval_or (map eval_not (says true ∷ fails ∷ says false ∷ [])) 0)
    × (eval_not (eval_or (says true ∷ fails ∷ says false ∷ [])) 0
        ≡ eval_and (map eval_not (says true ∷ fails ∷ says false ∷ [])) 0)
eval_not-de_morgan_example = eval_not-de_morgan (says true ∷ fails ∷ says false ∷ []) 0

floats_agree : FloatsAgree formats digest
floats_agree v w h = ap uint64 ((==ℤ_iff v w).0 h)

same_text :
    equals formats digest (string_operand twelve_text) (string_operand twelve_text) ≡ done true
unfolding equals
same_text = refl

equal_hash_example :
    get_hash formats digest (string_operand twelve_text)
    ≡ get_hash formats digest (string_operand twelve_text)
equal_hash_example =
    equal_hash formats digest (string_operand twelve_text) (string_operand twelve_text) floats_agree
      same_text
