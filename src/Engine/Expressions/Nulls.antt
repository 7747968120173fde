-- ===== src/Engine/Expressions/Nulls.antt =====
-- The functions of an expression on a missing value.
use rulestone.Prelude.{◌≡◌, ◌↔◌, refl, Bool, true}
use rulestone.Prelude.Fault.{done_ne_panic, Outcome, done, panic}
use rulestone.Immutable.Hash.{Digest}
use rulestone.Condition.Operand.{
  Text, Operand, string_operand, int_operand, float_operand, boolean_operand, time_operand,
  null_operand, error_operand, is_const,
}
use rulestone.Condition.Operand.Numerals.{Formats}
use rulestone.Condition.Operand.Convert.{convert}
use rulestone.Condition.Operand.Compare.{is_error}
use rulestone.Engine.Closures.{Eval}
use rulestone.Engine.Expressions.{is_null, eval_regexp_match}

module _ {S F : Type 0} (g : Formats F) (d : Digest) where
  -- What regexpMatch makes of its argument.
  abbrev of_argument : (Text → Bool) → Operand F → S → Outcome (Operand F × S)
  of_argument match_string arg s = eval_regexp_match g d match_string (λ t. done (arg, t)) s

  of_argument_iff :
      (match_string : Text → Bool) (arg : Operand F) (s : S)
      → is_const arg ≡ true
      → (of_argument match_string arg s ≡ panic) ↔ (is_null g d arg ≡ true)
  unfolding eval_regexp_match convert is_const is_error
  of_argument_iff match_string (string_operand v) s h = (λ p. absurd (done_ne_panic p), λ e. cc)
  of_argument_iff match_string (int_operand v) s h = (λ p. absurd (done_ne_panic p), λ e. cc)
  of_argument_iff match_string (float_operand v) s h = (λ p. absurd (done_ne_panic p), λ e. cc)
  of_argument_iff match_string (boolean_operand v) s h = (λ p. absurd (done_ne_panic p), λ e. cc)
  of_argument_iff match_string (time_operand v) s h = (λ p. absurd (done_ne_panic p), λ e. cc)
  of_argument_iff match_string null_operand s h = (λ p. refl, λ e. refl)
  of_argument_iff match_string (error_operand v) s h = (λ p. absurd (done_ne_panic p), λ e. cc)
  of_argument_iff match_string _ s h = cc

  -- On an argument that evaluates to a constant, regexpMatch panics exactly if the constant is null.
  pub eval_regexp_match-null_iff :
      (match_string : Text → Bool) (arg_eval : Eval S F) (arg : Operand F) (s t : S)
      → arg_eval s ≡ done (arg, t)
      → is_const arg ≡ true
      → (eval_regexp_match g d match_string arg_eval s ≡ panic) ↔ (is_null g d arg ≡ true)
  unfolding eval_regexp_match
  eval_regexp_match-null_iff match_string arg_eval arg s t e h =
      rw e (of_argument_iff match_string arg t h)
